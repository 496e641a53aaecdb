-- ===== src/Tunnel/Route.antt =====
-- Where lab8/lab_tun/dist/tunvpn.pub.cpp sends packets.
use inp.Common.{
  ℕ, ◌+◌, ◌^◌, ◌≤◌, ◌<◌, ◌≡◌, ◌≢◌, refl, sym, ◌∙◌, true, false, List, [], ◌∷◌, none, some, arith,
  ◌==◌, get_elem?, length, Option-cases, ◌⊎◌, inl, inr,
}
use inp.Common.Bytes.{Bytes}
use inp.Common.Maps.{lookup}
use inp.Tunnel.{
  Sockaddr, Server, Client, to_socket, to_tun, buf_size, word_at, bytes_of, daddr, htonl, my_addr,
  received, receive, next_ip, assign, forward, on_socket, on_tun, start, configured, config_request,
  client_on_socket,
}
use inp.Tunnel.Buffer.{
  received_all, take-receive, daddr-receive, daddr-receive_short, word_at-receive,
}
use inp.Tunnel.Address.{htonl_lt, word_at-bytes_of, ip_of, ip_of-my_addr}
use inp.Tunnel.Run.{Found, run, askers, start-Serves}

-- A packet with a whole IP header that fits the buffer.
abbrev pub IsWhole : Bytes → Type 0
IsWhole packet = (20 ≤ length packet) × (length packet ≤ buf_size)

not_four : (n : ℕ) → 20 ≤ n → (n == 4) ≡ false
not_four n h = ground arith

other_four : (n : ℕ) → n ≢ 4 → (n == 4) ≡ false
other_four n h = ground arith

own : ip_of 244 ≡ htonl my_addr
unfolding htonl
own = refl

not_config : (packet : Bytes) → IsWhole packet → (received packet == 4) ≡ false
not_config packet (a, b) = not_four (received packet) (omega (arith, received_all packet b))

-- What the two branches of the server send, when the table leads to `client`.
on_socket-known :
    (packet : Bytes) (sender client : Sockaddr) (s : Server)
    → IsWhole packet
    → daddr packet ≢ htonl my_addr
    → lookup (daddr packet) s.client_addr ≡ some client
    → (on_socket packet sender s).2 ≡ to_socket packet client ∷ []
unfolding on_socket
on_socket-known packet sender client s (a, b) h k =
    let there : (daddr packet == htonl my_addr) ≡ false = ground arith in
    rw
      (
        not_config packet (a, b),
        daddr-receive packet s.buffer b a,
        there,
        k,
        take-receive packet s.buffer b,
      )
      refl

on_tun-known :
    (packet : Bytes) (client : Sockaddr) (s : Server)
    → IsWhole packet
    → lookup (daddr packet) s.client_addr ≡ some client
    → (on_tun packet s).1 ≡ to_socket packet client ∷ []
unfolding on_tun forward
on_tun-known packet client s (a, b) k =
    rw (daddr-receive packet s.buffer b a, k, take-receive packet s.buffer b, forward) refl

client-takes :
    (packet : Bytes) (c : Client)
    → IsWhole packet
    → daddr packet ≡ c.virtual_ip
    → (client_on_socket packet c).1 ≡ to_tun packet ∷ []
unfolding client_on_socket
client-takes packet c (a, b) h =
    let here : (daddr packet == c.virtual_ip) ≡ true = ground arith in
    rw (daddr-receive packet c.buffer b a, here, take-receive packet c.buffer b) refl

module _ (found : List Found) (small : length (askers found) + 1 < 2 ^ 31) (j : ℕ)
    (client : Sockaddr) (asked : get_elem? (askers found) j ≡ some client) (packet : Bytes)
    (whole : IsWhole packet) (address : daddr packet ≡ ip_of j) where
  entry : lookup (daddr packet) (run found start).client_addr ≡ some client
  entry = rw address ((start-Serves found small).each j client asked)

  -- After any turns with fewer than 2 ^ 31 requests, a packet of a tun device with a whole IP header,
  -- of at most 1500 bytes and for the address that the request number `j` got, is sent by the server
  -- as it is to the client that asked, and that client writes it to its tun device as it is.
  pub on_tun-delivers :
      (c : Client)
      → c.virtual_ip ≡ ip_of j
      → ((on_tun packet (run found start)).1 ≡ to_socket packet client ∷ [])
        × ((client_on_socket packet c).1 ≡ to_tun packet ∷ [])
  on_tun-delivers c mine = (
    on_tun-known packet client (run found start) whole entry,
    client-takes packet c whole (address ∙ sym mine),
  )

  -- After any turns with fewer than 2 ^ 31 requests, a packet from any socket with a whole IP header,
  -- of at most 1500 bytes and for the address that the request number `j` got, is sent by the server
  -- as it is to the client that asked, and that client writes it to its tun device as it is; `j` is
  -- below 2 ^ 31 and not 244.
  pub on_socket-delivers :
      (sender : Sockaddr) (c : Client)
      → j < 2 ^ 31
      → j ≢ 244
      → c.virtual_ip ≡ ip_of j
      → ((on_socket packet sender (run found start)).2 ≡ to_socket packet client ∷ [])
        × ((client_on_socket packet c).1 ≡ to_tun packet ∷ [])
  on_socket-delivers sender c hj other mine = (
    on_socket-known packet sender client (run found start) whole
        (λ e. ip_of-my_addr j hj other (sym address ∙ e)) entry,
    client-takes packet c whole (address ∙ sym mine),
  )

-- A packet for the server's own address, from whomever and in whatever state, goes to the server's
-- tun device as it is. The address that the request number 244 gets is that address.
pub on_socket-own :
    (packet : Bytes) (sender : Sockaddr) (s : Server)
    → IsWhole packet
    → (daddr packet ≡ htonl my_addr) ⊎ (daddr packet ≡ ip_of 244)
    → (on_socket packet sender s).2 ≡ to_tun packet ∷ []
unfolding on_socket
on_socket-own packet sender s (a, b) h =
    let address : daddr packet ≡ htonl my_addr = elim h [ inl e ↦ e | inr e ↦ e ∙ own ] in
    let here : (daddr packet == htonl my_addr) ≡ true = ground arith in
    rw
      (
        not_config packet (a, b),
        daddr-receive packet s.buffer b a,
        here,
        take-receive packet s.buffer b,
      )
      refl

no_entry :
    (found : List Found) (packet : Bytes)
    → length (askers found) + 1 < 2 ^ 31
    → ((j : ℕ) → j < length (askers found) → daddr packet ≢ ip_of j)
    → lookup (daddr packet) (run found start).client_addr ≡ none
no_entry found packet small strange =
    elim (Option-cases (lookup (daddr packet) (run found start).client_addr)) [
      | inl e ↦ e
      | inr (a, e) ↦
          let (j, lt, same) = (start-Serves found small).only (daddr packet) a e in
          absurd (strange j lt same)
    ]

-- After any turns with fewer than 2 ^ 31 requests, a packet for an address that is neither the
-- server's nor that of a request goes nowhere, wherever it comes from.
pub drops_strange :
    (found : List Found) (packet : Bytes) (sender : Sockaddr)
    → length (askers found) + 1 < 2 ^ 31
    → IsWhole packet
    → daddr packet ≢ htonl my_addr
    → ((j : ℕ) → j < length (askers found) → daddr packet ≢ ip_of j)
    → ((on_socket packet sender (run found start)).2 ≡ [])
      × ((on_tun packet (run found start)).1 ≡ [])
unfolding on_socket on_tun forward
drops_strange found packet sender small (a, b) other strange =
    let buffer = (run found start).buffer in
    let nowhere = no_entry found packet small strange in
    let there : (daddr packet == htonl my_addr) ≡ false = ground arith in
    (
      rw (not_config packet (a, b), daddr-receive packet buffer b a, there, nowhere) refl,
      rw (daddr-receive packet buffer b a, nowhere, forward) refl,
    )

zero_word : (buffer : Bytes) → (word_at 0 (receive config_request buffer) == 0) ≡ true
zero_word buffer = rw (word_at-receive config_request buffer refl) refl

-- A client that asks gets in four bytes the address by which the server knows it: after any turns
-- with fewer than 2 ^ 31 requests, the answer configures the client with the address of its request.
pub assign-configured :
    (found : List Found) (sender server : Sockaddr)
    → length (askers found) + 1 < 2 ^ 31
    → ((on_socket config_request sender (run found start)).2
        ≡ to_socket (bytes_of (ip_of (length (askers found)))) sender ∷ [])
      × ((configured (bytes_of (ip_of (length (askers found)))) server).virtual_ip
          ≡ ip_of (length (askers found)))
unfolding on_socket assign next_ip
assign-configured found sender server small = (
  rw (zero_word (run found start).buffer, (start-Serves found small).num) refl,
  word_at-bytes_of (ip_of (length (askers found))) (htonl_lt _),
)

-- A datagram of at most 16 bytes, other than 4, has no destination of its own: the server treats it by
-- the destination that an earlier packet left in the buffer, and sends it to the client that the
-- earlier packet was for.
pub on_socket-stale :
    (packet : Bytes) (sender client : Sockaddr) (s : Server)
    → length packet ≤ 16
    → length packet ≢ 4
    → daddr s.buffer ≢ htonl my_addr
    → lookup (daddr s.buffer) s.client_addr ≡ some client
    → (on_socket packet sender s).2 ≡ to_socket packet client ∷ []
unfolding on_socket
on_socket-stale packet sender client s short not4 h k =
    let there : (daddr s.buffer == htonl my_addr) ≡ false = ground arith in
    let odd : (received packet == 4) ≡ false =
      other_four (received packet) (omega (arith, received_all packet (omega arith))) in
    rw
      (
        odd,
        daddr-receive_short packet s.buffer short,
        there,
        k,
        take-receive packet s.buffer (omega arith),
      )
      refl

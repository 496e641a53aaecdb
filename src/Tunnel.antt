-- ===== src/Tunnel.antt =====
-- The tunnel of lab8/lab_tun/dist/tunvpn.pub.cpp: what the server and the client do with a datagram
-- and with a packet of the tun device. A failed system call ends the program and is left out.
pub mod Buffer
pub mod Address
pub mod Table
pub mod Run
pub mod Route
mod Tests
use inp.Common.{
  ℕ, zero, suc, ◌+◌, ◌*◌, ◌/◌, ◌%◌, ◌^◌, Bool, true, false, List, [], ◌∷◌, ◌++◌, Option, none, some,
  ◌==◌, if◌then◌else◌, get_or, take, drop, replicate, length,
}
use inp.Common.Bytes.{Bytes}
use inp.Common.Maps.{Map, lookup, insert}

-- `MYADDR`
abbrev pub my_addr : ℕ
my_addr = 0x0a0000fe

-- `ADDRBASE`
abbrev pub addr_base : ℕ
addr_base = 0x0a00000a

-- `BUF_SIZE`
abbrev pub buf_size : ℕ
buf_size = 1500

-- `struct sockaddr_in`
pub record Sockaddr : Type 0 where
  pub host : ℕ
  pub port : ℕ

-- `htonl` on a little-endian host.
unfoldable pub htonl : ℕ → ℕ
htonl n = n % 256 * 2 ^ 24 + n / 256 % 256 * 2 ^ 16 + n / 2 ^ 16 % 256 * 256 + n / 2 ^ 24 % 256

-- A `uint32_t` in memory, low byte first, and the one at a place of a buffer.
abbrev pub bytes_of : ℕ → Bytes
bytes_of n = n % 256 ∷ n / 256 % 256 ∷ n / 2 ^ 16 % 256 ∷ n / 2 ^ 24 % 256 ∷ []

abbrev pub word_at : ℕ → Bytes → ℕ
word_at i buffer =
    get_or buffer i 0
    + get_or buffer (i + 1) 0 * 256
    + get_or buffer (i + 2) 0 * 2 ^ 16
    + get_or buffer (i + 3) 0 * 2 ^ 24

-- `daddr` of the `struct iphdr` at the start of the buffer.
unfoldable pub daddr : Bytes → ℕ
daddr buffer = word_at 16 buffer

-- The buffer after `recvfrom` or `read`: what does not fit is lost, and what is not overwritten stays.
unfoldable pub receive : Bytes → Bytes → Bytes
receive packet buffer = let got = take buf_size packet in got ++ drop (length got) buffer

-- The result of `recvfrom` or `read`.
abbrev pub received : Bytes → ℕ
received packet = length (take buf_size packet)

-- What a turn sends: a datagram, or a packet to the tun device.
pub data Output : Type 0 where
  to_socket : Bytes → Sockaddr → Output
  to_tun : Bytes → Output

-- What `tunvpn_server` keeps from turn to turn.
pub record Server : Type 0 where
  pub client_addr : Map Sockaddr
  pub client_num : ℕ
  pub buffer : Bytes

abbrev pub start : Server
start = record { client_addr = []; client_num = 0; buffer = replicate buf_size 0 }

-- A packet for a client of the table.
unfoldable pub forward : ℕ → Server → List Output
forward n s = elim (lookup (daddr s.buffer) s.client_addr) [
  | none ↦ []
  | some client ↦ to_socket (take n s.buffer) client ∷ []
]

-- The address that a request for one gets.
unfoldable pub next_ip : Server → ℕ
next_ip s = htonl ((addr_base + s.client_num) % 2 ^ 32)

unfoldable pub assign : Sockaddr → Server → Server × List Output
assign client s = (
  record s {
    client_addr = insert (next_ip s) client s.client_addr;
    client_num = (s.client_num + 1) % 2 ^ 32;
  },
  to_socket (bytes_of (next_ip s)) client ∷ [],
)

-- The branch of the server for a readable socket, and whether it ends with `continue`.
unfoldable pub on_socket : Bytes → Sockaddr → Server → Bool × Server × List Output
on_socket packet sender s =
    let n = received packet in
    let s₁ = record s { buffer = receive packet s.buffer } in
    if n == 4
    then (if word_at 0 s₁.buffer == 0
        then (let (s₂, out) = assign sender s₁ in (true, s₂, out))
        else (true, s₁, []))
    else (if daddr s₁.buffer == htonl my_addr
        then (true, s₁, to_tun (take n s₁.buffer) ∷ [])
        else (elim (lookup (daddr s₁.buffer) s₁.client_addr) [
          | none ↦ (true, s₁, [])
          | some client ↦ (false, s₁, to_socket (take n s₁.buffer) client ∷ [])
        ]))

-- The branch for a readable tun device.
unfoldable pub on_tun : Bytes → Server → Server × List Output
on_tun packet s =
    let s₁ = record s { buffer = receive packet s.buffer } in (s₁, forward (received packet) s₁)

-- A turn of the server with what `select` found. A `continue` leaves the packet of the tun device to
-- the next turn.
unfoldable pub turn : Option (Bytes × Sockaddr) → Option Bytes → Server → Server × List Output
turn none none s = (s, [])
turn none (some packet) s = on_tun packet s
turn (some (packet, sender)) none s =
    let (goes_on, s', out) = on_socket packet sender s in (s', out)
turn (some (packet, sender)) (some other) s =
    let (goes_on, s', out) = on_socket packet sender s in
    elim goes_on [
      | true ↦ (s', out)
      | false ↦ let (s'', out') = on_tun other s' in (s'', out ++ out')
    ]

-- What `tunvpn_client` keeps.
pub record Client : Type 0 where
  pub virtual_ip : ℕ
  pub addr : Sockaddr
  pub buffer : Bytes

unfoldable pub client_on_socket : Bytes → Client → Client × List Output
client_on_socket packet c =
    let c₁ = record c { buffer = receive packet c.buffer } in
    if daddr c₁.buffer == c.virtual_ip
    then (c₁, to_tun (take (received packet) c₁.buffer) ∷ [])
    else (c₁, [])

unfoldable pub client_on_tun : Bytes → Client → Client × List Output
client_on_tun packet c =
    let c₁ = record c { buffer = receive packet c.buffer } in
    (c₁, to_socket (take (received packet) c₁.buffer) c.addr ∷ [])

-- The request of `tunvpn_client`, and what it keeps of the answer.
abbrev pub config_request : Bytes
config_request = bytes_of 0

abbrev pub configured : Bytes → Sockaddr → Client
configured answer server = record {
  virtual_ip = word_at 0 answer;
  addr = server;
  buffer = replicate buf_size 0;
}

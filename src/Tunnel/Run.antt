-- ===== src/Tunnel/Run.antt =====
-- The server of lab8/lab_tun/dist/tunvpn.pub.cpp over its turns.
use inp.Common.{
  ℕ, ◌+◌, ◌^◌, ◌<◌, ◌≡◌, refl, ap, subst, ◌&&◌, List, [], ◌∷◌, ◌++◌, Option, none, some, arith,
  ◌==◌, if◌then◌else◌, length, length-take, length-append, Bool-cases, Option-cases, inl, inr,
}
use inp.Common.Bytes.{Bytes}
use inp.Common.Maps.{lookup}
use inp.Tunnel.{
  Sockaddr, Server, buf_size, word_at, daddr, htonl, my_addr, received, receive, on_socket, on_tun,
  turn, start,
}
use inp.Tunnel.Buffer.{word_at-receive}
use inp.Tunnel.Table.{Serves, assign-Serves}

-- What `select` finds in a turn.
abbrev pub Found : Type 0
Found = Option (Bytes × Sockaddr) × Option Bytes

-- The server over turns.
unfoldable pub run : List Found → Server → Server
run [] s = s
run ((socket, tun) ∷ rest) s = run rest (turn socket tun s).0

-- Who asks for an address: a datagram of four zero bytes does.
unfoldable pub asker : Bytes → Sockaddr → List Sockaddr
asker packet sender = if received packet == 4 && word_at 0 packet == 0 then sender ∷ [] else []

unfoldable pub askers : List Found → List Sockaddr
unfolding asker
askers [] = []
askers ((none, tun) ∷ rest) = askers rest
askers ((some (packet, sender), tun) ∷ rest) = asker packet sender ++ askers rest

fits : (packet : Bytes) → received packet ≡ 4 → length packet ≡ 4
fits packet h = omega (arith, length-take buf_size packet)

moved :
    (had : List Sockaddr) (s : Server) (b : Bytes)
    → Serves had s
    → Serves had (record s { buffer = b })
moved had s b v = record { num = v.num; each = v.each; only = v.only }

append-none : (xs : List Sockaddr) → xs ++ [] ≡ xs
append-none [] = refl
append-none (x ∷ xs) = ap (λ t. x ∷ t) (append-none xs)

on_tun-Serves :
    (had : List Sockaddr) (packet : Bytes) (s : Server)
    → Serves had s
    → Serves had (on_tun packet s).0
unfolding on_tun
on_tun-Serves had packet s v = moved had s (receive packet s.buffer) v

-- A datagram that asks, and one that does not.
on_socket-Serves :
    (had : List Sockaddr) (packet : Bytes) (sender : Sockaddr) (s : Server)
    → length had + 1 < 2 ^ 31
    → Serves had s
    → Serves (had ++ asker packet sender) (on_socket packet sender s).1
unfolding on_socket asker
on_socket-Serves had packet sender s small v =
    let v₁ = moved had s (receive packet s.buffer) v in
    elim (Bool-cases (received packet == 4)) [
      | inl four ↦
          let same = word_at-receive packet s.buffer (fits packet (ground arith)) in
          elim (Bool-cases (word_at 0 packet == 0)) [
            | inl asks ↦
                rw (four, same, asks)
                  (assign-Serves had sender (record s { buffer = receive packet s.buffer }) small
                    v₁)
            | inr other ↦ rw (four, same, other, append-none had) v₁
          ]
      | inr long ↦ elim (Bool-cases (daddr (receive packet s.buffer) == htonl my_addr)) [
        | inl here ↦ rw (long, here, append-none had) v₁
        | inr there ↦ elim (Option-cases (lookup (daddr (receive packet s.buffer)) s.client_addr)) [
          | inl e ↦ rw (long, there, e, append-none had) v₁
          | inr (client, e) ↦ rw (long, there, e, append-none had) v₁
        ]
      ]
    ]

turn_asker : Option (Bytes × Sockaddr) → List Sockaddr
turn_asker none = []
turn_asker (some (packet, sender)) = asker packet sender

turn-Serves :
    (had : List Sockaddr) (socket : Option (Bytes × Sockaddr)) (tun : Option Bytes) (s : Server)
    → length had + 1 < 2 ^ 31
    → Serves had s
    → Serves (had ++ turn_asker socket) (turn socket tun s).0
unfolding turn turn_asker
turn-Serves had none none s small v = rw (append-none had) v
turn-Serves had none (some packet) s small v = rw (append-none had) (on_tun-Serves had packet s v)
turn-Serves had (some (packet, sender)) none s small v =
    on_socket-Serves had packet sender s small v
turn-Serves had (some (packet, sender)) (some other) s small v =
    let v₁ = on_socket-Serves had packet sender s small v in
    elim (Bool-cases (on_socket packet sender s).0) [
      | inl goes_on ↦ rw (goes_on, turn) v₁
      | inr ends ↦
          rw (ends, turn)
            (on_tun-Serves (had ++ asker packet sender) other (on_socket packet sender s).1 v₁)
    ]

append_assoc : (xs ys zs : List Sockaddr) → (xs ++ ys) ++ zs ≡ xs ++ (ys ++ zs)
append_assoc [] ys zs = refl
append_assoc (x ∷ xs) ys zs = ap (λ t. x ∷ t) (append_assoc xs ys zs)

run-Serves :
    (found : List Found) (had : List Sockaddr) (s : Server)
    → length had + length (askers found) + 1 < 2 ^ 31
    → Serves had s
    → Serves (had ++ askers found) (run found s)
unfolding run askers turn_asker
run-Serves [] had s small v = rw (append-none had) v
run-Serves ((none, tun) ∷ rest) had s small v = run-Serves rest had (turn none tun s).0 small (
    subst (λ t. Serves t (turn none tun s).0) (append-none had)
      (turn-Serves had none tun s (omega arith) v))
run-Serves ((some (packet, sender), tun) ∷ rest) had s small v =
    let sum = length-append had (asker packet sender) in
    let sum' = length-append (asker packet sender) (askers rest) in
    rw (← append_assoc had (asker packet sender) (askers rest)) (
      run-Serves rest (had ++ asker packet sender) (turn (some (packet, sender)) tun s).0
        (omega arith) (turn-Serves had (some (packet, sender)) tun s (omega arith) v))

no_client : (k : ℕ) (a : Sockaddr) → lookup k [] ≡ some a → ⊥
unfolding lookup
no_client k a h = ground arith

-- After any turns from the start with fewer than 2 ^ 31 requests, the table has one address for each
-- request, the next one each time, it leads from that address to who asked, and it has no other
-- address.
pub start-Serves :
    (found : List Found)
    → length (askers found) + 1 < 2 ^ 31
    → Serves (askers found) (run found start)
start-Serves found small = run-Serves found [] start (omega arith) (record {
  num = refl;
  each = λ j a h. absurd (ground arith);
  only = λ k a h. absurd (no_client k a h);
})

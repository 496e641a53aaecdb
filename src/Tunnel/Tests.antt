-- ===== src/Tunnel/Tests.antt =====
-- Runs of lab8/lab_tun/dist/tunvpn.pub.cpp with two clients.
use inp.Common.{
  ℕ, zero, suc, ◌+◌, ◌^◌, ◌<◌, ◌≡◌, ◌≢◌, refl, List, [], ◌∷◌, ◌++◌, none, some, arith, get_elem?,
  length, replicate,
}
use inp.Common.Bytes.{Bytes}
use inp.Common.Maps.{lookup, insert}
use inp.Tunnel.{
  Sockaddr, Server, Client, to_socket, to_tun, bytes_of, daddr, htonl, my_addr, receive, next_ip,
  assign, forward, on_socket, on_tun, turn, start, config_request, client_on_socket, client_on_tun,
}
use inp.Tunnel.Address.{ip_of}
use inp.Tunnel.Table.{Serves}
use inp.Tunnel.Run.{Found, run, asker, askers, start-Serves}
use inp.Tunnel.Route.{on_tun-delivers, on_socket-delivers, on_socket-stale}

open_all : ℕ
unfolding htonl daddr receive forward next_ip assign on_socket on_tun turn client_on_socket
    client_on_tun run asker askers lookup insert
open_all = 0

abbrev alice : Sockaddr
alice = record { host = 1; port = 9001 }

abbrev bob : Sockaddr
bob = record { host = 2; port = 9002 }

abbrev joined : List Found
joined = (some (config_request, alice), none) ∷ (some (config_request, bob), none) ∷ []

-- An IP header for an address, and two bytes.
abbrev packet_for : ℕ → Bytes
packet_for ip = replicate 16 9 ++ bytes_of ip ++ 7 ∷ 8 ∷ []

abbrev to_bob : Bytes
to_bob = packet_for 0x0b00000a

abbrev bob_client : Client
bob_client = record { virtual_ip = 0x0b00000a; addr = alice; buffer = [] }

few : length (askers joined) + 1 < 2 ^ 31
unfolding open_all
few = omega arith

start-Serves_example : Serves (askers joined) (run joined start)
start-Serves_example = start-Serves joined few

bob_asked : get_elem? (askers joined) 1 ≡ some bob
unfolding open_all
bob_asked = refl

for_bob : daddr to_bob ≡ ip_of 1
unfolding open_all
for_bob = refl

bob_address : 0x0b00000a ≡ ip_of 1
unfolding open_all
bob_address = refl

on_tun-delivers_example :
    ((on_tun to_bob (run joined start)).1 ≡ to_socket to_bob bob ∷ [])
    × ((client_on_socket to_bob bob_client).1 ≡ to_tun to_bob ∷ [])
on_tun-delivers_example =
    on_tun-delivers joined few 1 bob bob_asked to_bob (omega arith, omega arith) for_bob bob_client
      bob_address

on_socket-delivers_example :
    ((on_socket to_bob alice (run joined start)).2 ≡ to_socket to_bob bob ∷ [])
    × ((client_on_socket to_bob bob_client).1 ≡ to_tun to_bob ∷ [])
on_socket-delivers_example =
    on_socket-delivers joined few 1 bob bob_asked to_bob (omega arith, omega arith) for_bob alice
      bob_client (omega arith) (omega arith) bob_address

abbrev to_server : Bytes
to_server = packet_for 0xfe00000a

for_server : daddr to_server ≡ htonl my_addr
unfolding open_all
for_server = refl

abbrev astray : Bytes
astray = packet_for 0x0c00000a

not_server : daddr astray ≢ htonl my_addr
unfolding open_all
not_server = λ e. absurd (omega arith)

not_client : (j : ℕ) → j < length (askers joined) → daddr astray ≢ ip_of j
unfolding open_all
not_client zero h = λ e. absurd (omega arith)
not_client (suc zero) h = λ e. absurd (omega arith)
not_client (suc (suc j)) h = absurd (omega arith)

-- The server after a packet for bob.
abbrev used : Server
used = record { client_addr = (0x0b00000a, bob) ∷ []; client_num = 2; buffer = to_bob }

used_buffer : daddr used.buffer ≢ htonl my_addr
unfolding open_all
used_buffer = λ e. absurd (omega arith)

used_entry : lookup (daddr used.buffer) used.client_addr ≡ some bob
unfolding open_all
used_entry = refl

on_socket-stale_example : (on_socket (1 ∷ 2 ∷ []) alice used).2 ≡ to_socket (1 ∷ 2 ∷ []) bob ∷ []
on_socket-stale_example =
    on_socket-stale (1 ∷ 2 ∷ []) alice bob used (omega arith) (omega arith) used_buffer used_entry

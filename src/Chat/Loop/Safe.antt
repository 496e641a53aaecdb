-- ===== src/Chat/Loop/Safe.antt =====
-- The invariant of homework2/hw2_chat_server.cpp, over every round of its main loop.
use mathlib.Core.Path.{subst₂}
use inp.Common.{
  ℕ, zero, suc, ◌+◌, ◌≤◌, ◌<◌, ◌≡◌, refl, ◌⊎◌, sym, subst, inl, inr, true, false, List, ◌∷◌, Option,
  none, some, arith, ◌==◌, get_or, contains, remove, Bool-cases,
}
use inp.Chat.Result.{Result, ok, err, uncaught, null_pointer, no_end, ◌>>=◌}
use inp.Common.Text.{tokenize}
use inp.Chat.State.{Server}
use inp.Chat.Account.{add_socket, free_slot}
use inp.Chat.Message.{pop_back}
use inp.Chat.Dispatch.{Outcome, handle_command}
use inp.Chat.Invariant.{Inv, new_server-Inv}
use inp.Chat.Invariant.Dispatch.{Safe, Kept, Aborts, handle_command-Safe, remove_socket-Inv}
use inp.Chat.Loop.{
  Host, new_host, readfds, max_socket, take_slot, greet, settle, add_client, accept_client,
  accept_if, Read, closed, failed, received, serve_socket, serve_if, serve_slot, serve_slots, turn,
}
use inp.Chat.Loop.Slots.{
  Wired, free_slot-Wired, set-free_slot, take_slot-Wired, replicate-Wired, watched-le,
}

-- The server's invariant, and the table and the set that agree.
pub record HostInv (h : Host) : Type 0 where
  pub server : Inv h.server
  pub wired : Wired h.client_socket h.server.master_set

abbrev pub HostSafe : Result Host → Type 0
HostSafe (ok h) = HostInv h
HostSafe (err uncaught) = Unit
HostSafe (err null_pointer) = ⊥
HostSafe (err no_end) = ⊥

add_socket-Inv : (s : Server) (fd : ℕ) → Inv s → Inv (add_socket s fd)
add_socket-Inv s fd v = record {
  allocated = v.allocated;
  named = v.named;
  session = v.session;
  single = v.single;
  owned = v.owned;
  seated = v.seated;
  listed = v.listed;
  tidy = v.tidy;
}

-- What the system promises of `accept`: a descriptor that is not open, and not 0.
abbrev pub IsFresh : Host → Option ℕ → Type 0
IsFresh h none = Unit
IsFresh h (some fd) = (0 < fd) × (contains fd h.client_socket ≡ false)

accept_client-HostInv :
    (h : Host) (fd : ℕ) → HostInv h → IsFresh h (some fd) → HostInv (accept_client h fd)
unfolding accept_client
accept_client-HostInv h fd i (p, new) = go (take_slot fd h.client_socket) refl
  where
    go :
        (o : Option (List ℕ))
        → take_slot fd h.client_socket ≡ o
        → HostInv (add_client (greet h fd) fd o)
    go none e = record { server = i.server; wired = i.wired }
    go (some table) e = record {
      server = add_socket-Inv h.server fd i.server;
      wired = take_slot-Wired fd h.client_socket h.server.master_set table p new i.wired e;
    }

accept_if-HostInv : (h : Host) (o : Option ℕ) → HostInv h → IsFresh h o → HostInv (accept_if h o)
accept_if-HostInv h none i f = i
accept_if-HostInv h (some fd) i f = accept_client-HostInv h fd i f

Kept-Wired :
    (s : Server) (fd : ℕ) (table : List ℕ) (out : Outcome)
    → 0 < fd
    → Wired table s.master_set
    → Kept s fd table out
    → Wired out.client_socket_list out.server.master_set
Kept-Wired s fd table out p w k = go k.sockets
  where
    go :
        ((out.client_socket_list ≡ table) × (out.server.master_set ≡ s.master_set))
          ⊎ ((out.client_socket_list ≡ free_slot fd table)
              × (out.server.master_set ≡ remove fd s.master_set))
        → Wired out.client_socket_list out.server.master_set
    go (inl (t, m)) = subst₂ Wired (sym t) (sym m) w
    go (inr (t, m)) = subst₂ Wired (sym t) (sym m) (free_slot-Wired fd table s.master_set p w)

settle-HostSafe :
    (X : Type 0) (h : Host) (sd : ℕ) (m : Result Outcome)
    → 0 < sd
    → HostInv h
    → Safe X h.server sd h.client_socket m
    → HostSafe (settle h m)
settle-HostSafe X h sd (ok out) p i (v, k) = record {
  server = v;
  wired = Kept-Wired h.server sd h.client_socket out p i.wired k;
}
settle-HostSafe X h sd (err uncaught) p i g = tt
settle-HostSafe X h sd (err null_pointer) p i g = elim g [ ]
settle-HostSafe X h sd (err no_end) p i g = elim g [ ]

serve_socket-HostSafe :
    (h : Host) (i sd : ℕ) (r : Read)
    → 0 < sd
    → get_or h.client_socket i 0 ≡ sd
    → HostInv h
    → HostSafe (serve_socket h i sd r)
unfolding serve_socket
serve_socket-HostSafe h i sd closed p e v = record {
  server = remove_socket-Inv h.server sd v.server;
  wired =
      rw (set-free_slot h.client_socket i sd e p v.wired.once)
        (free_slot-Wired sd h.client_socket h.server.master_set p v.wired);
}
serve_socket-HostSafe h i sd failed p e v = v
serve_socket-HostSafe h i sd (received byte bytes) p e v =
    settle-HostSafe (Aborts h.server sd (tokenize (pop_back (byte ∷ bytes)))) h sd
      (handle_command h.server sd (pop_back (byte ∷ bytes)) h.client_socket) p v
      (handle_command-Safe h.server sd (pop_back (byte ∷ bytes)) h.client_socket v.server)

serve_slot-HostSafe :
    (h : Host) (i : ℕ) (ready : ℕ → Option Read) → HostInv h → HostSafe (serve_slot h i ready)
unfolding serve_slot
serve_slot-HostSafe h i ready v = elim (Bool-cases (get_or h.client_socket i 0 == 0)) [
  | inl e ↦ rw e v
  | inr e ↦ rw e (go (ready (get_or h.client_socket i 0)) (ground arith))
]
  where
    go :
        (o : Option Read)
        → 0 < get_or h.client_socket i 0
        → HostSafe (serve_if h i (get_or h.client_socket i 0) o)
    go none p = v
    go (some r) p = serve_socket-HostSafe h i (get_or h.client_socket i 0) r p refl v

>>=-HostSafe :
    (m : Result Host) (f : Host → Result Host)
    → HostSafe m
    → ((h : Host) → HostInv h → HostSafe (f h))
    → HostSafe (m >>= f)
>>=-HostSafe (ok h) f g k = k h g
>>=-HostSafe (err uncaught) f g k = tt
>>=-HostSafe (err null_pointer) f g k = elim g [ ]
>>=-HostSafe (err no_end) f g k = elim g [ ]

serve_slots-HostSafe :
    (left i : ℕ) (ready : ℕ → Option Read) (h : Host)
    → HostInv h
    → HostSafe (serve_slots left i ready h)
unfolding serve_slots
serve_slots-HostSafe zero i ready h v = v
serve_slots-HostSafe (suc left) i ready h v =
    >>=-HostSafe (serve_slot h i ready) (serve_slots left (i + 1) ready)
      (serve_slot-HostSafe h i ready v) (serve_slots-HostSafe left (i + 1) ready)

turn-HostSafe :
    (size : ℕ) (h : Host) (accepted : Option ℕ) (ready : ℕ → Option Read)
    → HostInv h
    → IsFresh h accepted
    → HostSafe (turn size h accepted ready)
unfolding turn
turn-HostSafe size h accepted ready v f =
    serve_slots-HostSafe size 0 ready (accept_if h accepted) (accept_if-HostInv h accepted v f)

-- The hosts that rounds of the main loop lead to, whatever the clients send.
pub data Reach (size : ℕ) : Host → Type 0 where
  start : Reach size (new_host size)
  round :
      {h h' : Host} (accepted : Option ℕ) (ready : ℕ → Option Read)
      → Reach size h
      → IsFresh h accepted
      → turn size h accepted ready ≡ ok h'
      → Reach size h'

pub Reach-HostInv : {size : ℕ} {h : Host} → Reach size h → HostInv h
Reach-HostInv {size} start = record { server = new_server-Inv; wired = replicate-Wired size }
Reach-HostInv {size} (round {h = h} {h' = h'} accepted ready r f e) =
    subst HostSafe e (turn-HostSafe size h accepted ready (Reach-HostInv r) f)

-- After any rounds from the start, with any reads, where `accept` gives descriptors that are not
-- open and not 0: the next round keeps the server's invariant and the agreement of the table with
-- the set of sockets, or ends in an uncaught exception, never in a null pointer or an endless loop.
pub Reach-turn_safe :
    (size : ℕ) (h : Host) (accepted : Option ℕ) (ready : ℕ → Option Read)
    → Reach size h
    → IsFresh h accepted
    → HostSafe (turn size h accepted ready)
Reach-turn_safe size h accepted ready r f = turn-HostSafe size h accepted ready (Reach-HostInv r) f

-- After any rounds, `select` is told a number above which it has no socket to watch.
pub Reach-watched_le :
    (size : ℕ) (h : Host) (server_fd fd : ℕ)
    → Reach size h
    → contains fd (readfds h server_fd) ≡ true
    → fd ≤ max_socket h server_fd
unfolding readfds max_socket
Reach-watched_le size h server_fd fd r c =
    watched-le server_fd fd h.client_socket h.server.master_set (Reach-HostInv r).wired c

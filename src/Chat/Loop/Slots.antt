-- ===== src/Chat/Loop/Slots.antt =====
-- The table of sockets of homework2/hw2_chat_server.cpp beside the set that the server keeps.
use mathlib.Core.Option
use inp.Common.{
  ℕ, zero, suc, ◌≤◌, ◌<◌, ◌≡◌, refl, subst, ◌⊎◌, inl, inr, true, false, ◌||◌, List, [], ◌∷◌, ◌++◌,
  Option, none, some, arith, ◌==◌, ltb, if◌then◌else◌, get_or, set, contains, contains-append,
  remove, contains-remove, replicate,
}
use inp.Chat.Account.{free_slot}
use inp.Chat.Loop.{take_slot, sockets, highest}

-- No socket stands in two entries; 0 is a free entry.
abbrev pub IsOnce : List ℕ → Type 0
IsOnce [] = Unit
IsOnce (x ∷ xs) = ((x ≡ 0) ⊎ (contains x xs ≡ false)) × IsOnce xs

-- The table's sockets are those of the set.
pub record Wired (table master : List ℕ) : Type 0 where
  pub once : IsOnce table
  pub same : (fd : ℕ) → 0 < fd → contains fd table ≡ contains fd master
  pub zero_free : contains 0 master ≡ false

contains-free_slot :
    (fd g : ℕ) (xs : List ℕ)
    → 0 < fd
    → 0 < g
    → IsOnce xs
    → contains g (free_slot fd xs) ≡ (if fd == g then false else contains g xs)
unfolding free_slot
contains-free_slot fd g [] p q h = ground arith
contains-free_slot fd g (x ∷ xs) p q (inl e, h) = ground (arith, contains-free_slot fd g xs p q h)
contains-free_slot fd g (x ∷ xs) p q (inr e, h) = ground (arith, contains-free_slot fd g xs p q h)

free_slot-IsOnce : (fd : ℕ) (xs : List ℕ) → 0 < fd → IsOnce xs → IsOnce (free_slot fd xs)
unfolding free_slot
free_slot-IsOnce fd [] p h = tt
free_slot-IsOnce fd (zero ∷ xs) p (_, h) = ground (arith, free_slot-IsOnce fd xs p h)
free_slot-IsOnce fd (suc x ∷ xs) p (inl e, h) = absurd (omega arith)
free_slot-IsOnce fd (suc x ∷ xs) p (inr e, h) =
    ground (arith, free_slot-IsOnce fd xs p h, contains-free_slot fd (suc x) xs p (omega arith) h)

pub free_slot-Wired :
    (fd : ℕ) (table master : List ℕ)
    → 0 < fd
    → Wired table master
    → Wired (free_slot fd table) (remove fd master)
free_slot-Wired fd table master p w = record {
  once = free_slot-IsOnce fd table p w.once;
  same = λ g q.
      ground
        (arith, contains-free_slot fd g table p q w.once, contains-remove g fd master, w.same g q);
  zero_free = ground (arith, contains-remove 0 fd master, w.zero_free);
}

contains-get_or : (xs : List ℕ) (i sd : ℕ) → get_or xs i 0 ≡ sd → 0 < sd → contains sd xs ≡ true
contains-get_or [] i sd e p = absurd (omega arith)
contains-get_or (x ∷ xs) zero sd e p = ground arith
contains-get_or (x ∷ xs) (suc i) sd e p = ground (arith, contains-get_or xs i sd e p)

-- The entry that is set to 0 is the first one with the socket.
pub set-free_slot :
    (xs : List ℕ) (i sd : ℕ)
    → get_or xs i 0 ≡ sd
    → 0 < sd
    → IsOnce xs
    → set xs i 0 ≡ free_slot sd xs
unfolding free_slot
set-free_slot [] i sd e p h = refl
set-free_slot (x ∷ xs) zero sd e p h = ground arith
set-free_slot (x ∷ xs) (suc i) sd e p h =
    ground (arith, set-free_slot xs i sd e p h.1, contains-get_or xs i sd e p)

-- What `take_slot` gives: the table as it is, with the socket in a free entry.
abbrev Taken : ℕ → List ℕ → Option (List ℕ) → Type 0
Taken fd xs none = Unit
Taken fd xs (some ys) = ((g : ℕ) → 0 < g → contains g ys ≡ (g == fd || contains g xs)) × IsOnce ys

Taken-cons :
    (fd x : ℕ) (xs : List ℕ) (o : Option (List ℕ))
    → contains fd (x ∷ xs) ≡ false
    → IsOnce (x ∷ xs)
    → 0 < x
    → Taken fd xs o
    → Taken fd (x ∷ xs) (Option.map (◌∷◌ x) o)
Taken-cons fd x xs none new h p t = tt
Taken-cons fd x xs (some ys) new (inl e, h) p (cs, once) = absurd (omega arith)
Taken-cons fd x xs (some ys) new (inr e, h) p (cs, once) =
    (λ g q. ground (arith, cs g q), (inr (ground (arith, cs x p)), once))

take_slot-Taken :
    (fd : ℕ) (xs : List ℕ)
    → 0 < fd
    → contains fd xs ≡ false
    → IsOnce xs
    → Taken fd xs (take_slot fd xs)
unfolding take_slot
take_slot-Taken fd [] p new h = tt
take_slot-Taken fd (zero ∷ xs) p new (_, h) = (λ g q. ground arith, (inr (ground arith), h))
take_slot-Taken fd (suc x ∷ xs) p new h =
    let full : (suc x == 0) ≡ false = ground arith in
    rw (full, take_slot)
      (Taken-cons fd (suc x) xs (take_slot fd xs) new h (omega arith)
        (take_slot-Taken fd xs p (ground arith) h.1))

pub take_slot-Wired :
    (fd : ℕ) (table master ys : List ℕ)
    → 0 < fd
    → contains fd table ≡ false
    → Wired table master
    → take_slot fd table ≡ some ys
    → Wired ys (fd ∷ master)
take_slot-Wired fd table master ys p new w e =
    let t : Taken fd table (some ys) =
      subst (Taken fd table) e (take_slot-Taken fd table p new w.once) in
    record {
      once = t.1;
      same = λ g q. ground (arith, t.0 g q, w.same g q);
      zero_free = ground (arith, w.zero_free);
    }

pub replicate-Wired : (n : ℕ) → Wired (replicate n 0) []
replicate-Wired n = record { once = once n; same = λ fd p. none_in n fd p; zero_free = refl }
  where
    once : (n : ℕ) → IsOnce (replicate n 0)
    once zero = tt
    once (suc n) = (inl refl, once n)

    none_in : (n fd : ℕ) → 0 < fd → contains fd (replicate n 0) ≡ contains fd []
    none_in zero fd p = refl
    none_in (suc n) fd p = ground (arith, none_in n fd p)

le-highest : (m : ℕ) (xs : List ℕ) → m ≤ highest m xs
unfolding highest
le-highest m [] = omega arith
le-highest m (x ∷ xs) = ground (arith, le-highest (if ltb m x then x else m) xs)

contains-le-highest : (m fd : ℕ) (xs : List ℕ) → contains fd xs ≡ true → fd ≤ highest m xs
unfolding highest
contains-le-highest m fd [] h = absurd (ground arith)
contains-le-highest m fd (x ∷ xs) h =
    let top : ℕ = if ltb m x then x else m in
    ground (arith, le-highest top xs, contains-le-highest top fd xs)

contains-sockets : (fd : ℕ) (xs : List ℕ) → contains fd (sockets xs) ≡ true → contains fd xs ≡ true
unfolding sockets
contains-sockets fd [] h = h
contains-sockets fd (x ∷ xs) h = ground (arith, contains-sockets fd xs)

-- Of the sockets in the table, the listening socket and the set, none is above the number that
-- `select` is told.
pub watched-le :
    (server_fd fd : ℕ) (table master : List ℕ)
    → Wired table master
    → contains fd (sockets table ++ (server_fd ∷ master)) ≡ true
    → fd ≤ highest server_fd table
watched-le server_fd zero table master w h = omega arith
watched-le server_fd (suc fd) table master w h = ground (
  arith,
  contains-append (suc fd) (sockets table) (server_fd ∷ master),
  contains-sockets (suc fd) table,
  contains-le-highest server_fd (suc fd) table,
  le-highest server_fd table,
  w.same (suc fd),
)

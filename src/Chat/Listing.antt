-- ===== src/Chat/Listing.antt =====
-- The lists that the chat server shows: users in the order of their names, the latest messages.
use Prim.Native.Nat.{min}
use mathlib.Core.List.{Perm}
use mathlib.Core.List.Perm
use inp.Common.{
  ℕ, ◌-◌, ◌≡◌, refl, sym, true, false, List, [], ◌∷◌, ◌++◌, some, arith, All, All-map, Bool-cases,
  inl, inr, length, take, length-drop, take-append-drop,
}
use inp.Common.Maps.{lookup}
use inp.Common.Bytes.{Bytes}
use inp.Chat.Result.{ok, >>=-eq-ok}
use inp.Common.Text.{bytes_lt}
use inp.Chat.State.{User, ChatRecord, Server, reply, is_logged_in, client_at, ChatRoom}
use inp.Chat.Account.{insert_user, sort_users, show_users, list_user}
use inp.Chat.Room.{latest, list_user_in_chat_room, users_of}
use inp.Chat.Invariant.{Inv}
use inp.Chat.Invariant.Room.{room_at-some, touch_room-some}
use inp.Chat.Invariant.Message.{room_users}

bytes_lt_asym : (xs ys : Bytes) → bytes_lt xs ys ≡ true → bytes_lt ys xs ≡ false
unfolding bytes_lt
bytes_lt_asym [] [] h = refl
bytes_lt_asym [] (y ∷ ys) h = refl
bytes_lt_asym (x ∷ xs) [] h = absurd (ground arith)
bytes_lt_asym (x ∷ xs) (y ∷ ys) h = ground (arith, bytes_lt_asym xs ys)

bytes_lt_step :
    (xs ys zs : Bytes) → bytes_lt xs ys ≡ false → bytes_lt ys zs ≡ false → bytes_lt xs zs ≡ false
unfolding bytes_lt
bytes_lt_step xs ys [] h k = ground arith
bytes_lt_step xs [] (z ∷ zs) h k = absurd (ground arith)
bytes_lt_step [] (y ∷ ys) (z ∷ zs) h k = absurd (ground arith)
bytes_lt_step (x ∷ xs) (y ∷ ys) (z ∷ zs) h k = ground (arith, bytes_lt_step xs ys zs)

module _ (heap : ℕ → User) where
  -- No user stands behind one whose name comes later.
  abbrev pub IsSorted : List ℕ → Type 0
  IsSorted [] = Unit
  IsSorted (p ∷ ps) =
      All (λ q. bytes_lt (heap q).username (heap p).username ≡ false) ps × IsSorted ps

  insert_user-All :
      (P : ℕ → Type 0) (p : ℕ) (ps : List ℕ) → P p → All P ps → All P (insert_user heap p ps)
  unfolding insert_user
  insert_user-All P p [] h k = (h, tt)
  insert_user-All P p (q ∷ qs) h k =
      elim (Bool-cases (bytes_lt (heap q).username (heap p).username)) [
        | inl e ↦ rw e (k.0, insert_user-All P p qs h k.1)
        | inr e ↦ rw e (h, k)
      ]

  insert_user-IsSorted : (p : ℕ) (ps : List ℕ) → IsSorted ps → IsSorted (insert_user heap p ps)
  unfolding insert_user
  insert_user-IsSorted p [] s = (tt, tt)
  insert_user-IsSorted p (q ∷ qs) s =
      elim (Bool-cases (bytes_lt (heap q).username (heap p).username)) [
        | inl e ↦ rw e (
          insert_user-All (λ r. bytes_lt (heap r).username (heap q).username ≡ false) p qs
              (bytes_lt_asym (heap q).username (heap p).username e) s.0,
          insert_user-IsSorted p qs s.1,
        )
        | inr e ↦ rw e (
          (
            e,
            All-map (λ r. bytes_lt (heap r).username (heap q).username ≡ false)
                (λ r. bytes_lt (heap r).username (heap p).username ≡ false) qs
                (λ r h. bytes_lt_step (heap r).username (heap q).username (heap p).username h e)
                s.0,
          ),
          s,
        )
      ]

  pub sort_users-IsSorted : (ps : List ℕ) → IsSorted (sort_users heap ps)
  unfolding sort_users
  sort_users-IsSorted [] = tt
  sort_users-IsSorted (p ∷ ps) =
      insert_user-IsSorted p (sort_users heap ps) (sort_users-IsSorted ps)

  insert_user-perm : (p : ℕ) (ps : List ℕ) → Perm (insert_user heap p ps) (p ∷ ps)
  unfolding insert_user
  insert_user-perm p [] = Perm.refl (p ∷ [])
  insert_user-perm p (q ∷ qs) = elim (Bool-cases (bytes_lt (heap q).username (heap p).username)) [
    | inl e ↦ rw e (Perm.trans (Perm.cons q (insert_user-perm p qs)) (Perm.swap p q qs))
    | inr e ↦ rw e (Perm.refl (p ∷ q ∷ qs))
  ]

  pub sort_users-perm : (ps : List ℕ) → Perm (sort_users heap ps) ps
  unfolding sort_users
  sort_users-perm [] = Perm.refl []
  sort_users-perm (p ∷ ps) =
      Perm.trans (insert_user-perm p (sort_users heap ps)) (Perm.cons p (sort_users-perm ps))

-- `list-user` of a logged-in client shows each registered user once, in the order of the names, and
-- leaves the registered users in that order.
pub list_user_lem :
    (s : Server) (fd : ℕ) (cmd : Bytes)
    → is_logged_in s fd ≡ true
    → (ps : List ℕ) × (list_user s (cmd ∷ []) fd
        ≡ reply (record s { registered_user = ps }) (show_users s.heap ps))
      × Perm ps s.registered_user
      × IsSorted s.heap ps
unfolding list_user
list_user_lem s fd cmd on = (
  sort_users s.heap s.registered_user,
  rw on,
  sort_users-perm s.heap s.registered_user,
  sort_users-IsSorted s.heap s.registered_user,
)

-- The users behind sockets, in their order.
abbrev pub Users : Server → List ℕ → List ℕ → Type 0
Users s [] [] = Unit
Users s [] (p ∷ ps) = ⊥
Users s (c ∷ cs) [] = ⊥
Users s (c ∷ cs) (p ∷ ps) = (lookup c s.clients ≡ some p) × Users s cs ps

client_at-some : (s : Server) (fd p : ℕ) → client_at s fd ≡ ok p → lookup fd s.clients ≡ some p
unfolding client_at
client_at-some s fd p h = ground arith

users_of-Users : (s : Server) (cs ps : List ℕ) → users_of s cs ≡ ok ps → Users s cs ps
unfolding users_of
users_of-Users s [] [] h = tt
users_of-Users s [] (p ∷ ps) h = absurd (ground arith)
users_of-Users s (c ∷ cs) ps h =
    let (p, at, rest) = >>=-eq-ok (client_at s c) _ ps h in
    let (qs, later, e) = >>=-eq-ok (users_of s cs) _ ps rest in
    let same : ps ≡ p ∷ qs = ground arith in
    rw same (client_at-some s c p at, users_of-Users s cs qs later)

-- `/list-user` of a client in a chat room shows the users behind the room's sockets, each once, in the order
-- of the names, and changes nothing.
pub list_user_in_chat_room_lem :
    (s : Server) (fd n : ℕ) (cmd : Bytes)
    → Inv s
    → is_logged_in s fd ≡ true
    → lookup fd s.client_in_chat_room ≡ some n
    → (room : ChatRoom) × (ps : List ℕ) × (qs : List ℕ) × (lookup n s.chat_rooms ≡ some room)
      × Users s room.clients ps
      × Perm qs ps
      × IsSorted s.heap qs
      × (list_user_in_chat_room s (cmd ∷ []) fd ≡ reply s (show_users s.heap qs))
unfolding list_user_in_chat_room
list_user_in_chat_room_lem s fd n cmd v on inside =
    let (_, room, _, at, _) = v.seated fd n inside in
    let (ps, e) = room_users s n room v at in
    (
      room,
      ps,
      sort_users s.heap ps,
      at,
      users_of-Users s room.clients ps e,
      sort_users-perm s.heap ps,
      sort_users-IsSorted s.heap ps,
      rw (on, inside, room_at-some s n room at, e, touch_room-some s n room at),
    )

-- What is shown of a history is its end, of ten records or of all.
pub latest_lem :
    (history : List ChatRecord)
    → (older : List ChatRecord) × (history ≡ older ++ latest history)
      × (length (latest history) ≡ min 10 (length history))
unfolding latest
latest_lem history = (
  take (length history - 10) history,
  sym (take-append-drop (length history - 10) history),
  omega (arith, length-drop (length history - 10) history),
)

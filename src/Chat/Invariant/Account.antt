-- ===== src/Chat/Invariant/Account.antt =====
-- The invariant under the changes that the handlers of accounts and sessions make.
use inp.Common.{
  ℕ, ◌≡◌, refl, ◌⊎◌, inl, inr, true, false, ◌||◌, List, [], ◌∷◌, none, some, contains,
  contains-append, arith, ◌==◌, Bool-cases,
}
use inp.Common.Maps.{lookup, insert, lookup-insert, lookup-erase}
use inp.Common.Bytes
use inp.Common.Bytes.{Bytes, member, bytes_eq, bytes_eq_iff, member-insert, member-erase, text}
use inp.Chat.State.{User, Server}
use inp.Chat.Account.{
  is_taken, add_user, find_account, with_status, open_session, close_session, insert_user,
  sort_users,
}
use inp.Chat.Invariant.{Inv, name_of}

-- A change of status keeps every name.
pub name-with_status :
    (s : Server) (p : ℕ) (status : Bytes) (q : ℕ)
    → (with_status s p status q).username ≡ name_of s q
name-with_status s p status q = ground arith

pub is_taken-false :
    (heap : ℕ → User) (u : Bytes) (ps : List ℕ) (q : ℕ)
    → is_taken heap u ps ≡ false
    → contains q ps ≡ true
    → bytes_eq (heap q).username u ≡ false
unfolding is_taken
is_taken-false heap u [] q h k = absurd (ground arith)
is_taken-false heap u (p ∷ ps) q h k = ground (arith, is_taken-false heap u ps q)

-- Only a name that no registered user has is given to a new user.
pub add_user-Inv :
    (s : Server) (u password : Bytes)
    → Inv s
    → is_taken s.heap u s.registered_user ≡ false
    → Inv (add_user s u password)
add_user-Inv s u password v free = record {
  allocated =
      λ p h. ground (arith, contains-append p s.registered_user (s.allocated ∷ []), v.allocated p);
  named = λ p q h k e. ground (
    arith,
    contains-append p s.registered_user (s.allocated ∷ []),
    contains-append q s.registered_user (s.allocated ∷ []),
    v.allocated p,
    v.allocated q,
    v.named p q,
    is_taken-false s.heap u s.registered_user p free,
    is_taken-false s.heap u s.registered_user q free,
    bytes_eq_iff (name_of s p) u,
    bytes_eq_iff (name_of s q) u,
  );
  session = λ fd p h. ground (
    arith,
    v.session fd p h,
    v.allocated p,
    contains-append p s.registered_user (s.allocated ∷ []),
  );
  single = v.single;
  owned = λ w h.
      let (fd, p, e, n) = v.owned w h in
      (fd, p, e, ground (arith, v.allocated p, v.session fd p e));
  seated = v.seated;
  listed = v.listed;
  tidy = v.tidy;
}

-- The account that `loginUser` finds is registered, under the name and the password.
pub find_account-some :
    (heap : ℕ → User) (logged : List Bytes) (u pw : Bytes) (ps : List ℕ) (p : ℕ)
    → find_account heap logged u pw ps ≡ some p
    → (contains p ps ≡ true) × ((heap p).username ≡ u) × ((heap p).password ≡ pw)
unfolding find_account
find_account-some heap logged u pw [] p h = absurd (ground arith)
find_account-some heap logged u pw (q ∷ qs) p h = ground (
  arith,
  find_account-some heap logged u pw qs p,
  bytes_eq_iff (heap q).username u,
  bytes_eq_iff (heap q).password pw,
)

pub open_session-Inv :
    (s : Server) (fd p : ℕ) (u : Bytes)
    → Inv s
    → contains p s.registered_user ≡ true
    → name_of s p ≡ u
    → member u s.logged_in_users ≡ false
    → lookup fd s.clients ≡ none
    → Inv (open_session s fd p u)
unfolding open_session
open_session-Inv s fd p u v reg name out none_yet = record {
  allocated = v.allocated;
  named = λ a b h k e. ground (arith, v.named a b h k);
  session = λ g q h. ground (
    arith,
    lookup-insert fd g p s.clients,
    v.session g q,
    member-insert u (name_of s q) s.logged_in_users,
    bytes_eq_iff u (name_of s q),
  );
  single = λ g g' q h k. ground (
    arith,
    lookup-insert fd g p s.clients,
    lookup-insert fd g' p s.clients,
    v.single g g' q,
    v.session g q,
    v.session g' q,
  );
  owned = λ w h. owner w (Bool-cases (bytes_eq u w)) h;
  seated = λ g n h.
      let (q, room, e, r, c) = v.seated g n h in
      (q, room, ground (arith, lookup-insert fd g p s.clients), r, c);
  listed = v.listed;
  tidy = v.tidy;
}
  where
    owner :
        (w : Bytes)
        → (bytes_eq u w ≡ true) ⊎ (bytes_eq u w ≡ false)
        → member w (Bytes.insert u s.logged_in_users) ≡ true
        → (g : ℕ) × (q : ℕ) × (lookup g (insert fd p s.clients) ≡ some q)
          × (name_of (open_session s fd p u) q ≡ w)
    owner w (inl e) h =
        (fd, p, ground (arith, lookup-insert fd fd p s.clients), ground (arith, bytes_eq_iff u w))
    owner w (inr e) h =
        let (g, q, l, n) = v.owned w (ground (arith, member-insert u w s.logged_in_users)) in
        (g, q, ground (arith, lookup-insert fd g p s.clients), ground arith)

pub close_session-Inv :
    (s : Server) (fd p : ℕ)
    → Inv s
    → lookup fd s.clients ≡ some p
    → lookup fd s.client_in_chat_room ≡ none
    → Inv (close_session s fd p)
unfolding close_session
close_session-Inv s fd p v here outside = record {
  allocated = v.allocated;
  named = λ a b h k e. ground (arith, v.named a b h k);
  session = λ g q h. ground (
    arith,
    lookup-erase fd g s.clients,
    v.session g q,
    v.session fd p,
    v.single g fd q,
    v.named p q,
    member-erase (name_of s p) (name_of s q) s.logged_in_users,
    bytes_eq_iff (name_of s p) (name_of s q),
  );
  single = λ g g' q h k.
      ground (arith, lookup-erase fd g s.clients, lookup-erase fd g' s.clients, v.single g g' q);
  owned = λ w h.
      let (g, q, l, n) =
        v.owned w (ground (arith, member-erase (name_of s p) w s.logged_in_users)) in
      (
        g,
        q,
        ground (
          arith,
          lookup-erase fd g s.clients,
          member-erase (name_of s p) w s.logged_in_users,
          bytes_eq_iff (name_of s p) w,
        ),
        ground arith,
      );
  seated = λ g n h.
      let (q, room, e, r, c) = v.seated g n h in
      (q, room, ground (arith, lookup-erase fd g s.clients), r, c);
  listed = v.listed;
  tidy = v.tidy;
}

-- A change of status alone.
pub set_status-Inv :
    (s : Server) (p : ℕ) (status : Bytes) → Inv s → Inv (record s { heap = with_status s p status })
set_status-Inv s p status v = record {
  allocated = v.allocated;
  named = λ a b h k e. ground (arith, v.named a b h k);
  session = λ g q h. ground (arith, v.session g q h);
  single = v.single;
  owned = λ w h. let (g, q, l, n) = v.owned w h in (g, q, l, ground arith);
  seated = v.seated;
  listed = v.listed;
  tidy = v.tidy;
}

contains-insert_user :
    (heap : ℕ → User) (k p : ℕ) (ps : List ℕ)
    → contains k (insert_user heap p ps) ≡ (k == p || contains k ps)
unfolding insert_user
contains-insert_user heap k p [] = refl
contains-insert_user heap k p (q ∷ qs) = ground (arith, contains-insert_user heap k p qs)

-- Sorting loses no user and makes none up.
pub contains-sort_users :
    (heap : ℕ → User) (k : ℕ) (ps : List ℕ) → contains k (sort_users heap ps) ≡ contains k ps
unfolding sort_users
contains-sort_users heap k [] = refl
contains-sort_users heap k (p ∷ ps) =
    ground
      (arith, contains-insert_user heap k p (sort_users heap ps), contains-sort_users heap k ps)

pub sort_users-Inv :
    (s : Server) → Inv s → Inv (record s { registered_user = sort_users s.heap s.registered_user })
sort_users-Inv s v = record {
  allocated = λ p h. ground (arith, contains-sort_users s.heap p s.registered_user, v.allocated p);
  named = λ p q h k e. ground (
    arith,
    contains-sort_users s.heap p s.registered_user,
    contains-sort_users s.heap q s.registered_user,
    v.named p q,
  );
  session =
      λ g q h. ground (arith, contains-sort_users s.heap q s.registered_user, v.session g q h);
  single = v.single;
  owned = v.owned;
  seated = v.seated;
  listed = v.listed;
  tidy = v.tidy;
}

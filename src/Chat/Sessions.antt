-- ===== src/Chat/Sessions.antt =====
-- Accounts and sessions of the chat server, from one command to the next.
use inp.Common.{
  ℕ, ◌≡◌, ◌≢◌, ◌∙◌, subst, refl, ◌⊎◌, inl, inr, true, false, List, [], ◌∷◌, ◌++◌, Option, none,
  some, contains, arith, Bool-cases,
}
use inp.Common.Maps.{lookup, lookup-insert, lookup-erase}
use inp.Common.Bytes.{Bytes, text, bytes_eq_iff, member, member-insert, member-erase}
use inp.Chat.Result.{Result}
use inp.Chat.State.{User, Server, Reply, reply, is_logged_in, client_at, update}
use inp.Chat.Account.{
  is_taken, add_user, register_user, find_account, open_session, login_user, close_session,
  logout_user, get_whoami,
}
use inp.Chat.Invariant.{Inv, name_of, client_at-ok}
use inp.Chat.Invariant.Account.{find_account-some, is_taken-false}

-- Two sockets whose users have the same name are one socket: nobody is logged in twice.
pub session_unique :
    (s : Server) (fd g p q : ℕ)
    → Inv s
    → lookup fd s.clients ≡ some p
    → lookup g s.clients ≡ some q
    → name_of s p ≡ name_of s q
    → fd ≡ g
session_unique s fd g p q v e k same =
    ground (arith, v.session fd p e, v.session g q k, v.named p q, v.single fd g p e)

find_account-none :
    (heap : ℕ → User) (logged : List Bytes) (u pw : Bytes) (ps : List ℕ) (p : ℕ)
    → find_account heap logged u pw ps ≡ none
    → member u logged ≡ false
    → contains p ps ≡ true
    → (heap p).username ≡ u
    → (heap p).password ≢ pw
unfolding find_account
find_account-none heap logged u pw [] p h out c name e = absurd (ground arith)
find_account-none heap logged u pw (q ∷ qs) p h out c name e = ground (
  arith,
  find_account-none heap logged u pw qs p,
  bytes_eq_iff (heap q).username u,
  bytes_eq_iff (heap q).password pw,
)

-- What a login of a socket without a user does.
abbrev pub Opened : Server → ℕ → Bytes → Bytes → Result Reply → Type 0
Opened s fd u pw m =
    (p : ℕ) × (contains p s.registered_user ≡ true)
    × (name_of s p ≡ u)
    × ((s.heap p).password ≡ pw)
    × (member u s.logged_in_users ≡ false)
    × (m ≡ reply (open_session s fd p u) (text "Welcome, " ++ (u ++ text ".\n")))

abbrev pub Refused : Server → Bytes → Bytes → Result Reply → Type 0
Refused s u pw m =
    ((p : ℕ)
      → contains p s.registered_user ≡ true
      → name_of s p ≡ u
      → (s.heap p).password ≡ pw
      → member u s.logged_in_users ≡ true)
    × (m ≡ reply s (text "Login failed.\n"))

-- A login of a socket without a user opens a session for a registered user of that name and
-- password who is not logged in; where there is no such user, it changes nothing and says so.
pub login_user_lem :
    (s : Server) (fd : ℕ) (cmd u pw : Bytes)
    → is_logged_in s fd ≡ false
    → Opened s fd u pw (login_user s (cmd ∷ u ∷ pw ∷ []) fd)
      ⊎ Refused s u pw (login_user s (cmd ∷ u ∷ pw ∷ []) fd)
unfolding login_user
login_user_lem s fd cmd u pw off = elim (Bool-cases (member u s.logged_in_users)) [
  | inl twice ↦ inr (λ p c n w. twice, rw (off, twice))
  | inr out ↦ go out (find_account s.heap s.logged_in_users u pw s.registered_user) refl
]
  where
    go :
        member u s.logged_in_users ≡ false
        → (o : Option ℕ) → find_account s.heap s.logged_in_users u pw s.registered_user ≡ o
        → Opened s fd u pw (login_user s (cmd ∷ u ∷ pw ∷ []) fd)
          ⊎ Refused s u pw (login_user s (cmd ∷ u ∷ pw ∷ []) fd)
    go out none e = inr (
      λ p c n w.
          absurd (find_account-none s.heap s.logged_in_users u pw s.registered_user p e out c n w),
      rw (off, out, e),
    )
    go out (some p) e =
        let (reg, name, word) =
          find_account-some s.heap s.logged_in_users u pw s.registered_user p e in
        inl (p, reg, name, word, out, rw (off, out, e))

-- After a login the socket is logged in, and `whoami` answers with the name.
pub open_session-whoami :
    (s : Server) (fd p : ℕ)
    → let s' = open_session s fd p (name_of s p) in
      (is_logged_in s' fd ≡ true)
      × (get_whoami s' (text "whoami" ∷ []) fd ≡ reply s' (name_of s p ++ text "\n"))
unfolding open_session get_whoami is_logged_in client_at
open_session-whoami s fd p = (
  ground (
    arith,
    lookup-insert fd fd p s.clients,
    member-insert (name_of s p) (name_of s p) s.logged_in_users,
    bytes_eq_iff (name_of s p) (name_of s p),
  ),
  ground (
    arith,
    lookup-insert fd fd p s.clients,
    member-insert (name_of s p) (name_of s p) s.logged_in_users,
    bytes_eq_iff (name_of s p) (name_of s p),
  ),
)

find_account-append :
    (heap : ℕ → User) (logged : List Bytes) (u pw : Bytes) (ps : List ℕ) (p : ℕ)
    → is_taken heap u ps ≡ false
    → member u logged ≡ false
    → (heap p).username ≡ u
    → (heap p).password ≡ pw
    → find_account heap logged u pw (ps ++ p ∷ []) ≡ some p
unfolding find_account is_taken
find_account-append heap logged u pw [] p free out n w =
    ground (arith, bytes_eq_iff (heap p).username u, bytes_eq_iff (heap p).password pw)
find_account-append heap logged u pw (q ∷ qs) p free out n w =
    ground (arith, find_account-append heap logged u pw qs p)

-- Other users' names do not change when a user is allocated.
is_taken-update :
    (heap : ℕ → User) (u : Bytes) (ps : List ℕ) (p : ℕ) (new : User)
    → contains p ps ≡ false
    → is_taken (update heap p new) u ps ≡ is_taken heap u ps
unfolding is_taken
is_taken-update heap u [] p new h = refl
is_taken-update heap u (q ∷ qs) p new h = ground (arith, is_taken-update heap u qs p new)

-- A name that no registered user has is not logged in.
free-out :
    (s : Server) (u : Bytes)
    → Inv s
    → is_taken s.heap u s.registered_user ≡ false
    → member u s.logged_in_users ≡ false
free-out s u v free = elim (Bool-cases (member u s.logged_in_users)) [
  | inr out ↦ out
  | inl on ↦
      let (fd, p, e, n) = v.owned u on in
      absurd (
        ground (
          arith,
          v.session fd p e,
          is_taken-false s.heap u s.registered_user p free,
          bytes_eq_iff (name_of s p) u,
        ))
]

-- A user who is registered under a name that is not taken, and who then logs in on a socket without a user,
-- is welcomed, and `whoami` answers with the name.
pub login-register :
    (s : Server) (fd : ℕ) (u pw : Bytes)
    → Inv s
    → is_taken s.heap u s.registered_user ≡ false
    → lookup fd s.clients ≡ none
    → (s₁ s₂ : Server) × (register_user s (text "register" ∷ u ∷ pw ∷ [])
        ≡ reply s₁ (text "Register successfully.\n"))
      × (login_user s₁ (text "login" ∷ u ∷ pw ∷ []) fd
          ≡ reply s₂ (text "Welcome, " ++ (u ++ text ".\n")))
      × (get_whoami s₂ (text "whoami" ∷ []) fd ≡ reply s₂ (u ++ text "\n"))
unfolding register_user login_user is_logged_in
login-register s fd u pw v free none_yet =
    let s₁ = add_user s u pw in
    let new = s.allocated in
    let fresh : contains new s.registered_user ≡ false =
      elim (Bool-cases (contains new s.registered_user)) [
        | inr e ↦ e
        | inl e ↦ absurd (omega (arith, v.allocated new e))
      ] in
    let found : find_account s₁.heap s.logged_in_users u pw (s.registered_user ++ new ∷ [])
        ≡ some new =
      find_account-append s₁.heap s.logged_in_users u pw s.registered_user new
        (is_taken-update s.heap u s.registered_user new _ fresh ∙ free) (free-out s u v free)
        (ground arith) (ground arith) in
    let name : name_of s₁ new ≡ u = ground arith in
    (
      s₁,
      open_session s₁ fd new u,
      rw free,
      rw (none_yet, free-out s u v free, found),
      subst
          (λ w.
            get_whoami (open_session s₁ fd new w) (text "whoami" ∷ []) fd
            ≡ reply (open_session s₁ fd new w) (w ++ text "\n"))
          name (open_session-whoami s₁ fd new).1,
    )

-- A logout ends the session of the socket: it has no user then, and the name is not logged in.
pub logout_user_lem :
    (s : Server) (fd p : ℕ)
    → lookup fd s.clients ≡ some p
    → is_logged_in s fd ≡ true
    → (s' : Server) × (logout_user s (text "logout" ∷ []) fd
        ≡ reply s' (text "Bye, " ++ (name_of s p ++ text ".\n")))
      × (lookup fd s'.clients ≡ none)
      × (member (name_of s p) s'.logged_in_users ≡ false)
      × ((s'.heap p).status ≡ text "offline")
unfolding logout_user close_session
logout_user_lem s fd p e on = (
  close_session s fd p,
  rw (on, client_at-ok s fd p e),
  ground (arith, lookup-erase fd fd s.clients),
  ground (
    arith,
    member-erase (name_of s p) (name_of s p) s.logged_in_users,
    bytes_eq_iff (name_of s p) (name_of s p),
  ),
  ground arith,
)

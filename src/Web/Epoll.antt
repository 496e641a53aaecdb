-- ===== src/Web/Epoll.antt =====
-- homework1/demo/server_https.c: the loop of `main` over the events of the two listening sockets, which
-- are registered with `EPOLLET`.
use inp.Common.{
  ℕ, ◌-◌, ◌≤◌, ◌≡◌, ◌⊎◌, inl, inr, refl, Bool, true, false, List, [], ◌∷◌, ◌++◌, Option, none, some,
  if◌then◌else◌, length, length-append, ap, false-true, arith,
}
use inp.Web.{Tree}
use inp.Web.Secure.{Connection, Sent, on_http, on_https}

-- A listening socket: the connections that wait in its backlog, and whether `epoll_wait` has an event
-- of it to report. With `EPOLLET` only an arrival makes one.
pub record Listener : Type 0 where
  pub backlog : List Connection
  pub is_ready : Bool

pub data Port : Type 0 where
  http https : Port

-- What the loop has sent on each connection that it has accepted, and whether it has crashed.
pub record Server : Type 0 where
  pub http_server : Listener
  pub https_server : Listener
  pub answers : List Sent
  pub is_crashed : Bool

abbrev pub listener : Port → Server → Listener
listener http s = s.http_server
listener https s = s.https_server

abbrev pub set_listener : Port → Listener → Server → Server
set_listener http l s = record {
  http_server = l;
  https_server = s.https_server;
  answers = s.answers;
  is_crashed = s.is_crashed;
}
set_listener https l s = record {
  http_server = s.http_server;
  https_server = l;
  answers = s.answers;
  is_crashed = s.is_crashed;
}

unfoldable pub serve_on : Tree → Port → Connection → Option Sent
serve_on tree http c = on_http tree c
serve_on tree https c = on_https tree c

unfoldable pub arrive : Port → Connection → Server → Server
arrive port c s =
    set_listener port record { backlog = (listener port s).backlog ++ c ∷ []; is_ready = true } s

unfoldable pub add_answer : Option Sent → Server → Server
add_answer none s = record {
  http_server = s.http_server;
  https_server = s.https_server;
  answers = s.answers;
  is_crashed = true;
}
add_answer (some sent) s = record {
  http_server = s.http_server;
  https_server = s.https_server;
  answers = s.answers ++ sent ∷ [];
  is_crashed = s.is_crashed;
}

-- `accept` on the backlog; `fails` says that it gives a negative number.
unfoldable pub accept_one : Tree → Port → Bool → List Connection → Server → Server
accept_one tree port fails [] s = set_listener port record { backlog = []; is_ready = false } s
accept_one tree port true (c ∷ cs) s =
    set_listener port record { backlog = c ∷ cs; is_ready = false } s
accept_one tree port false (c ∷ cs) s =
    add_answer (serve_on tree port c)
      (set_listener port record { backlog = cs; is_ready = false } s)

-- The body of the `for` loop on an event: one call of `accept`, and the connection it gives.
unfoldable pub on_event : Tree → Port → Bool → Server → Server
on_event tree port fails s = accept_one tree port fails (listener port s).backlog s

-- A connection arrives, or the loop takes an event.
pub data Step : Tree → Server → Server → Type 0 where
  arrives :
      {tree : Tree} (port : Port) (c : Connection) (s : Server) → Step tree s (arrive port c s)
  takes :
      {tree : Tree} (port : Port) (fails : Bool) (s : Server)
      → (listener port s).is_ready ≡ true
      → s.is_crashed ≡ false
      → Step tree s (on_event tree port fails s)

pub data Run : Tree → Server → Server → Type 0 where
  done : {tree : Tree} (s : Server) → Run tree s s
  more : {tree : Tree} (s t u : Server) → Step tree s t → Run tree t u → Run tree s u

-- The connections that wait with no event to come for them.
abbrev pub left_behind : Listener → ℕ
left_behind l = if l.is_ready then length l.backlog - 1 else length l.backlog

-- An event stands for a connection.
unfoldable pub IsLive : Listener → Type 0
IsLive l = l.is_ready ≡ true → 1 ≤ length l.backlog

listener-add_answer :
    (port : Port) (sent : Option Sent) (s : Server)
    → listener port (add_answer sent s) ≡ listener port s
unfolding add_answer
listener-add_answer http none s = refl
listener-add_answer https none s = refl
listener-add_answer http (some sent) s = refl
listener-add_answer https (some sent) s = refl

-- What a step does to a listener: it stays, gains a connection, or loses its event and at most one.
listener-arrive :
    (p port : Port) (c : Connection) (s : Server)
    → (listener p (arrive port c s) ≡ listener p s)
      ⊎ (listener p (arrive port c s)
          ≡ record { backlog = (listener p s).backlog ++ c ∷ []; is_ready = true })
unfolding arrive
listener-arrive http http c s = inr refl
listener-arrive http https c s = inl refl
listener-arrive https http c s = inl refl
listener-arrive https https c s = inr refl

listener-set_listener :
    (p port : Port) (l : Listener) (s : Server)
    → (listener p (set_listener port l s) ≡ listener p s)
      ⊎ ((p ≡ port) × (listener p (set_listener port l s) ≡ l))
listener-set_listener http http l s = inr (refl, refl)
listener-set_listener http https l s = inl refl
listener-set_listener https http l s = inl refl
listener-set_listener https https l s = inr (refl, refl)

-- What is left of a backlog after an event.
IsAccepted : List Connection → Listener → Type 0
IsAccepted backlog l = (l.is_ready ≡ false) × (length backlog - 1 ≤ length l.backlog)

listener-accept_one :
    (tree : Tree) (p port : Port) (fails : Bool) (backlog : List Connection) (s : Server)
    → (listener p (accept_one tree port fails backlog s) ≡ listener p s)
      ⊎ ((p ≡ port) × IsAccepted backlog (listener p (accept_one tree port fails backlog s)))
unfolding accept_one IsAccepted
listener-accept_one tree p port fails [] s =
    elim (listener-set_listener p port record { backlog = []; is_ready = false } s) [
      | inl kept ↦ inl kept
      | inr e ↦ inr (e.0, rw e.1 (refl, omega arith))
    ]
listener-accept_one tree p port true (c ∷ cs) s =
    elim (listener-set_listener p port record { backlog = c ∷ cs; is_ready = false } s) [
      | inl kept ↦ inl kept
      | inr e ↦ inr (e.0, rw e.1 (refl, omega arith))
    ]
listener-accept_one tree p port false (c ∷ cs) s =
    rw
      (listener-add_answer p (serve_on tree port c)
        (set_listener port record { backlog = cs; is_ready = false } s))
      (elim (listener-set_listener p port record { backlog = cs; is_ready = false } s) [
        | inl kept ↦ inl kept
        | inr e ↦ inr (e.0, rw e.1 (refl, omega arith))
      ])

-- The listeners keep the property, and a listener leaves no fewer connections behind than before.
unfoldable pub IsLater : Listener → Listener → Type 0
IsLater l m = IsLive m × (left_behind l ≤ left_behind m)

arrive-IsLater :
    (p port : Port) (c : Connection) (s : Server)
    → IsLive (listener p s)
    → IsLater (listener p s) (listener p (arrive port c s))
unfolding IsLater IsLive
arrive-IsLater p port c s h = elim (listener-arrive p port c s) [
  | inl kept ↦ rw kept (h, omega arith)
  | inr e ↦ rw e (ground (arith, h, length-append (listener p s).backlog (c ∷ [])))
]

on_event-IsLater :
    (tree : Tree) (p port : Port) (fails : Bool) (s : Server)
    → IsLive (listener p s)
    → (listener port s).is_ready ≡ true
    → IsLater (listener p s) (listener p (on_event tree port fails s))
unfolding IsLater IsLive IsAccepted on_event
on_event-IsLater tree p port fails s h ready =
    elim (listener-accept_one tree p port fails (listener port s).backlog s) [
      | inl kept ↦ rw kept (h, omega arith)
      | inr e ↦
          let same : listener p s ≡ listener port s = ap (λ q. listener q s) e.0 in
          rw (same, e.1.0, ready) (λ no. absurd (false-true no), e.1.1)
    ]

-- Through any run of the loop an event of a listening socket has a connection to accept, and the
-- connections that wait in a backlog with no event to come for them never get fewer: each event is
-- good for one call of `accept`, so a connection that has arrived before the event of another was
-- taken leaves one of them waiting, for as long as the server runs.
pub Run-IsLater :
    (tree : Tree) (p : Port) (s t : Server)
    → Run tree s t
    → IsLive (listener p s)
    → IsLater (listener p s) (listener p t)
unfolding IsLater
Run-IsLater tree p s t (done _) h = (h, omega arith)
Run-IsLater tree p s u (more _ t _ (arrives port c _) rest) h =
    let step = arrive-IsLater p port c s h in
    let later = Run-IsLater tree p t u rest step.0 in (later.0, omega (arith, step.1, later.1))
Run-IsLater tree p s u (more _ t _ (takes port fails _ ready _) rest) h =
    let step = on_event-IsLater tree p port fails s h ready in
    let later = Run-IsLater tree p t u rest step.0 in (later.0, omega (arith, step.1, later.1))

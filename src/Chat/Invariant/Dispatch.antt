-- ===== src/Chat/Invariant/Dispatch.antt =====
-- `handleCommand` keeps the invariant.
use inp.Common.{
  ℕ, ◌≡◌, ◌≢◌, ◌⊎◌, ap, remove, refl, Bool, true, false, List, [], ◌∷◌, Option, none, arith, ◌==◌,
  if◌then◌else◌, length, Bool-cases, inl, inr,
}
use inp.Common.Maps.{lookup}
use inp.Common.Bytes.{Bytes}
use inp.Chat.Result.{Result, ok, err, uncaught, null_pointer, no_end, ◌>>=◌}
use inp.Common.Text.{tokenize}
use inp.Chat.State.{Server, Event, Reply, is_logged_in}
use inp.Chat.Account.{exit_user, logout_user, leave_after, remove_socket, free_slot}
use inp.Chat.Room.{enter_chat_room, close_chat_room}
use inp.Chat.Dispatch.{
  Outcome, is_name, in_room, answer, prompt, exit_command, plain_command, run_tokens,
  handle_command,
}
use inp.Chat.Invariant.{Inv, Good}
use inp.Chat.Invariant.Command.{
  Overflows, weaken, register_user-Good, login_user-Good, logout_user-Good, get_whoami-Good,
  set_client_status-Good, list_user-Good, enter_chat_room-Good, list_chat_room-Good,
  close_chat_room-Good,
}
use inp.Chat.Invariant.Message.{room_command-Good}

-- What a whole command of `fd` leaves alone: the other sockets' users, and the table and the set of
-- sockets, unless both lose `fd`.
pub record Kept (s : Server) (fd : ℕ) (table : List ℕ) (out : Outcome) : Type 0 where
  pub others : (g : ℕ) → g ≢ fd → lookup g out.server.clients ≡ lookup g s.clients
  pub sockets :
      ((out.client_socket_list ≡ table) × (out.server.master_set ≡ s.master_set))
      ⊎ ((out.client_socket_list ≡ free_slot fd table)
          × (out.server.master_set ≡ remove fd s.master_set))

-- As `Good`, for a whole command.
abbrev pub Safe : Type 0 → Server → ℕ → List ℕ → Result Outcome → Type 0
Safe X s fd table (ok out) = Inv out.server × Kept s fd table out
Safe X s fd table (err uncaught) = X
Safe X s fd table (err null_pointer) = ⊥
Safe X s fd table (err no_end) = ⊥

answer-Safe :
    (X : Type 0) (s : Server) (fd : ℕ) (table : List ℕ) (suffix : Bytes) (m : Result Reply)
    → Good X s fd m
    → Safe X s fd table (answer fd table suffix m)
answer-Safe X s fd table suffix (ok r) (v, f) =
    (v, record { others = f.others; sockets = inl (refl, f.watched) })
answer-Safe X s fd table suffix (err uncaught) g = g
answer-Safe X s fd table suffix (err null_pointer) g = elim g [ ]
answer-Safe X s fd table suffix (err no_end) g = elim g [ ]

-- A handler that ends in no exception may stand where one is allowed.
answer-Safe_any :
    (X : Type 0) (s : Server) (fd : ℕ) (table : List ℕ) (suffix : Bytes) (m : Result Reply)
    → Good ⊥ s fd m
    → Safe X s fd table (answer fd table suffix m)
answer-Safe_any X s fd table suffix (ok r) g = answer-Safe X s fd table suffix (ok r) g
answer-Safe_any X s fd table suffix (err uncaught) g = elim g [ ]
answer-Safe_any X s fd table suffix (err null_pointer) g = elim g [ ]
answer-Safe_any X s fd table suffix (err no_end) g = elim g [ ]

branch-Safe :
    (X : Type 0) (s : Server) (fd : ℕ) (table : List ℕ) (test : Bool) (this rest : Result Outcome)
    → (test ≡ true → Safe X s fd table this)
    → (test ≡ false → Safe X s fd table rest)
    → Safe X s fd table (if test then this else rest)
branch-Safe X s fd table true this rest h k = h refl
branch-Safe X s fd table false this rest h k = k refl

-- The invariant says nothing of the sockets that are watched.
pub remove_socket-Inv : (s : Server) (fd : ℕ) → Inv s → Inv (remove_socket s fd)
remove_socket-Inv s fd v = record {
  allocated = v.allocated;
  named = v.named;
  session = v.session;
  single = v.single;
  owned = v.owned;
  seated = v.seated;
  listed = v.listed;
  tidy = v.tidy;
}

leave_after-Safe :
    (X : Type 0) (s : Server) (fd : ℕ) (table : List ℕ) (m : Result Reply)
    → Good ⊥ s fd m
    → Safe X s fd table (leave_after fd table m >>= λ r. answer fd r.1 prompt (ok r.0))
leave_after-Safe X s fd table (ok r) (v, f) = (
  remove_socket-Inv r.server fd v,
  record { others = f.others; sockets = inr (refl, ap (remove fd) f.watched) },
)
leave_after-Safe X s fd table (err uncaught) g = elim g [ ]
leave_after-Safe X s fd table (err null_pointer) g = elim g [ ]
leave_after-Safe X s fd table (err no_end) g = elim g [ ]

nothing-Kept :
    (s : Server) (fd : ℕ) (table : List ℕ) (events : List Event)
    → Kept s fd table (record { server = s; client_socket_list = table; events = events })
nothing-Kept s fd table events = record { others = λ g ne. refl; sockets = inl (refl, refl) }

exit_command-Safe :
    (X : Type 0) (s : Server) (tokens : List Bytes) (fd : ℕ) (table : List ℕ)
    → Inv s
    → lookup fd s.client_in_chat_room ≡ none
    → Safe X s fd table (exit_command s tokens fd table)
unfolding exit_command exit_user
exit_command-Safe X s tokens fd table v outside = elim (Bool-cases (length tokens == 1)) [
  | inr e ↦ rw e (v, nothing-Kept s fd table _)
  | inl e ↦ elim (Bool-cases (is_logged_in s fd)) [
    | inr off ↦
        rw (e, off)
          (remove_socket-Inv s fd v, record { others = λ g ne. refl; sockets = inr (refl, refl) })
    | inl on ↦
        rw (e, on)
          (leave_after-Safe X s fd table (logout_user s tokens fd)
            (logout_user-Good s tokens fd v outside))
  ]
]

-- The one way to an exception that nothing catches: a logged-in client in no room gives `enter-chat-room` or
-- `close-chat-room` a number that no `int` holds.
abbrev pub Aborts : Server → ℕ → List Bytes → Type 0
Aborts s fd tokens =
    (lookup fd s.client_in_chat_room ≡ none)
    × ((is_name "enter-chat-room" tokens ≡ true) ⊎ (is_name "close-chat-room" tokens ≡ true))
    × (length tokens ≡ 2)
    × Overflows s fd tokens

plain_command-Safe :
    (s : Server) (tokens : List Bytes) (fd : ℕ) (table : List ℕ)
    → Inv s
    → lookup fd s.client_in_chat_room ≡ none
    → Safe (Aborts s fd tokens) s fd table (plain_command s tokens fd table)
unfolding plain_command
plain_command-Safe s tokens fd table v outside =
    branch-Safe _ s fd table (is_name "register" tokens) _ _
      (λ _. answer-Safe_any _ s fd table prompt _ (register_user-Good s tokens fd v))
      λ _.
        branch-Safe _ s fd table (is_name "login" tokens) _ _
          (λ _. answer-Safe_any _ s fd table prompt _ (login_user-Good s tokens fd v))
          λ _.
            branch-Safe _ s fd table (is_name "logout" tokens) _ _
              (λ _. answer-Safe_any _ s fd table prompt _ (logout_user-Good s tokens fd v outside))
              λ _.
                branch-Safe _ s fd table (is_name "exit" tokens) _ _
                  (λ _. exit_command-Safe _ s tokens fd table v outside)
                  λ _.
                    branch-Safe _ s fd table (is_name "whoami" tokens) _ _
                      (λ _. answer-Safe_any _ s fd table prompt _ (get_whoami-Good s tokens fd v))
                      λ _.
                        branch-Safe _ s fd table (is_name "set-status" tokens) _ _
                          (λ _.
                            answer-Safe_any _ s fd table prompt _
                              (set_client_status-Good s tokens fd v))
                          λ _.
                            branch-Safe _ s fd table (is_name "list-user" tokens) _ _
                              (λ _.
                                answer-Safe_any _ s fd table prompt _
                                  (list_user-Good s tokens fd v))
                              λ _.
                                branch-Safe _ s fd table (is_name "enter-chat-room" tokens) _ _
                                  (λ e.
                                    answer-Safe (Aborts s fd tokens) s fd table []
                                      (enter_chat_room s tokens fd)
                                      (weaken ((length tokens ≡ 2) × Overflows s fd tokens)
                                        (Aborts s fd tokens) s fd _
                                        (λ (two, o). (outside, inl e, two, o))
                                        (enter_chat_room-Good s tokens fd v outside)))
                                  λ _.
                                    branch-Safe _ s fd table (is_name "list-chat-room" tokens) _ _
                                      (λ _.
                                        answer-Safe_any _ s fd table prompt _
                                          (list_chat_room-Good s tokens fd v))
                                      λ _.
                                        branch-Safe _ s fd table (is_name "close-chat-room" tokens)
                                          _ _
                                          (λ e.
                                            answer-Safe (Aborts s fd tokens) s fd table prompt
                                              (close_chat_room s tokens fd)
                                              (weaken ((length tokens ≡ 2) × Overflows s fd tokens)
                                                (Aborts s fd tokens) s fd _
                                                (λ (two, o). (outside, inr e, two, o))
                                                (close_chat_room-Good s tokens fd v)))
                                          λ _. (v, nothing-Kept s fd table _)

in_room-none : (o : Option ℕ) → in_room o ≡ false → o ≡ none
in_room-none o h = ground arith

run_tokens-Safe :
    (s : Server) (tokens : List Bytes) (fd : ℕ) (table : List ℕ)
    → Inv s
    → Safe (Aborts s fd tokens) s fd table (run_tokens s tokens fd table)
run_tokens-Safe s [] fd table v =
    branch-Safe _ s fd table (in_room (lookup fd s.client_in_chat_room)) _ _
      (λ _. (v, nothing-Kept s fd table _)) λ _. (v, nothing-Kept s fd table _)
run_tokens-Safe s (w ∷ ws) fd table v =
    branch-Safe _ s fd table (in_room (lookup fd s.client_in_chat_room)) _ _
      (λ _. answer-Safe_any _ s fd table [] _ (room_command-Good s (w ∷ ws) fd v))
      λ e.
        plain_command-Safe s (w ∷ ws) fd table v (in_room-none (lookup fd s.client_in_chat_room) e)

-- A command of any client keeps the invariant, the other sockets' users, and the table and the set
-- of sockets, unless both lose this socket; or an exception ends the server, and then a logged-in
-- client in no room gave `enter-chat-room` or `close-chat-room` a number that no `int` holds. No
-- handler reads through a null pointer, and every loop ends.
pub handle_command-Safe :
    (s : Server) (fd : ℕ) (command : Bytes) (table : List ℕ)
    → Inv s
    → Safe (Aborts s fd (tokenize command)) s fd table (handle_command s fd command table)
unfolding handle_command
handle_command-Safe s fd command table v = run_tokens-Safe s (tokenize command) fd table v

-- ===== src/Chat/Crash.antt =====
-- Input that the chat server does not take as it is meant: numbers out of range, which end it, and
-- two lines in one read, which become one command.
use inp.Common.{
  ℕ, ◌≡◌, ◌≢◌, ◌↔◌, ◌∙◌, refl, ap, subst, inl, inr, true, false, List, [], ◌∷◌, ◌++◌, none, arith,
  ◌==◌, length, Bool-cases,
}
use inp.Common.Maps.{lookup}
use inp.Common.Bytes.{Bytes, text, bytes_eq, bytes_eq_iff}
use inp.Chat.Result.{ok, err, uncaught}
use inp.Common.Text.{is_space, flush, words_from, tokenize, stoi, out_of_range}
use inp.Chat.State.{Server, send, is_logged_in}
use inp.Chat.Account.{register_user}
use inp.Chat.Room.{enter_chat_room, close_chat_room}
use inp.Chat.Dispatch.{prompt, plain_command, run_tokens, handle_command}
use inp.Chat.Invariant.{Inv}
use inp.Chat.Invariant.Dispatch.{Safe, Aborts, handle_command-Safe}

module _ (s : Server) (fd : ℕ) (word : Bytes) (table : List ℕ)
    (outside : lookup fd s.client_in_chat_room ≡ none) (on : is_logged_in s fd ≡ true)
    (over : stoi word ≡ out_of_range) where
  enter_over : run_tokens s (text "enter-chat-room" ∷ word ∷ []) fd table ≡ err uncaught
  unfolding plain_command text bytes_eq enter_chat_room
  enter_over = rw (outside, on, over)

  close_over : run_tokens s (text "close-chat-room" ∷ word ∷ []) fd table ≡ err uncaught
  unfolding plain_command text bytes_eq close_chat_room
  close_over = rw (outside, on, over)

run_tokens-uncaught :
    (s : Server) (fd : ℕ) (tokens : List Bytes) (table : List ℕ)
    → Aborts s fd tokens
    → run_tokens s tokens fd table ≡ err uncaught
run_tokens-uncaught s fd [] table (outside, name, two, (on, over)) = absurd (omega arith)
run_tokens-uncaught s fd (w ∷ []) table (outside, name, two, (on, over)) = absurd (omega arith)
run_tokens-uncaught s fd (w ∷ x ∷ y ∷ ws) table (outside, name, two, (on, over)) =
    absurd (omega arith)
run_tokens-uncaught s fd (w ∷ word ∷ []) table (outside, inl e, two, (on, over)) =
    let same : w ≡ text "enter-chat-room" = (bytes_eq_iff w (text "enter-chat-room")).0 e in
    rw same (enter_over s fd word table outside on over)
run_tokens-uncaught s fd (w ∷ word ∷ []) table (outside, inr e, two, (on, over)) =
    let same : w ≡ text "close-chat-room" = (bytes_eq_iff w (text "close-chat-room")).0 e in
    rw same (close_over s fd word table outside on over)

-- In a state with the invariant, a command ends the server by an exception that nothing catches
-- exactly when a logged-in client in no chat room gives `enter-chat-room` or `close-chat-room` one word
-- that is a number out of the range of `int`.
pub handle_command-uncaught :
    (s : Server) (fd : ℕ) (command : Bytes) (table : List ℕ)
    → Inv s
    → (handle_command s fd command table ≡ err uncaught) ↔ Aborts s fd (tokenize command)
unfolding handle_command
handle_command-uncaught s fd command table v = (
  λ e.
      subst (Safe (Aborts s fd (tokenize command)) s fd table) e
        (handle_command-Safe s fd command table v),
  run_tokens-uncaught s fd (tokenize command) table,
)

flush-append : (w : Bytes) (xs ys : List Bytes) → flush w (xs ++ ys) ≡ flush w xs ++ ys
flush-append [] xs ys = refl
flush-append (c ∷ w) xs ys = refl

words_from-line : (w a b : Bytes) → words_from w (a ++ 10 ∷ b) ≡ words_from w a ++ words_from [] b
unfolding words_from is_space
words_from-line w [] b = flush-append w [] (words_from [] b)
words_from-line w (c ∷ a) b = elim (Bool-cases (is_space c)) [
  | inl e ↦
      rw (e, words_from)
        (ap (flush w) (words_from-line [] a b) ∙ flush-append w (words_from [] a) (words_from [] b))
  | inr e ↦ rw (e, words_from) (words_from-line (w ++ c ∷ []) a b)
]

-- The words of two lines in one text are those of the first and then those of the second.
pub tokenize-line : (a b : Bytes) → tokenize (a ++ 10 ∷ b) ≡ tokenize a ++ tokenize b
unfolding tokenize
tokenize-line a b = words_from-line [] a b

length-ne : (b : List Bytes) → b ≢ [] → (length b == 0) ≡ false
length-ne [] h = absurd (h refl)
length-ne (w ∷ b) h = ground arith

-- Whenever the line of a correct `register` and a further line that is not blank are read at once,
-- nobody is registered: the client is told how to use the command.
pub register_merged :
    (s : Server) (fd : ℕ) (table : List ℕ) (u pw line next : Bytes)
    → lookup fd s.client_in_chat_room ≡ none
    → tokenize line ≡ text "register" ∷ u ∷ pw ∷ []
    → tokenize next ≢ []
    → handle_command s fd (line ++ 10 ∷ next) table
      ≡ ok (record {
        server = s;
        client_socket_list = table;
        events = send fd (text "Usage: register <username> <password>\n" ++ prompt) ∷ [];
      })
unfolding handle_command plain_command bytes_eq text register_user
register_merged s fd table u pw line next outside first more =
    rw (tokenize-line line next, first, outside) (ground (arith, length-ne (tokenize next) more))

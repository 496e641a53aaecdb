-- ===== src/Chat/Loop/Stale.antt =====
-- What the main loop leaves behind when a client closes its connection without `exit`.
use inp.Common.{ℕ, ◌≡◌, true, [], ◌∷◌, ◌++◌, some, arith}
use inp.Common.Maps.{lookup}
use inp.Common.Bytes.{text}
use inp.Chat.Result.{ok}
use inp.Chat.State.{reply, is_logged_in, client_at}
use inp.Chat.Account.{get_whoami}
use inp.Chat.Loop.{Host, accept_client, closed, serve_socket}
use inp.Chat.Invariant.{name_of}

-- Whenever the client of a logged-in socket closes its connection and the next connection that is
-- accepted gets the same descriptor, the new client is answered as the old user, without a login.
pub closed-whoami :
    (h h' : Host) (i fd p : ℕ)
    → is_logged_in h.server fd ≡ true
    → lookup fd h.server.clients ≡ some p
    → serve_socket h i fd closed ≡ ok h'
    → let s = (accept_client h' fd).server in
      get_whoami s (text "whoami" ∷ []) fd ≡ reply s (name_of h.server p ++ text "\n")
unfolding serve_socket accept_client get_whoami is_logged_in client_at
closed-whoami h h' i fd p on l e = ground arith

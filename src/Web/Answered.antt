-- ===== src/Web/Answered.antt =====
-- homework1/demo: from the bytes that a client sends to the answer it gets.
use inp.Common.{ℕ, ◌≤◌, ◌≡◌, Bool, true, false, [], ◌∷◌, ◌++◌, Option, some, ◌==◌, length, All}
use inp.Common.Bytes.{Bytes}
use inp.Common.Text.{is_space}
use inp.Web.{Tree, RequestLine}
use inp.Web.Plain
use inp.Web.Secure
use inp.Web.Request.{IsWordByte}
use inp.Web.Site.{Answer, serve, response_for}
use inp.Web.Mime.{IsClear}
use inp.Web.Get.{IsTextByte, query_of}

-- A byte of a name: neither `sscanf` nor the C string ends at it.
abbrev pub IsNameByte : ℕ → Type 0
IsNameByte c = IsTextByte c × (is_space c ≡ false)

-- A path and a query that a request line has place for.
unfoldable pub IsTarget : Bytes → Option Bytes → Type 0
IsTarget p q =
    All IsNameByte p
    × All IsNameByte (query_of q)
    × All (λ c. (c == b'?') ≡ false) p
    × (length (p ++ query_of q) ≤ 255)

-- If a file is served, none of the extensions that the server looks for stands inside its name.
unfoldable pub HasClearName : Tree → Bytes → Type 0
HasClearName tree p = (name bytes : Bytes) → serve tree p ≡ Answer.ok name bytes → IsClear name

-- How the HTTPS server answers.
abbrev pub deliver : Bool → Option ℕ → Option ℕ → Answer → Option Secure.Sent
deliver ssl first second answer =
    Secure.send_200_response record { ssl_connection = ssl; first = first; second = second }
      (response_for answer)

-- A connection of which these bytes have been read.
abbrev pub read_connection : Option ℕ → Option ℕ → RequestLine → Bytes → Bytes → Secure.Connection
read_connection first second stale bytes memory = record {
  handshake = true;
  received = some bytes;
  memory = memory;
  stale = stale;
  first = first;
  second = second;
}

pub name_words : (p : Bytes) → All IsNameByte p → All IsWordByte p
name_words [] h = tt
name_words (c ∷ p) h = (h.0.1, name_words p h.1)

-- ===== src/Web/Site.antt =====
-- What homework1/README.md asks of a GET request, and that homework1/demo/utils.c, server.c,
-- utils_https.c and server_https.c give it.
use inp.Common.{
  ℕ, ◌≡◌, ◌≢◌, ap, ◌⊎◌, Bool, true, ◌||◌, [], ◌∷◌, ◌++◌, Option, none, some, if◌then◌else◌, length,
  arith,
}
use inp.Common.Bytes.{Bytes, text, bytes_eq}
use inp.Web.{HttpResponse, Tree, Node, missing, directory, locked, file, ends_with_slash}

-- What the server makes of a path: `broken` is a file that it may not read.
pub data Answer : Type 0 where
  not_found forbidden broken : Answer
  moved : Bytes → Answer
  ok : Bytes → Bytes → Answer

abbrev pub serve_file : Answer → Bytes → Node → Answer
serve_file absent name missing = absent
serve_file absent name locked = broken
serve_file absent name directory = ok name []
serve_file absent name (file bytes) = ok name bytes

-- A directory stands for its `index.html`, and its name ends in a slash.
abbrev pub serve_node : Tree → Bytes → Node → Answer
serve_node tree p missing = not_found
serve_node tree p locked = broken
serve_node tree p (file bytes) = ok (text "html" ++ p) bytes
serve_node tree p directory =
    let index = (text "html" ++ p) ++ text "index.html" in
    if ends_with_slash p then serve_file forbidden index (tree index) else moved (p ++ b'/' ∷ [])

unfoldable pub serve : Tree → Bytes → Answer
serve tree p = serve_node tree p (tree (text "html" ++ p))

-- A page that shows its own status.
abbrev pub status_page : ℕ → Bytes → Bytes → HttpResponse
status_page code number description = record {
  status_code = code;
  status_description = description;
  content =
      text "<html><body><h1>"
      ++ (number ++ (text " " ++ (description ++ text "</h1></body></html>")));
  content_type = text "text/html";
  location = [];
  content_length = length (
      text "<html><body><h1>"
      ++ (number ++ (text " " ++ (description ++ text "</h1></body></html>"))));
}

-- A name ends in the word.
unfoldable pub ends_with : Bytes → Bytes → Bool
ends_with word [] = bytes_eq word []
ends_with word (c ∷ cs) = bytes_eq word (c ∷ cs) || ends_with word cs

-- The type of a file by its extension name, for the extensions that the server knows.
unfoldable pub type_by_extension : Bytes → Bytes
type_by_extension name =
    if ends_with (text ".html") name
    then text "text/html"
    else if ends_with (text ".jpg") name
    then text "image/jpeg"
    else if ends_with (text ".mp3") name
    then text "audio/mpeg"
    else if ends_with (text ".png") name
    then text "image/png"
    else text "text/plain"

-- The response that has an answer, where `type_of` finds the type of a file.
unfoldable pub response_with : (Bytes → Bytes) → Answer → Option HttpResponse
response_with type_of not_found = some (status_page 404 (text "404") (text "Not Found"))
response_with type_of forbidden = some (status_page 403 (text "403") (text "Forbidden"))
response_with type_of broken = none
response_with type_of (moved target) = some record {
  status_code = 301;
  status_description = text "Moved Permanently";
  content = [];
  content_type = text "text/html";
  location = target;
  content_length = 0;
}
response_with type_of (ok name bytes) = some record {
  status_code = 200;
  status_description = text "OK";
  content = bytes;
  content_type = type_of name;
  location = [];
  content_length = length bytes;
}

-- What the README asks for.
abbrev pub response_for : Answer → Option HttpResponse
response_for answer = response_with type_by_extension answer

-- How POSIX resolves paths: two slashes in a row name what one does, and a path with a slash at its
-- end names a directory or nothing.
unfoldable pub IsPosix : Tree → Type 0
IsPosix tree =
    ((d : Bytes) → tree (d ++ text "//index.html") ≡ tree (d ++ text "/index.html"))
    × ((d : Bytes) → (tree (d ++ text "/") ≡ missing) ⊎ (tree (d ++ text "/") ≡ directory))

-- No directory but the root has an `index.html`.
unfoldable pub HasNoInnerIndex : Tree → Bytes → Type 0
HasNoInnerIndex tree p =
    p ≢ text "/"
    → tree (text "html" ++ p) ≡ directory
    → ends_with_slash p ≡ true
    → tree ((text "html" ++ p) ++ text "index.html") ≡ missing

pub ends_with_slash-append :
    (p : Bytes) → ends_with_slash p ≡ true → (d : Bytes) × (p ≡ d ++ text "/")
unfolding ends_with_slash text
ends_with_slash-append [] h = ground arith
ends_with_slash-append (c ∷ []) h = ([], ground arith)
ends_with_slash-append (c ∷ e ∷ p) h =
    let rest = ends_with_slash-append (e ∷ p) h in (c ∷ rest.0, ap (◌∷◌ c) rest.1)

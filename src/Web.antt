-- ===== src/Web.antt =====
-- What the two web servers of homework1/demo share: the text that utils.c and utils_https.c both hold
-- of the path, the file system and the response, and the C library's `sscanf`, `snprintf` and `strstr`.
pub mod Plain
pub mod Secure
pub mod Decode
pub mod Epoll
pub mod Pool
pub mod Faults
pub mod Answered
pub mod Get
pub mod Serve
pub mod Site
pub mod Mime
pub mod Request
pub mod Same
mod Tests
use inp.Common.{
  ℕ, zero, suc, ◌+◌, ◌-◌, ◌*◌, Bool, true, false, ◌&&◌, ◌||◌, List, [], ◌∷◌, ◌++◌, Option, none,
  some, ltb, leb, ◌==◌, if◌then◌else◌, length, take,
}
use inp.Common.Bytes.{Bytes, text, bytes_eq}
use inp.Common.Text.{is_space, find, digits, is_digit}

-- `struct HttpResponse`
pub record HttpResponse : Type 0 where
  pub status_code : ℕ
  pub status_description : Bytes
  pub content : Bytes
  pub content_type : Bytes
  pub location : Bytes
  pub content_length : ℕ

-- What a path names; a `locked` file exists, but `fopen` gives `NULL` for it.
pub data Node : Type 0 where
  missing directory locked : Node
  file : Bytes → Node

abbrev pub Tree : Type 0
Tree = Bytes → Node

-- The C string at the start of some memory.
unfoldable pub c_string : Bytes → Bytes
c_string [] = []
c_string (c ∷ cs) = let rest = c_string cs in if c == 0 then [] else c ∷ rest

-- `BUFFER_SIZE`
abbrev pub buffer_size : ℕ
buffer_size = 1024

-- Whether one of the first bytes of some memory, of which there are `left` to go, ends a string. When
-- none of those of `request_buffer` does, `urlDecode` reads on behind it.
unfoldable pub is_terminated : ℕ → Bytes → Bool
is_terminated zero memory = false
is_terminated (suc left) [] = false
is_terminated (suc left) (c ∷ cs) =
    let rest = is_terminated left cs in if c == 0 then true else rest

unfoldable pub is_xdigit : ℕ → Bool
is_xdigit c = is_digit c || ((leb 65 c && leb c 70) || (leb 97 c && leb c 102))

-- The value `strtol` gives a hexadecimal digit.
unfoldable pub hex_value : ℕ → ℕ
hex_value c = if is_digit c then c - 48 else if leb 97 c then c - 87 else c - 55

-- The loop of `urlDecode`, where `plain` is what it does with a byte outside an escape.
unfoldable pub decode_with : (ℕ → ℕ) → Bytes → Bytes
decode_with plain [] = []
decode_with plain (c ∷ []) = plain c ∷ []
decode_with plain (c ∷ d ∷ []) = plain c ∷ decode_with plain (d ∷ [])
decode_with plain (c ∷ d ∷ e ∷ cs) = elim (c == b'%' && (is_xdigit d && is_xdigit e)) [
  | true ↦ (hex_value d * 16 + hex_value e) ∷ decode_with plain cs
  | false ↦ plain c ∷ decode_with plain (d ∷ e ∷ cs)
]

-- `extractFilePath`
unfoldable pub extract_file_path : Bytes → Bytes
extract_file_path [] = []
extract_file_path (c ∷ cs) = let rest = extract_file_path cs in if c == b'?' then [] else c ∷ rest

-- One `%<n>s` of `sscanf`: the word without the spaces in front, and what is left.
unfoldable pub skip_space : Bytes → Bytes
skip_space [] = []
skip_space (c ∷ cs) = let rest = skip_space cs in if is_space c then rest else c ∷ cs

pub record Scan : Type 0 where
  pub word : Bytes
  pub rest : Bytes

unfoldable pub scan_word : ℕ → Bytes → Scan
scan_word zero s = record { word = []; rest = s }
scan_word (suc n) [] = record { word = []; rest = [] }
scan_word (suc n) (c ∷ cs) =
    let more = scan_word n cs in
    if is_space c
    then record { word = []; rest = c ∷ cs }
    else record { word = c ∷ more.word; rest = more.rest }

-- A conversion that finds no word leaves its array as it was.
abbrev pub or_stale : Bytes → Bytes → Bytes
or_stale stale [] = stale
or_stale stale (c ∷ word) = c ∷ word

-- The two variables `method` and `path`.
pub record RequestLine : Type 0 where
  pub method : Bytes
  pub path : Bytes

-- `sscanf(request, "%9s %255s", method, path)` on arrays that hold `stale`.
unfoldable pub scan_request : RequestLine → Bytes → RequestLine
scan_request stale request =
    let first = scan_word 9 (skip_space request) in
    let second = scan_word 255 (skip_space first.rest) in
    record { method = or_stale stale.method first.word; path = or_stale stale.path second.word }

-- `snprintf(full_path, 270, "html%s", file_path)` and the one for `index_path`.
unfoldable pub full_path_of : Bytes → Bytes
full_path_of file_path = take 269 (text "html" ++ file_path)

unfoldable pub index_path_of : Bytes → Bytes
index_path_of full_path = take 299 (full_path ++ text "/index.html")

-- `s[strlen(s) - 1] == '/'`
unfoldable pub ends_with_slash : Bytes → Bool
ends_with_slash [] = false
ends_with_slash (c ∷ []) = c == b'/'
ends_with_slash (c ∷ d ∷ cs) = ends_with_slash (d ∷ cs)

abbrev pub exists : Node → Bool
exists missing = false
exists directory = true
exists locked = true
exists (file bytes) = true

abbrev pub is_directory : Node → Bool
is_directory missing = false
is_directory directory = true
is_directory locked = false
is_directory (file bytes) = false

-- `fopen` and `fread`: none where the stream is `NULL`. A directory opens, and its read fails.
abbrev pub read_file : Node → Option Bytes
read_file missing = none
read_file locked = none
read_file directory = some []
read_file (file bytes) = some bytes

-- `strstr(s, word)` finds something.
unfoldable pub strstr : Bytes → Bytes → Bool
strstr s word = elim (find word s) [ none ↦ false | some at ↦ true ]

-- The chain that chooses `mime_type`.
unfoldable pub mime_type : Bytes → Bytes
mime_type full_path =
    if strstr full_path (text ".html")
    then text "text/html"
    else if strstr full_path (text ".jpg")
    then text "image/jpeg"
    else if strstr full_path (text ".mp3")
    then text "audio/mpeg"
    else if strstr full_path (text ".png")
    then text "image/png"
    else text "text/plain"

-- `if (strcmp(full_path, "html/") == 0) strcpy(full_path, "html/index.html");`
unfoldable pub opened_path : Bytes → Bytes
opened_path full_path =
    if bytes_eq full_path (text "html/") then text "html/index.html" else full_path

abbrev pub crlf : Bytes
crlf = 13 ∷ 10 ∷ []

abbrev pub concat : List Bytes → Bytes
concat [] = []
concat (xs ∷ xss) = xs ++ concat xss

-- `%d` and `%zu`
unfoldable pub decimal : ℕ → Bytes
decimal n = digits 20 n

-- `response_format_redirect` and `response_format`
unfoldable pub redirect_header : HttpResponse → Bytes
redirect_header r = concat (
    text "HTTP/1.0 "
    ∷ decimal r.status_code
    ∷ text " "
    ∷ r.status_description
    ∷ crlf
    ∷ text "Content-Length: "
    ∷ decimal r.content_length
    ∷ crlf
    ∷ text "Content-Type: "
    ∷ r.content_type
    ∷ crlf
    ∷ text "Location: "
    ∷ r.location
    ∷ crlf
    ∷ crlf
    ∷ [])

unfoldable pub header_of : HttpResponse → Bytes
header_of r = concat (
    text "HTTP/1.0 "
    ∷ decimal r.status_code
    ∷ text " "
    ∷ r.status_description
    ∷ crlf
    ∷ text "Content-Length: "
    ∷ decimal r.content_length
    ∷ crlf
    ∷ text "Content-Type: "
    ∷ r.content_type
    ∷ text "; charset=utf-8"
    ∷ crlf
    ∷ crlf
    ∷ [])

-- The bytes that a call of `write` takes: none where it gives -1.
unfoldable pub written : Option ℕ → Bytes → Bytes
written none bytes = []
written (some n) bytes = take n bytes

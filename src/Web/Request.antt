-- ===== src/Web/Request.antt =====
-- How homework1/demo/utils.c and utils_https.c read a request: the parts that `sscanf` and
-- `extractFilePath` find in it, and the arrays they are kept in.
use inp.Common.{
  take_all, ℕ, zero, suc, ◌≤◌, ◌<◌, ◌⊎◌, inl, inr, ◌≡◌, refl, ap, ◌∙◌, true, false, [], ◌∷◌, ◌++◌,
  length, length-append, All, arith,
}
use inp.Common.Bytes.{Bytes, text}
use inp.Common.Text.{is_space}
use inp.Web.{
  buffer_size, is_terminated, c_string, decode_with, extract_file_path, RequestLine, scan_word,
  skip_space, scan_request, full_path_of, index_path_of, or_stale,
}
use inp.Web.Decode.{length-decode_with}

pub full_path_of_lem : (p : Bytes) → length p ≤ 255 → full_path_of p ≡ text "html" ++ p
unfolding full_path_of text
full_path_of_lem p h = take_all 269 (text "html" ++ p) (omega arith)

pub index_path_of_lem :
    (p : Bytes)
    → length p ≤ 255
    → index_path_of (text "html" ++ p) ≡ (text "html" ++ p) ++ text "/index.html"
unfolding index_path_of text
index_path_of_lem p h =
    take_all 299 ((text "html" ++ p) ++ text "/index.html")
      (omega (arith, length-append (text "html" ++ p) (text "/index.html")))

length-extract_file_path : (s : Bytes) → length (extract_file_path s) ≤ length s
unfolding extract_file_path
length-extract_file_path [] = omega arith
length-extract_file_path (c ∷ cs) = ground (arith, length-extract_file_path cs)

length-scan_word : (n : ℕ) (s : Bytes) → length (scan_word n s).word ≤ n
unfolding scan_word
length-scan_word zero s = omega arith
length-scan_word (suc n) [] = omega arith
length-scan_word (suc n) (c ∷ cs) = ground (arith, length-scan_word n cs)

or_stale-fits :
    (n : ℕ) (stale word : Bytes)
    → length word < n
    → (or_stale stale word ≡ stale) ⊎ (length (or_stale stale word) < n)
or_stale-fits n stale [] h = inl refl
or_stale-fits n stale (c ∷ word) h = inr h

is_terminated-c_string :
    (n : ℕ) (memory : Bytes) → is_terminated n memory ≡ true → length (c_string memory) < n
unfolding is_terminated c_string
is_terminated-c_string zero memory h = absurd (ground (arith, h))
is_terminated-c_string (suc n) [] h = absurd (ground (arith, h))
is_terminated-c_string (suc n) (c ∷ cs) h = ground (arith, h, is_terminated-c_string n cs)

paths_fit :
    (path : Bytes)
    → length path < 256
    → let file_path = extract_file_path path in
      (full_path_of file_path ≡ text "html" ++ file_path)
      × (index_path_of (full_path_of file_path) ≡ full_path_of file_path ++ text "/index.html")
paths_fit path h =
    let fits : length (extract_file_path path) ≤ 255 =
      omega (arith, length-extract_file_path path) in
    (
      full_path_of_lem (extract_file_path path) fits,
      rw (full_path_of_lem (extract_file_path path) fits)
          (index_path_of_lem (extract_file_path path) fits),
    )

-- When a zero stands among the 1024 bytes of `request_buffer`, each array holds what is written to
-- it, whatever the bytes are: the decoded request with its own zero stays within 1024 bytes, `method`
-- and `path` are left as they were or stay below their 10 and 256 bytes, and when `path` is written,
-- neither `full_path` nor `index_path` is cut.
pub request_fits :
    (plain : ℕ → ℕ) (stale : RequestLine) (request_buffer : Bytes)
    → is_terminated buffer_size request_buffer ≡ true
    → let decoded = decode_with plain (c_string request_buffer) in
      let line = scan_request stale (c_string decoded) in
      let file_path = extract_file_path line.path in
      (length decoded < buffer_size)
      × ((line.method ≡ stale.method) ⊎ (length line.method < 10))
      × ((line.path ≡ stale.path)
          ⊎ ((length line.path < 256)
              × (full_path_of file_path ≡ text "html" ++ file_path)
              × (index_path_of (full_path_of file_path)
                  ≡ full_path_of file_path ++ text "/index.html")))
unfolding scan_request
request_fits plain stale request_buffer ends =
    let decoded = decode_with plain (c_string request_buffer) in
    let first = scan_word 9 (skip_space (c_string decoded)) in
    let second = scan_word 255 (skip_space first.rest) in
    (
      omega (
        arith,
        is_terminated-c_string buffer_size request_buffer ends,
        length-decode_with plain (c_string request_buffer),
      ),
      or_stale-fits 10 stale.method first.word
          (omega (arith, length-scan_word 9 (skip_space (c_string decoded)))),
      elim (or_stale-fits 256 stale.path second.word
          (omega (arith, length-scan_word 255 (skip_space first.rest)))) [
            | inl same ↦ inl same
            | inr fits ↦
                let paths = paths_fit (or_stale stale.path second.word) fits in
                inr (fits, paths.0, paths.1)
          ],
    )

abbrev pub IsWordByte : ℕ → Type 0
IsWordByte c = is_space c ≡ false

scan_word-append :
    (n c : ℕ) (w rest : Bytes)
    → All IsWordByte w
    → length w ≤ n
    → is_space c ≡ true
    → ((scan_word n (w ++ c ∷ rest)).word ≡ w) × ((scan_word n (w ++ c ∷ rest)).rest ≡ c ∷ rest)
unfolding scan_word
scan_word-append zero c [] rest h k e = (refl, refl)
scan_word-append (suc n) c [] rest h k e = ground (arith, e)
scan_word-append zero c (a ∷ w) rest h k e = absurd (omega arith)
scan_word-append (suc n) c (a ∷ w) rest h k e =
    let later = scan_word-append n c w rest h.1 (omega arith) e in
    rw (h.0) (ap (◌∷◌ a) later.0, later.1)

skip_space-word : (c : ℕ) (cs : Bytes) → is_space c ≡ false → skip_space (c ∷ cs) ≡ c ∷ cs
unfolding skip_space
skip_space-word c cs h = rw h refl

skip_space-space : (c : ℕ) (cs : Bytes) → is_space c ≡ true → skip_space (c ∷ cs) ≡ skip_space cs
unfolding skip_space
skip_space-space c cs h = rw h refl

-- The bytes of the method and the blank behind it.
get_bytes : All IsWordByte (text "GET") × (is_space b'G' ≡ false) × (is_space b' ' ≡ true)
unfolding is_space text
get_bytes = ((refl, (refl, (refl, tt))), refl, refl)

pub scan_request-get :
    (stale : RequestLine) (c : ℕ) (path rest : Bytes)
    → All IsWordByte (c ∷ path)
    → length (c ∷ path) ≤ 255
    → let line = scan_request stale (text "GET " ++ ((c ∷ path) ++ b' ' ∷ rest)) in
      (line.method ≡ text "GET") × (line.path ≡ c ∷ path)
unfolding scan_request text
scan_request-get stale c path rest h fits =
    let target = (c ∷ path) ++ b' ' ∷ rest in
    let blank = get_bytes.2 in
    let first = scan_word-append 9 b' ' (text "GET") target get_bytes.0 (omega arith) blank in
    let second = scan_word-append 255 b' ' (c ∷ path) rest h fits blank in
    let to_target : skip_space (b' ' ∷ target) ≡ target =
      skip_space-space b' ' target blank ∙ skip_space-word c (path ++ b' ' ∷ rest) h.0 in
    rw
      (
        skip_space-word b'G' (text "ET " ++ target) get_bytes.1,
        first.0,
        first.1,
        to_target,
        second.0,
      )
      (refl, refl)

-- ===== src/Web/Faults.antt =====
-- Where homework1/demo does not do what homework1/README.md asks for.
use inp.Common.{
  ℕ, ◌≤◌, ◌≡◌, ◌≢◌, refl, ap, ◌∙◌, true, [], ◌∷◌, ◌++◌, none, length, All, All-append, All-map,
  arith,
}
use inp.Common.Bytes.{Bytes, text, bytes_eq, bytes_eq_iff}
use inp.Web.{
  mime_type, Tree, directory, file, c_string, decode_with, extract_file_path, RequestLine,
  scan_request, ends_with_slash,
}
use inp.Web.Secure
use inp.Web.Request.{scan_request-get, full_path_of_lem}
use inp.Web.Site.{Answer, serve, response_with, IsPosix}
use inp.Web.Serve.{index_path_of-same, opened_other, ends_with_slash-full_path}
use inp.Web.Get.{IsTextByte, get_request, Keeps, decoded_request}
use inp.Web.Answered.{IsNameByte, name_words}
use mathlib.Core.List.{append_assoc}

-- The index of a directory below the root is never sent: a GET of the directory gets an empty 200
-- response, where the README asks for the index.
pub inner_index_lost :
    (client : Secure.ClientInfo) (tree : Tree) (line : RequestLine) (c : ℕ) (p index : Bytes)
    → IsPosix tree
    → length (c ∷ p) ≤ 255
    → c ∷ p ≢ text "/"
    → line.method ≡ text "GET"
    → extract_file_path line.path ≡ c ∷ p
    → tree (text "html" ++ (c ∷ p)) ≡ directory
    → ends_with_slash (c ∷ p) ≡ true
    → tree ((text "html" ++ (c ∷ p)) ++ text "index.html") ≡ file index
    → (Secure.answer_request client tree line
        ≡ Secure.send_200_response client
            (response_with mime_type (Answer.ok (text "html" ++ (c ∷ p)) [])))
      × (serve tree (c ∷ p) ≡ Answer.ok ((text "html" ++ (c ∷ p)) ++ text "index.html") index)
unfolding Secure.answer_request serve Secure.get_200_response response_with
inner_index_lost client tree line c p index posix fits below get at here slash there =
    let is_get : bytes_eq line.method (text "GET") ≡ true =
      (bytes_eq_iff line.method (text "GET")).1 get in
    (
      rw
          (
            is_get,
            at,
            full_path_of_lem (c ∷ p) fits,
            ends_with_slash-full_path c p,
            here,
            slash,
            index_path_of-same tree (c ∷ p) posix fits slash,
            there,
            opened_other (c ∷ p) below,
            here,
          )
          refl,
      rw (here, slash, there) refl,
    )

-- The request is decoded before it is split, so an encoded blank ends the path: what is asked for is
-- the part of the name before its first blank.
pub blank_cuts_path :
    (plain : ℕ → ℕ) (stale : RequestLine) (c : ℕ) (a b rest : Bytes)
    → Keeps plain
    → All IsNameByte (c ∷ a)
    → All IsTextByte b
    → length (c ∷ a) ≤ 255
    → let name = (c ∷ a) ++ b' ' ∷ b in
      (scan_request stale
        (c_string (decode_with plain (c_string (get_request name none rest))))).path
      ≡ c ∷ a
blank_cuts_path plain stale c a b rest keeps h k fits =
    let as_text = λ (x : ℕ) (y : IsNameByte x). y.0 in
    let blank : IsTextByte b' ' = (omega arith, omega arith) in
    let name_text =
      All-append IsTextByte (c ∷ a) (b' ' ∷ b) (All-map IsNameByte IsTextByte (c ∷ a) as_text h)
        (blank, k) in
    let words = name_words (c ∷ a) h in
    let more = c_string (decode_with plain (c_string rest)) in
    let regroup : (((c ∷ a) ++ b' ' ∷ b) ++ []) ++ b' ' ∷ more
        ≡ (c ∷ a) ++ b' ' ∷ ((b ++ []) ++ b' ' ∷ more) =
      ap (λ t. t ++ b' ' ∷ more) (append_assoc (c ∷ a) (b' ' ∷ b) [])
      ∙ append_assoc (c ∷ a) (b' ' ∷ (b ++ [])) (b' ' ∷ more) in
    rw (decoded_request plain ((c ∷ a) ++ b' ' ∷ b) none rest keeps name_text tt, regroup)
      (scan_request-get stale c a ((b ++ []) ++ b' ' ∷ more) words fits).1

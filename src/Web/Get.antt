-- ===== src/Web/Get.antt =====
-- A GET request through homework1/demo/server.c and server_https.c, from the bytes that arrive to the
-- answer that homework1/README.md asks for.
use inp.Common.{
  ℕ, ◌<◌, ◌≡◌, refl, ap, ◌∙◌, true, false, [], ◌∷◌, ◌++◌, Option, none, some, ◌==◌, All, All-map,
  arith,
}
use inp.Common.Bytes.{Bytes, text}
use inp.Web.{c_string, decode_with, extract_file_path}
use inp.Web.Decode.{percent_encode, percent_encode-decode, is_unreserved, decode_with-plain, IsByte}
use mathlib.Core.List.{append_assoc}

-- A byte that the C string does not end at.
abbrev pub IsTextByte : ℕ → Type 0
IsTextByte c = (c < 256) × (0 < c)

-- The query of a request, if it has one, as it is asked for and as it is sent.
abbrev pub query_of : Option Bytes → Bytes
query_of none = []
query_of (some q) = b'?' ∷ q

abbrev pub query_text : Option Bytes → Bytes
query_text none = []
query_text (some q) = b'?' ∷ percent_encode q

-- What a client sends for the path `p`, and whatever follows.
abbrev pub get_request : Bytes → Option Bytes → Bytes → Bytes
get_request p q rest = text "GET " ++ (percent_encode p ++ (query_text q ++ b' ' ∷ rest))

IsNonZero : ℕ → Type 0
IsNonZero c = 0 < c

c_string-append : (s rest : Bytes) → All IsNonZero s → c_string (s ++ rest) ≡ s ++ c_string rest
unfolding c_string IsNonZero
c_string-append [] rest h = refl
c_string-append (c ∷ s) rest h = ground (arith, c_string-append s rest h.1)

percent_encode-IsNonZero : (s : Bytes) → All IsTextByte s → All IsNonZero (percent_encode s)
unfolding percent_encode IsNonZero
percent_encode-IsNonZero [] h = tt
percent_encode-IsNonZero (c ∷ s) h = ground (arith, percent_encode-IsNonZero s h.1)

pub extract_file_path-query :
    (p : Bytes) (q : Option Bytes)
    → All (λ c. (c == b'?') ≡ false) p
    → extract_file_path (p ++ query_of q) ≡ p
unfolding extract_file_path
extract_file_path-query [] none h = refl
extract_file_path-query [] (some q) h = refl
extract_file_path-query (c ∷ p) q h = ground (arith, extract_file_path-query p q h.1)

c_string-get :
    (a b rest : Bytes)
    → All IsNonZero a
    → All IsNonZero b
    → c_string (text "GET " ++ (a ++ (b ++ b' ' ∷ rest)))
      ≡ text "GET " ++ (a ++ (b ++ b' ' ∷ c_string rest))
unfolding text IsNonZero
c_string-get a b rest h k =
    let get : All IsNonZero (text "GET ") =
      (omega arith, (omega arith, (omega arith, (omega arith, tt)))) in
    let blank : All IsNonZero (b' ' ∷ []) = (omega arith, tt) in
    c_string-append (text "GET ") (a ++ (b ++ b' ' ∷ rest)) get
    ∙ ap (◌++◌ (text "GET ")) (
        c_string-append a (b ++ b' ' ∷ rest) h
        ∙ ap (◌++◌ a) (
            c_string-append b (b' ' ∷ rest) k
            ∙ ap (◌++◌ b) (c_string-append (b' ' ∷ []) rest blank)))

-- What the two decoders leave alone.
unfoldable pub Keeps : (ℕ → ℕ) → Type 0
Keeps plain =
    ((c : ℕ) → is_unreserved c ≡ true → plain c ≡ c) × (plain b' ' ≡ b' ') × (plain b'?' ≡ b'?')

decode_with-get :
    (plain : ℕ → ℕ) (rest : Bytes)
    → Keeps plain
    → decode_with plain (text "GET " ++ rest) ≡ text "GET " ++ decode_with plain rest
unfolding text is_unreserved Keeps
decode_with-get plain rest keeps =
    rw
      (
        decode_with-plain plain b'G' (text "ET " ++ rest) refl,
        decode_with-plain plain b'E' (text "T " ++ rest) refl,
        decode_with-plain plain b'T' (text " " ++ rest) refl,
        decode_with-plain plain b' ' rest refl,
        keeps.0 b'G' refl,
        keeps.0 b'E' refl,
        keeps.0 b'T' refl,
        keeps.1,
      )
      refl

decode_with-query :
    (plain : ℕ → ℕ) (q : Option Bytes) (rest : Bytes)
    → Keeps plain
    → All IsByte (query_of q)
    → decode_with plain (query_text q ++ b' ' ∷ rest) ≡ query_of q ++ b' ' ∷ decode_with plain rest
unfolding Keeps
decode_with-query plain none rest keeps h =
    decode_with-plain plain b' ' rest refl ∙ ap (λ c. c ∷ decode_with plain rest) keeps.1
decode_with-query plain (some q) rest keeps h =
    rw
      (
        decode_with-plain plain b'?' (percent_encode q ++ b' ' ∷ rest) refl,
        percent_encode-decode plain keeps.0 q (b' ' ∷ rest) h.1,
        decode_with-plain plain b' ' rest refl,
        keeps.1,
        keeps.2,
      )
      refl

query_text-IsNonZero :
    (q : Option Bytes) → All IsTextByte (query_of q) → All IsNonZero (query_text q)
unfolding IsNonZero
query_text-IsNonZero none h = tt
query_text-IsNonZero (some q) h = (omega arith, percent_encode-IsNonZero q h.1)

-- What `handleHTTPRequest` is given.
pub decoded_request :
    (plain : ℕ → ℕ) (p : Bytes) (q : Option Bytes) (rest : Bytes)
    → Keeps plain
    → All IsTextByte p
    → All IsTextByte (query_of q)
    → c_string (decode_with plain (c_string (get_request p q rest)))
      ≡ text "GET " ++ ((p ++ query_of q) ++ b' ' ∷ c_string (decode_with plain (c_string rest)))
unfolding IsNonZero Keeps
decoded_request plain p q rest keeps h k =
    let byte = λ (c : ℕ) (b : IsTextByte c). b.0 in
    let positive = λ (c : ℕ) (b : IsTextByte c). b.1 in
    let sent =
      c_string-get (percent_encode p) (query_text q) rest (percent_encode-IsNonZero p h)
        (query_text-IsNonZero q k) in
    rw
      (
        sent,
        decode_with-get plain _ keeps,
        percent_encode-decode plain keeps.0 p _ (All-map IsTextByte IsByte p byte h),
        decode_with-query plain q (c_string rest) keeps
            (All-map IsTextByte IsByte (query_of q) byte k),
        append_assoc p (query_of q) (b' ' ∷ c_string (decode_with plain (c_string rest))),
      )
      (c_string-get p (query_of q) (decode_with plain (c_string rest))
        (All-map IsTextByte IsNonZero p positive h)
        (All-map IsTextByte IsNonZero (query_of q) positive k))

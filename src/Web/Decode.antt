-- ===== src/Web/Decode.antt =====
-- `urlDecode` of homework1/demo/utils.c and utils_https.c against the percent-encoding it undoes.
use inp.Common.{
  append_nil, ℕ, ◌+◌, ◌*◌, ◌/◌, ◌%◌, ◌≤◌, ◌<◌, ◌≡◌, refl, sym, ap, ◌∙◌, inl, inr, Bool, true, false,
  ◌&&◌, ◌||◌, [], ◌∷◌, ◌++◌, ltb, leb, ◌==◌, if◌then◌else◌, Bool-cases, length, All, arith,
}
use inp.Common.Bytes.{Bytes}
use inp.Common.Text.{is_digit}
use inp.Web.{decode_with, is_xdigit, hex_value}
use inp.Web.Plain
use inp.Web.Secure

abbrev pub hex_digit : ℕ → ℕ
hex_digit n = if ltb n 10 then 48 + n else 55 + n

-- Letters, digits and `-`, `.`, `/`, `_`, `~`, which need no escape.
unfoldable pub is_unreserved : ℕ → Bool
is_unreserved c =
    is_digit c
    || ((leb 65 c && leb c 90)
        || ((leb 97 c && leb c 122) || ((leb 45 c && leb c 47) || (c == b'_' || c == b'~'))))

unfoldable pub percent_encode : Bytes → Bytes
unfolding is_unreserved
percent_encode [] = []
percent_encode (c ∷ cs) =
    if is_unreserved c
    then c ∷ percent_encode cs
    else b'%' ∷ hex_digit (c / 16) ∷ hex_digit (c % 16) ∷ percent_encode cs

pub decode_with-plain :
    (plain : ℕ → ℕ) (c : ℕ) (cs : Bytes)
    → (c == b'%') ≡ false
    → decode_with plain (c ∷ cs) ≡ plain c ∷ decode_with plain cs
unfolding decode_with
decode_with-plain plain c [] h = refl
decode_with-plain plain c (d ∷ []) h = refl
decode_with-plain plain c (d ∷ e ∷ cs) h = ground arith

hex_digit_lem : (n : ℕ) → n < 16 → (is_xdigit (hex_digit n) ≡ true) × (hex_value (hex_digit n) ≡ n)
unfolding is_xdigit hex_value
hex_digit_lem n h = ground arith

decode_with-escape :
    (plain : ℕ → ℕ) (c : ℕ) (cs : Bytes)
    → c < 256
    → decode_with plain (b'%' ∷ hex_digit (c / 16) ∷ hex_digit (c % 16) ∷ cs)
      ≡ c ∷ decode_with plain cs
unfolding decode_with
decode_with-escape plain c cs h =
    let high = hex_digit_lem (c / 16) (omega arith) in
    let low = hex_digit_lem (c % 16) (omega arith) in
    let both : (is_xdigit (hex_digit (c / 16)) && is_xdigit (hex_digit (c % 16))) ≡ true =
      ground (arith, high.0, low.0) in
    let whole : c / 16 * 16 + c % 16 ≡ c = omega arith in
    rw (decode_with, both, high.1, low.1, whole) refl

abbrev pub IsByte : ℕ → Type 0
IsByte c = c < 256

percent_encode_nil : percent_encode [] ≡ []
unfolding percent_encode
percent_encode_nil = refl

percent_encode_unreserved :
    (c : ℕ) (cs : Bytes) → is_unreserved c ≡ true → percent_encode (c ∷ cs) ≡ c ∷ percent_encode cs
unfolding percent_encode
percent_encode_unreserved c cs h = rw h refl

percent_encode_reserved :
    (c : ℕ) (cs : Bytes)
    → is_unreserved c ≡ false
    → percent_encode (c ∷ cs) ≡ b'%' ∷ hex_digit (c / 16) ∷ hex_digit (c % 16) ∷ percent_encode cs
unfolding percent_encode
percent_encode_reserved c cs h = rw h refl

unreserved_is_no_escape : (c : ℕ) → is_unreserved c ≡ true → (c == b'%') ≡ false
unfolding is_unreserved
unreserved_is_no_escape c h = ground arith

pub percent_encode-decode :
    (plain : ℕ → ℕ) (keeps : (c : ℕ) → is_unreserved c ≡ true → plain c ≡ c) (s rest : Bytes)
    → All IsByte s
    → decode_with plain (percent_encode s ++ rest) ≡ s ++ decode_with plain rest
percent_encode-decode plain keeps [] rest h = rw percent_encode_nil refl
percent_encode-decode plain keeps (c ∷ s) rest h =
    let later = percent_encode-decode plain keeps s rest h.1 in
    elim (Bool-cases (is_unreserved c)) [
      | inl e ↦
          rw
            (
              percent_encode_unreserved c s e,
              decode_with-plain plain c (percent_encode s ++ rest) (unreserved_is_no_escape c e),
              keeps c e,
              later,
            )
            refl
      | inr e ↦
          rw
            (
              percent_encode_reserved c s e,
              decode_with-escape plain c (percent_encode s ++ rest) h.0,
              later,
            )
            refl
    ]

pub plus_as_space-keeps : (c : ℕ) → is_unreserved c ≡ true → Plain.plus_as_space c ≡ c
unfolding is_unreserved
plus_as_space-keeps c h = ground arith

decode_with_nil : (plain : ℕ → ℕ) → decode_with plain [] ≡ []
unfolding decode_with
decode_with_nil plain = refl

decode_with-unescaped :
    (plain : ℕ → ℕ) (a c : ℕ) (rest : Bytes)
    → is_xdigit c ≡ false
    → (decode_with plain (a ∷ c ∷ rest) ≡ plain a ∷ decode_with plain (c ∷ rest))
      × ((b : ℕ)
          → decode_with plain (a ∷ b ∷ c ∷ rest) ≡ plain a ∷ decode_with plain (b ∷ c ∷ rest))
unfolding decode_with
decode_with-unescaped plain a c [] h = (refl, λ b. ground (arith, h))
decode_with-unescaped plain a c (e ∷ rest) h = (ground (arith, h), λ b. ground (arith, h))

-- A byte that is no hexadecimal digit parts what is decoded before it from what is decoded behind it.
pub decode_with-split :
    (plain : ℕ → ℕ) (c : ℕ) (s rest : Bytes)
    → is_xdigit c ≡ false
    → (c == b'%') ≡ false
    → decode_with plain (s ++ c ∷ rest) ≡ decode_with plain s ++ plain c ∷ decode_with plain rest
unfolding decode_with
decode_with-split plain c [] rest h p = decode_with-plain plain c rest p
decode_with-split plain c (a ∷ []) rest h p =
    (decode_with-unescaped plain a c rest h).0
    ∙ ap (◌∷◌ (plain a)) (decode_with-plain plain c rest p)
decode_with-split plain c (a ∷ b ∷ []) rest h p =
    (decode_with-unescaped plain a c rest h).1 b
    ∙ ap (◌∷◌ (plain a)) (decode_with-split plain c (b ∷ []) rest h p)
decode_with-split plain c (a ∷ b ∷ d ∷ s) rest h p =
    ground
      (arith, decode_with-split plain c s rest h p, decode_with-split plain c (b ∷ d ∷ s) rest h p)

-- Decoding makes nothing longer, so `decoded_buffer` has place for whatever `request_buffer` holds.
pub length-decode_with : (plain : ℕ → ℕ) (s : Bytes) → length (decode_with plain s) ≤ length s
unfolding decode_with
length-decode_with plain [] = omega arith
length-decode_with plain (c ∷ []) = omega arith
length-decode_with plain (c ∷ d ∷ []) = omega (arith, length-decode_with plain (d ∷ []))
length-decode_with plain (c ∷ d ∷ e ∷ s) =
    ground (arith, length-decode_with plain s, length-decode_with plain (d ∷ e ∷ s))

decode_encoded :
    (plain : ℕ → ℕ) (keeps : (c : ℕ) → is_unreserved c ≡ true → plain c ≡ c) (s : Bytes)
    → All IsByte s
    → decode_with plain (percent_encode s) ≡ s
decode_encoded plain keeps s h =
    ap (decode_with plain) (sym (append_nil (percent_encode s)))
    ∙ (percent_encode-decode plain keeps s [] h
        ∙ (ap (◌++◌ s) (decode_with_nil plain) ∙ append_nil s))

-- Both decoders undo percent-encoding: whatever bytes a name has, the encoded name decodes to it.
pub url_decode-percent_encode :
    (s : Bytes)
    → All IsByte s
    → (Plain.url_decode (percent_encode s) ≡ s) × (Secure.url_decode (percent_encode s) ≡ s)
unfolding Plain.url_decode Secure.url_decode
url_decode-percent_encode s h = (
  decode_encoded Plain.plus_as_space plus_as_space-keeps s h,
  decode_encoded (λ c. c) (λ c e. refl) s h,
)

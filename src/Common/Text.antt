-- ===== src/Common/Text.antt =====
-- The text routines of the C and C++ libraries that the programs call: words of a line, `stoi`,
-- `to_string`, `tolower`, `find`, `strstr`, `replace` and `<` on strings.
use inp.Common.{
  ℕ, zero, suc, ◌+◌, ◌-◌, ◌*◌, ◌/◌, ◌%◌, ◌^◌, Bool, true, false, ◌&&◌, ◌||◌, List, [], ◌∷◌, ◌++◌,
  Option, none, some, ltb, leb, ◌==◌, if◌then◌else◌, take, drop,
}
use inp.Common.Bytes.{Bytes}
use mathlib.Core.Option

unfoldable pub is_space : ℕ → Bool
is_space c = c == 32 || (leb 9 c && leb c 13)

abbrev pub flush : Bytes → List Bytes → List Bytes
flush [] rest = rest
flush (c ∷ word) rest = (c ∷ word) ∷ rest

-- The words of an `istringstream`, with the word that is being read.
unfoldable pub words_from : Bytes → Bytes → List Bytes
words_from word [] = flush word []
words_from word (c ∷ cs) = elim (is_space c) [
  | true ↦ flush word (words_from [] cs)
  | false ↦ words_from (word ++ c ∷ []) cs
]

unfoldable pub tokenize : Bytes → List Bytes
unfolding words_from is_space
tokenize line = words_from [] line

unfoldable pub to_lower : ℕ → ℕ
to_lower c = if leb 65 c && leb c 90 then c + 32 else c

unfoldable pub starts_with : Bytes → Bytes → Bool
starts_with [] s = true
starts_with (w ∷ ws) [] = false
starts_with (w ∷ ws) (c ∷ s) = w == c && starts_with ws s

-- `s.find(word)`, where `none` is `npos`.
unfoldable pub find : Bytes → Bytes → Option ℕ
unfolding starts_with
find word [] = if starts_with word [] then some 0 else none
find word (c ∷ s) = if starts_with word (c ∷ s) then some 0 else Option.map suc (find word s)

-- `s.replace(pos, n, t)`
unfoldable pub replace : Bytes → ℕ → ℕ → Bytes → Bytes
replace s pos n t = take pos s ++ (t ++ drop (pos + n) s)

unfoldable pub bytes_lt : Bytes → Bytes → Bool
bytes_lt xs [] = false
bytes_lt [] (y ∷ ys) = true
bytes_lt (x ∷ xs) (y ∷ ys) = ltb x y || (x == y && bytes_lt xs ys)

-- An `int`: `negsuc n` is -(n + 1).
pub data ℤ : Type 0 where
  pos : ℕ → ℤ
  negsuc : ℕ → ℤ

-- How `std::stoi` ends: `invalid` is `std::invalid_argument`, `out_of_range` is
-- `std::out_of_range`.
pub data Parsed : Type 0 where
  invalid out_of_range : Parsed
  number : ℤ → Parsed

abbrev pub is_digit : ℕ → Bool
is_digit c = leb 48 c && leb c 57

abbrev pub value_or_zero : Option ℕ → ℕ
value_or_zero none = 0
value_or_zero (some n) = n

-- The value of the digits in front; `none` where there is none.
unfoldable pub leading_number : Bytes → Option ℕ → Option ℕ
leading_number [] acc = acc
leading_number (c ∷ cs) acc =
    let rest = leading_number cs (some (value_or_zero acc * 10 + (c - 48))) in
    if is_digit c then rest else acc

abbrev pub in_range : Bool → ℕ → Parsed
in_range negative n =
    if negative
    then (if ltb (2 ^ 31) n
        then out_of_range
        else if n == 0
        then number (pos 0)
        else number (negsuc (n - 1)))
    else if ltb n (2 ^ 31)
    then number (pos n)
    else out_of_range

abbrev pub signed : Bool → Bytes → Parsed
signed negative cs = elim (leading_number cs none) [ none ↦ invalid | some n ↦ in_range negative n ]

unfoldable pub skip_spaces : Bytes → Bytes
unfolding is_space
skip_spaces [] = []
skip_spaces (c ∷ cs) = let rest = skip_spaces cs in if is_space c then rest else c ∷ cs

abbrev pub after_sign : Bytes → Parsed
after_sign [] = invalid
after_sign (c ∷ cs) =
    if c == b'-'
    then signed true cs
    else if c == b'+'
    then signed false cs
    else signed false (c ∷ cs)

unfoldable pub stoi : Bytes → Parsed
unfolding leading_number skip_spaces
stoi s = after_sign (skip_spaces s)

-- The decimal digits of a number below `10 ^ fuel`.
unfoldable pub digits : ℕ → ℕ → Bytes
digits zero n = []
digits (suc fuel) n = elim (ltb n 10) [
  | true ↦ (48 + n) ∷ []
  | false ↦ digits fuel (n / 10) ++ (48 + n % 10) ∷ []
]

-- An `int` has ten digits at most.
unfoldable pub to_string : ℕ → Bytes
unfolding digits
to_string n = digits 10 n

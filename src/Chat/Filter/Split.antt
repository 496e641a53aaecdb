-- ===== src/Chat/Filter/Split.antt =====
-- `find` and `replace` against the parts of a text before, at and behind a place.
use mathlib.Core.List.{map-append}
use mathlib.Core.Option
use native.Mathlib.Nat.{zero-add}
use inp.Common.{
  ℕ, zero, suc, ◌+◌, ◌≤◌, ◌≡◌, ◌≢◌, refl, ap, sym, ◌∙◌, inl, inr, true, [], ◌∷◌, ◌++◌, map, Option,
  none, some, arith, length, take, drop, take-append-drop, length-take, length-drop, Bool-cases,
}
use inp.Common.Bytes.{Bytes}
use inp.Common.Text.{starts_with, find, replace}

-- The word stands in the text at the place.
abbrev pub At : Bytes → ℕ → Bytes → Type 0
At word place s =
    (before : Bytes) × (after : Bytes) × (s ≡ before ++ (word ++ after)) × (length before ≡ place)

starts_with_split :
    (word s : Bytes) → starts_with word s ≡ true → (after : Bytes) × (s ≡ word ++ after)
unfolding starts_with
starts_with_split [] s h = (s, refl)
starts_with_split (w ∷ ws) [] h = absurd (ground arith)
starts_with_split (w ∷ ws) (c ∷ s) h =
    let (after, e) = starts_with_split ws s (ground arith) in
    let same : w ≡ c = ground arith in (after, cc)

starts_with-append : (word after : Bytes) → starts_with word (word ++ after) ≡ true
unfolding starts_with
starts_with-append [] after = refl
starts_with-append (w ∷ ws) after = ground (arith, starts_with-append ws after)

pub find-At : (word s : Bytes) (place : ℕ) → find word s ≡ some place → At word place s
unfolding find
find-At word [] place h = elim (Bool-cases (starts_with word [])) [
  | inl e ↦ let (after, q) = starts_with_split word [] e in ([], after, q, ground arith)
  | inr e ↦ absurd (ground arith)
]
find-At word (c ∷ s) place h = elim (Bool-cases (starts_with word (c ∷ s))) [
  | inl e ↦ let (after, q) = starts_with_split word (c ∷ s) e in ([], after, q, ground arith)
  | inr e ↦ later (find-At word s) (find word s) refl (rw (e, find) at h)
]
  where
    later :
        ((p : ℕ) → find word s ≡ some p → At word p s)
        → (r : Option ℕ) → find word s ≡ r
        → Option.map suc r ≡ some place
        → At word place (c ∷ s)
    later ih none q k = absurd (ground arith)
    later ih (some p) q k =
        let (before, after, split, len) = ih p q in
        (c ∷ before, after, ap (◌∷◌ c) split, ground arith)

-- Where `find` gives `npos`, the word stands nowhere.
pub find-none : (word s before after : Bytes) → find word s ≡ none → s ≢ before ++ (word ++ after)
unfolding find
find-none word [] [] after h e =
    let q = starts_with-append word after in ground (arith, ap (starts_with word) e)
find-none word [] (b ∷ before) after h e = cc
find-none word (c ∷ s) [] after h e =
    let q = starts_with-append word after in ground (arith, ap (starts_with word) e)
find-none word (c ∷ s) (b ∷ before) after h e = find-none word s before after (ground arith) (cc)

take_all : (xs ys : Bytes) → take (length xs) (xs ++ ys) ≡ xs
take_all [] ys = refl
take_all (x ∷ xs) ys = ap (◌∷◌ x) (take_all xs ys)

drop_all : (xs ys : Bytes) → drop (length xs) (xs ++ ys) ≡ ys
drop_all [] ys = refl
drop_all (x ∷ xs) ys = drop_all xs ys

drop-nil : (n : ℕ) → drop {A = ℕ} n [] ≡ []
drop-nil zero = refl
drop-nil (suc n) = refl

pub drop-drop : (m n : ℕ) (xs : Bytes) → drop n (drop m xs) ≡ drop (m + n) xs
drop-drop zero n xs = rw zero-add
drop-drop (suc m) n [] = drop-nil n ∙ sym (drop-nil (suc m + n))
drop-drop (suc m) n (x ∷ xs) =
    let e : suc m + n ≡ suc (m + n) = omega arith in rw e (drop-drop m n xs)

-- `replace` at the end of the part before puts the new text between the outer parts.
pub replace-At :
    (before word after t : Bytes)
    → replace (before ++ (word ++ after)) (length before) (length word) t ≡ before ++ (t ++ after)
unfolding replace
replace-At before word after t = rw (
  take_all before (word ++ after),
  ← drop-drop (length before) (length word) (before ++ (word ++ after)),
  drop_all before (word ++ after),
  drop_all word after,
)

map-take : (f : ℕ → ℕ) (n : ℕ) (xs : Bytes) → map f (take n xs) ≡ take n (map f xs)
map-take f zero xs = refl
map-take f (suc n) [] = refl
map-take f (suc n) (x ∷ xs) = ap (◌∷◌ (f x)) (map-take f n xs)

map-drop : (f : ℕ → ℕ) (n : ℕ) (xs : Bytes) → map f (drop n xs) ≡ drop n (map f xs)
map-drop f zero xs = refl
map-drop f (suc n) [] = refl
map-drop f (suc n) (x ∷ xs) = map-drop f n xs

pub map-replace :
    (f : ℕ → ℕ) (s : Bytes) (place n : ℕ) (t : Bytes)
    → map f (replace s place n t) ≡ replace (map f s) place n (map f t)
unfolding replace
map-replace f s place n t = simp (map-append, map-take, map-drop)

-- A text of which the part behind the place is long enough, in its parts.
pub split_at :
    (place n : ℕ) (s : Bytes)
    → place + n ≤ length s
    → (before : Bytes) × (word : Bytes) × (after : Bytes) × (s ≡ before ++ (word ++ after))
      × (length before ≡ place)
      × (length word ≡ n)
split_at place n s h = (
  take place s,
  take n (drop place s),
  drop n (drop place s),
  sym (ap (◌++◌ (take place s)) (take-append-drop n (drop place s)) ∙ take-append-drop place s),
  omega (arith, length-take place s),
  omega (arith, length-take n (drop place s), length-drop place s),
)

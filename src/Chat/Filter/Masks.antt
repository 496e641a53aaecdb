-- ===== src/Chat/Filter/Masks.antt =====
-- A text with some of its bytes replaced by stars, against which words still occur in it.
use inp.Common.{suc, ◌≡◌, ◌≢◌, refl, ap, ◌⊎◌, inl, true, [], ◌∷◌, none, arith, length, All}
use inp.Common.Bytes.{Bytes}
use inp.Common.Text.{starts_with, find}
use inp.Chat.Filter.{star}

-- The second text is the first with some bytes masked.
abbrev pub Masks : Bytes → Bytes → Type 0
Masks [] [] = Unit
Masks [] (y ∷ ys) = ⊥
Masks (x ∷ xs) [] = ⊥
Masks (x ∷ xs) (y ∷ ys) = ((y ≡ x) ⊎ (y ≡ star)) × Masks xs ys

pub Masks-refl : (xs : Bytes) → Masks xs xs
Masks-refl [] = tt
Masks-refl (x ∷ xs) = (inl refl, Masks-refl xs)

pub Masks-trans : (xs ys zs : Bytes) → Masks xs ys → Masks ys zs → Masks xs zs
Masks-trans [] [] [] h k = tt
Masks-trans [] [] (z ∷ zs) h k = elim k [ ]
Masks-trans [] (y ∷ ys) zs h k = elim h [ ]
Masks-trans (x ∷ xs) [] zs h k = elim h [ ]
Masks-trans (x ∷ xs) (y ∷ ys) [] h k = elim k [ ]
Masks-trans (x ∷ xs) (y ∷ ys) (z ∷ zs) h k = ground (arith, Masks-trans xs ys zs h.1 k.1)

pub length-Masks : (xs ys : Bytes) → Masks xs ys → length ys ≡ length xs
length-Masks [] [] h = refl
length-Masks [] (y ∷ ys) h = elim h [ ]
length-Masks (x ∷ xs) [] h = elim h [ ]
length-Masks (x ∷ xs) (y ∷ ys) h = ap suc (length-Masks xs ys h.1)

-- Every byte of the word is another than the star.
abbrev pub IsStarFree : Bytes → Type 0
IsStarFree = All (λ c. c ≢ star)

starts_with-Masks :
    (w xs ys : Bytes)
    → IsStarFree w
    → Masks xs ys
    → starts_with w ys ≡ true
    → starts_with w xs ≡ true
unfolding starts_with
starts_with-Masks [] xs ys f m h = refl
starts_with-Masks (w ∷ ws) [] [] f m h = h
starts_with-Masks (w ∷ ws) [] (y ∷ ys) f m h = elim m [ ]
starts_with-Masks (w ∷ ws) (x ∷ xs) [] f m h = elim m [ ]
starts_with-Masks (w ∷ ws) (x ∷ xs) (y ∷ ys) f m h =
    ground (arith, starts_with-Masks ws xs ys f.1 m.1)

-- Masking brings no word without stars about.
pub find-Masks :
    (w xs ys : Bytes) → IsStarFree w → Masks xs ys → find w xs ≡ none → find w ys ≡ none
unfolding find
find-Masks w [] [] f m h = h
find-Masks w [] (y ∷ ys) f m h = elim m [ ]
find-Masks w (x ∷ xs) [] f m h = elim m [ ]
find-Masks w (x ∷ xs) (y ∷ ys) f m h =
    ground (arith, starts_with-Masks w (x ∷ xs) (y ∷ ys) f m, find-Masks w xs ys f m.1)

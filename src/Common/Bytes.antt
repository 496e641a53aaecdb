-- ===== src/Common/Bytes.antt =====
-- `std::string` as the list of its bytes.
use Prim.Native.Char.{code}
use Prim.Native.String.{String}
use Prim.Native.Nat.{ℕ}
use mathlib.Core.Path.{◌≡◌}
use mathlib.Core.Logic.{◌↔◌}
use mathlib.Core.Bool.{Bool, true, false, ◌&&◌, ◌||◌}
use mathlib.Core.List.{List, [], ◌∷◌}
use native.Mathlib.Omega.{arith}
use inp.Common.Tests.{◌==◌, if◌then◌else◌}

abbrev pub Bytes : Type 0
Bytes = List ℕ

-- A string literal. It stays shut, so that a proof never runs through its bytes.
unfoldable pub text : String → Bytes
text String.[] = []
text (String.◌∷◌ c s) = code c ∷ text s

-- `a == b`
unfoldable pub bytes_eq : Bytes → Bytes → Bool
bytes_eq [] [] = true
bytes_eq [] (y ∷ ys) = false
bytes_eq (x ∷ xs) [] = false
bytes_eq (x ∷ xs) (y ∷ ys) = x == y && bytes_eq xs ys

pub bytes_eq_iff : (xs ys : Bytes) → (bytes_eq xs ys ≡ true) ↔ (xs ≡ ys)
unfolding bytes_eq
bytes_eq_iff [] [] = ground arith
bytes_eq_iff [] (y ∷ ys) = ground arith
bytes_eq_iff (x ∷ xs) [] = ground arith
bytes_eq_iff (x ∷ xs) (y ∷ ys) = ground (arith, bytes_eq_iff xs ys)

-- `std::set<std::string>`, of which the program never reads the order.
unfoldable pub member : Bytes → List Bytes → Bool
member a [] = false
member a (x ∷ xs) = bytes_eq a x || member a xs

unfoldable pub insert : Bytes → List Bytes → List Bytes
insert a xs = if member a xs then xs else a ∷ xs

unfoldable pub erase : Bytes → List Bytes → List Bytes
erase a [] = []
erase a (x ∷ xs) = if bytes_eq a x then erase a xs else x ∷ erase a xs

pub member-insert :
    (a b : Bytes) (xs : List Bytes)
    → member b (insert a xs) ≡ (if bytes_eq a b then true else member b xs)
unfolding member insert
member-insert a b xs = ground (arith, bytes_eq_iff a b, bytes_eq_iff b a)

pub member-erase :
    (a b : Bytes) (xs : List Bytes)
    → member b (erase a xs) ≡ (if bytes_eq a b then false else member b xs)
unfolding member erase
member-erase a b [] = ground arith
member-erase a b (x ∷ xs) =
    ground (arith, bytes_eq_iff a b, bytes_eq_iff b x, bytes_eq_iff a x, member-erase a b xs)

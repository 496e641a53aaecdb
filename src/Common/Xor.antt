-- ===== src/Common/Xor.antt =====
-- Exclusive or: its lowest digit, its bound, and that it takes itself back.
use Prim.Native.Nat.{
  ℕ, zero, suc, ◌+◌, ◌*◌, ◌/◌, ◌%◌, ◌^◌, ◌≤◌, ◌<◌, bit_xor, digits, differ, bit_xor-bitwise,
}
use mathlib.Core.Path.{◌≡◌, refl, ap, sym, ◌∙◌}
use native.Mathlib.Omega.{arith}

abbrev xor_digits : ℕ → ℕ → ℕ → ℕ
xor_digits n a b = digits (λ b. b) differ n a b

xor_digits_fuel : (n m a b : ℕ) → a ≤ n → a ≤ m → xor_digits n a b ≡ xor_digits m a b
xor_digits_fuel zero zero a b p q = refl
xor_digits_fuel zero (suc m) zero b p q = refl
xor_digits_fuel zero (suc m) (suc a) b p q = absurd (omega arith)
xor_digits_fuel (suc n) zero zero b p q = refl
xor_digits_fuel (suc n) zero (suc a) b p q = absurd (omega arith)
xor_digits_fuel (suc n) (suc m) zero b p q = refl
xor_digits_fuel (suc n) (suc m) (suc a) b p q =
    omega (arith, xor_digits_fuel n m (suc a / 2) (b / 2) (omega arith) (omega arith))

pub zero-bit_xor : (b : ℕ) → bit_xor 0 b ≡ b
zero-bit_xor b = bit_xor-bitwise 0 b

differ_lem : (x y : ℕ) → x < 2 → y < 2 → differ x y ≡ (x + y) % 2
differ_lem zero zero p q = refl
differ_lem zero (suc zero) p q = refl
differ_lem (suc zero) zero p q = refl
differ_lem (suc zero) (suc zero) p q = refl
differ_lem zero (suc (suc y)) p q = absurd (omega arith)
differ_lem (suc zero) (suc (suc y)) p q = absurd (omega arith)
differ_lem (suc (suc x)) y p q = absurd (omega arith)

-- The digits of the result are the sums of the digits modulo 2.
pub bit_xor_step : (a b : ℕ) → bit_xor a b ≡ bit_xor (a / 2) (b / 2) * 2 + (a % 2 + b % 2) % 2
bit_xor_step zero b = omega (arith, zero-bit_xor b, zero-bit_xor (b / 2))
bit_xor_step (suc a) b = omega (
  arith,
  bit_xor-bitwise (suc a) b,
  bit_xor-bitwise (suc a / 2) (b / 2),
  differ_lem (suc a % 2) (b % 2) (omega arith) (omega arith),
  xor_digits_fuel a (suc a / 2) (suc a / 2) (b / 2) (omega arith) (omega arith),
)

pub half : (a b : ℕ) → bit_xor a b / 2 ≡ bit_xor (a / 2) (b / 2)
half a b = omega (arith, bit_xor_step a b)

none : (n : ℕ) → n ≤ 0 → n ≡ 0
none n h = omega arith

none_pow : (n : ℕ) → n < 2 ^ 0 → n ≡ 0
none_pow n h = omega arith

-- A second exclusive or with the same number undoes the first.
pub bit_xor-bit_xor : (n a b : ℕ) → a ≤ n → b ≤ n → bit_xor (bit_xor a b) b ≡ a
bit_xor-bit_xor zero a b p q = rw (none a p, none b q) refl
bit_xor-bit_xor (suc n) a b p q = omega (
  arith,
  bit_xor_step a b,
  bit_xor_step (bit_xor a b) b,
  bit_xor-bit_xor n (a / 2) (b / 2) (omega arith) (omega arith),
  ap (λ x. bit_xor x (b / 2)) (half a b),
)

pub bit_xor_cancel : (a b k : ℕ) → bit_xor a k ≡ bit_xor b k → a ≡ b
bit_xor_cancel a b k e =
    sym (bit_xor-bit_xor (a + b + k) a k (omega arith) (omega arith))
    ∙ (ap (λ x. bit_xor x k) e ∙ bit_xor-bit_xor (a + b + k) b k (omega arith) (omega arith))

pub bit_xor_comm : (n a b : ℕ) → a ≤ n → b ≤ n → bit_xor a b ≡ bit_xor b a
bit_xor_comm zero a b p q = rw (none a p, none b q) refl
bit_xor_comm (suc n) a b p q = omega (
  arith,
  bit_xor_step a b,
  bit_xor_step b a,
  bit_xor_comm n (a / 2) (b / 2) (omega arith) (omega arith),
)

pub bit_xor_lt : (w a b : ℕ) → a < 2 ^ w → b < 2 ^ w → bit_xor a b < 2 ^ w
bit_xor_lt zero a b p q = rw (none_pow a p, none_pow b q) (omega arith)
bit_xor_lt (suc w) a b p q =
    omega (arith, bit_xor_step a b, bit_xor_lt w (a / 2) (b / 2) (omega arith) (omega arith))

half_top : (w b : ℕ) → (2 ^ suc w + b) / 2 ≡ 2 ^ w + b / 2
half_top w b = omega arith

-- A digit above those of the other number stays.
pub bit_xor_top : (w a b : ℕ) → a < 2 ^ w → b < 2 ^ w → bit_xor a (2 ^ w + b) ≡ 2 ^ w + bit_xor a b
bit_xor_top zero a b p q = rw (none_pow a p, none_pow b q) refl
bit_xor_top (suc w) a b p q = omega (
  arith,
  bit_xor_step a b,
  bit_xor_step a (2 ^ suc w + b),
  ap (bit_xor (a / 2)) (half_top w b),
  bit_xor_top w (a / 2) (b / 2) (omega arith) (omega arith),
)

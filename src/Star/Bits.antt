-- ===== src/Star/Bits.antt =====
-- The bits of a `bitset` in the bytes of a packet, for lab6/others/Star/src.
use inp.Common.{
  ℕ, zero, suc, ◌+◌, ◌*◌, ◌/◌, ◌%◌, ◌^◌, ◌<◌, ◌≡◌, inl, inr, refl, sym, ap, ◌∙◌, Bool, true, false,
  ◌==◌, if◌then◌else◌, length, get_or, get_or-set, set, length-set, Bool-cases, arith,
}
use inp.Common.Bytes.{Bytes}
use native.Mathlib.Nat.{div-div-eq-div-mul, pow-succ'}
use inp.Star.{bit_at}
use inp.Star.Server.{set_bit}

half_pow : (n q : ℕ) → n / 2 ^ suc q ≡ n / 2 / 2 ^ q
half_pow n q = ap (◌/◌ n) (pow-succ' 2 q) ∙ sym (div-div-eq-div-mul n 2 (2 ^ q))

-- Adding a power of two whose digit is not set sets that digit and no other.
digit_added :
    (p q b : ℕ)
    → b / 2 ^ p % 2 ≡ 0
    → (b + 2 ^ p) / 2 ^ q % 2 ≡ (if p == q then 1 else b / 2 ^ q % 2)
digit_added zero zero b h = omega (arith, h)
digit_added zero (suc q) b h =
    let half_same : (b + 1) / 2 ≡ b / 2 = omega (arith, h) in
    let other : (0 == suc q) ≡ false = ground arith in
    rw (other, half_pow (b + 1) q, half_pow b q, half_same) refl
digit_added (suc p) zero b h =
    let double : 2 ^ suc p ≡ 2 * 2 ^ p = pow-succ' 2 p in
    let other : (suc p == 0) ≡ false = ground arith in rw (other, double) (omega arith)
digit_added (suc p) (suc q) b h =
    let double : 2 ^ suc p ≡ 2 * 2 ^ p = pow-succ' 2 p in
    let half_sum : (b + 2 ^ suc p) / 2 ≡ b / 2 + 2 ^ p = omega (arith, double) in
    let clear : b / 2 / 2 ^ p % 2 ≡ 0 = ap (λ x. x % 2) (sym (half_pow b p)) ∙ h in
    let same : (suc p == suc q) ≡ (p == q) = ground arith in
    rw (same, half_pow (b + 2 ^ suc p) q, half_pow b q, half_sum) (digit_added p q (b / 2) clear)

bit_of : ℕ → ℕ → Bool
bit_of b q = b / 2 ^ q % 2 == 1

bit_added :
    (p q b : ℕ) → bit_of b p ≡ false → bit_of (b + 2 ^ p) q ≡ (if p == q then true else bit_of b q)
unfolding bit_of
bit_added p q b h =
    let clear : b / 2 ^ p % 2 ≡ 0 = ground (arith, h) in ground (arith, digit_added p q b clear)

bit_at_lem : (bits : Bytes) (i : ℕ) → bit_at bits i ≡ bit_of (get_or bits (i / 8) 0) (i % 8)
unfolding bit_at bit_of
bit_at_lem bits i = refl

set_bit_set : (bits : Bytes) (i : ℕ) → bit_at bits i ≡ true → set_bit bits i ≡ bits
unfolding set_bit
set_bit_set bits i h = rw h refl

set_bit_clear :
    (bits : Bytes) (i : ℕ)
    → bit_at bits i ≡ false
    → set_bit bits i ≡ set bits (i / 8) (get_or bits (i / 8) 0 + 2 ^ (i % 8))
unfolding set_bit
set_bit_clear bits i h = rw h refl

pub length-set_bit : (bits : Bytes) (i : ℕ) → length (set_bit bits i) ≡ length bits
length-set_bit bits i = elim (Bool-cases (bit_at bits i)) [
  | inl on ↦ ap length (set_bit_set bits i on)
  | inr off ↦ ap length (set_bit_clear bits i off) ∙ length-set bits (i / 8) _
]

already :
    (bits : Bytes) (i j : ℕ)
    → bit_at bits i ≡ true
    → bit_at bits j ≡ (if i == j then true else bit_at bits j)
already bits i j on = elim (Bool-cases (i == j)) [
  | inl e ↦ let same : j ≡ i = ground (arith, e) in rw (e, same) on
  | inr e ↦ rw e refl
]

same_place : (i j : ℕ) → (i / 8 == j / 8) ≡ true → (i % 8 == j % 8) ≡ (i == j)
same_place i j h = ground (arith, h)

added_at :
    (bits : Bytes) (i j : ℕ)
    → i / 8 < length bits
    → bit_of (get_or bits (i / 8) 0) (i % 8) ≡ false
    → bit_of (get_or (set bits (i / 8) (get_or bits (i / 8) 0 + 2 ^ (i % 8))) (j / 8) 0) (j % 8)
      ≡ (if i == j then true else bit_of (get_or bits (j / 8) 0) (j % 8))
added_at bits i j inside off =
    let b = get_or bits (i / 8) 0 in
    let write = get_or-set bits (i / 8) (j / 8) (b + 2 ^ (i % 8)) 0 inside in
    elim (Bool-cases (i / 8 == j / 8)) [
      | inl e ↦
          let place : j / 8 ≡ i / 8 = ground (arith, e) in
          rw (write, e, bit_added (i % 8) (j % 8) b off, same_place i j e, place) refl
      | inr e ↦ let apart : (i == j) ≡ false = ground (arith, e) in rw (write, e, apart) refl
    ]

-- A bit that is set is set, and the others stay as they are.
pub bit_at-set_bit :
    (bits : Bytes) (i j : ℕ)
    → i / 8 < length bits
    → bit_at (set_bit bits i) j ≡ (if i == j then true else bit_at bits j)
bit_at-set_bit bits i j inside = elim (Bool-cases (bit_at bits i)) [
  | inl on ↦ rw (set_bit_set bits i on) (already bits i j on)
  | inr off ↦
      rw (set_bit_clear bits i off, bit_at_lem bits j, bit_at_lem _ j)
        (added_at bits i j inside (sym (bit_at_lem bits i) ∙ off))
]

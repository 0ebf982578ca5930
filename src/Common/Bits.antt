-- ===== src/Common/Bits.antt =====
-- `&` and `|` on 32-bit masks: the lowest digit, a mask of leading ones, and a mask joined with
-- its complement.
use Prim.Native.Nat.{
  ℕ, zero, suc, ◌+◌, ◌-◌, ◌*◌, ◌/◌, ◌%◌, ◌^◌, ◌≤◌, ◌<◌, min, max, bit_and, bit_or, digits, bitwise,
  bit_and-bitwise, bit_or-bitwise,
}
use mathlib.Core.Path.{◌≡◌, refl, ◌∙◌, ap, ap₂}
use native.Mathlib.Omega.{arith}
use native.Mathlib.Nat.{two-pow-succ, one-le-pow}

module _ (ends : ℕ → ℕ) (join : ℕ → ℕ → ℕ) where
  -- Any two fuels that cover the first number give the same digits.
  same_digits :
      (fuel more x y : ℕ)
      → x ≤ fuel
      → x ≤ more
      → digits ends join fuel x y ≡ digits ends join more x y
  same_digits zero zero x y p q = refl
  same_digits (suc fuel) (suc more) zero y p q = refl
  same_digits zero (suc more) zero y p q = refl
  same_digits (suc fuel) zero zero y p q = refl
  same_digits zero (suc more) (suc x) y p q = absurd (omega arith)
  same_digits (suc fuel) zero (suc x) y p q = absurd (omega arith)
  same_digits (suc fuel) (suc more) (suc x) y p q =
      ap (λ (d : ℕ). d * 2 + join (suc x % 2) (y % 2))
        (same_digits fuel more (suc x / 2) (y / 2) (omega arith) (omega arith))

  lowest_digit :
      (x y : ℕ)
      → bitwise ends join (suc x) y
        ≡ bitwise ends join (suc x / 2) (y / 2) * 2 + join (suc x % 2) (y % 2)
  lowest_digit x y =
      ap (λ (d : ℕ). d * 2 + join (suc x % 2) (y % 2))
        (same_digits x (suc x / 2) (suc x / 2) (y / 2) (omega arith) (omega arith))

pub bit_and-digit : (x y : ℕ) → bit_and x y ≡ bit_and (x / 2) (y / 2) * 2 + min (x % 2) (y % 2)
bit_and-digit zero y = omega (arith, bit_and-bitwise 0 y, bit_and-bitwise 0 (y / 2))
bit_and-digit (suc x) y = omega (
  arith,
  bit_and-bitwise (suc x) y,
  bit_and-bitwise (suc x / 2) (y / 2),
  lowest_digit (λ b. zero) min x y,
)

pub bit_or-digit : (x y : ℕ) → bit_or x y ≡ bit_or (x / 2) (y / 2) * 2 + max (x % 2) (y % 2)
bit_or-digit zero y = omega (arith, bit_or-bitwise 0 y, bit_or-bitwise 0 (y / 2))
bit_or-digit (suc x) y = omega (
  arith,
  bit_or-bitwise (suc x) y,
  bit_or-bitwise (suc x / 2) (y / 2),
  lowest_digit (λ b. b) max x y,
)

bit_and-nothing_fuel : (fuel x : ℕ) → x ≤ fuel → bit_and x 0 ≡ 0
bit_and-nothing_fuel zero x h = let e : x ≡ 0 = omega arith in rw e
bit_and-nothing_fuel (suc fuel) x h =
    omega (arith, bit_and-digit x 0, bit_and-nothing_fuel fuel (x / 2) (omega arith))

pub bit_and-nothing : (x : ℕ) → bit_and x 0 ≡ 0
bit_and-nothing x = bit_and-nothing_fuel x x (omega arith)

-- What a mask keeps and the complement of the mask have no digit in common.
pub masked-or-complement :
    (w x m : ℕ) → m < 2 ^ w → bit_or (bit_and x m) (2 ^ w - 1 - m) ≡ bit_and x m + (2 ^ w - 1 - m)
masked-or-complement zero x m h = let e : m ≡ 0 = omega arith in rw (e, bit_and-nothing x)
masked-or-complement (suc w) x m h = omega (
  arith,
  two-pow-succ w,
  bit_and-digit x m,
  bit_or-digit (bit_and x m) (2 ^ suc w - 1 - m),
  halves,
  masked-or-complement w (x / 2) (m / 2) (omega (arith, two-pow-succ w)),
)
  where
    low : bit_and x m / 2 ≡ bit_and (x / 2) (m / 2)
    low = omega (arith, bit_and-digit x m)

    high : (2 ^ suc w - 1 - m) / 2 ≡ 2 ^ w - 1 - m / 2
    high = omega (arith, two-pow-succ w)

    halves :
        bit_or (bit_and x m / 2) ((2 ^ suc w - 1 - m) / 2)
        ≡ bit_or (bit_and (x / 2) (m / 2)) (2 ^ w - 1 - m / 2)
    halves = rw (low, high)

-- A mask of ones keeps a number that fits.
bit_and-ones : (p x : ℕ) → x < 2 ^ p → bit_and x (2 ^ p - 1) ≡ x
bit_and-ones zero x h = let e : x ≡ 0 = omega arith in rw e
bit_and-ones (suc p) x h =
    let e : (2 ^ suc p - 1) / 2 ≡ 2 ^ p - 1 = omega (arith, two-pow-succ p, one-le-pow p 2) in
    omega (
      arith,
      two-pow-succ p,
      one-le-pow p 2,
      bit_and-digit x (2 ^ suc p - 1),
      ap (bit_and (x / 2)) e,
      bit_and-ones p (x / 2) (omega (arith, two-pow-succ p)),
    )

-- A mask of ones above `k` zeros clears the low digits.
pub bit_and-leading :
    (k p q r : ℕ)
    → q < 2 ^ p
    → r < 2 ^ k
    → bit_and (q * 2 ^ k + r) ((2 ^ p - 1) * 2 ^ k) ≡ q * 2 ^ k
bit_and-leading zero p q r h l =
    let e : q * 2 ^ 0 + r ≡ q = omega arith in
    let f : (2 ^ p - 1) * 2 ^ 0 ≡ 2 ^ p - 1 = omega arith in
    rw (e, f) (bit_and-ones p q h ∙ omega arith)
bit_and-leading (suc k) p q r h l =
    let dq = ap (λ (t : ℕ). q * t) (two-pow-succ k) in
    let dm = ap (λ (t : ℕ). (2 ^ p - 1) * t) (two-pow-succ k) in
    let e : (q * 2 ^ suc k + r) / 2 ≡ q * 2 ^ k + r / 2 = omega (arith, dq) in
    let f : (2 ^ p - 1) * 2 ^ suc k / 2 ≡ (2 ^ p - 1) * 2 ^ k = omega (arith, dm) in
    omega (
      arith,
      dq,
      dm,
      bit_and-digit (q * 2 ^ suc k + r) ((2 ^ p - 1) * 2 ^ suc k),
      ap₂ bit_and e f,
      bit_and-leading k p q (r / 2) h (omega (arith, two-pow-succ k)),
    )

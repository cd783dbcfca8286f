-- ===== src/Base/Bits.antt =====
-- Single bits of a word: `|`, `&` and `~` read bit by bit, at every position.
use Prim.Native.Nat.{
  ℕ, zero, suc, ◌+◌, ◌-◌, ◌*◌, ◌/◌, ◌%◌, ◌^◌, ◌≤◌, ◌<◌, min, max, bit_and, bit_or, digits,
  bit_and-bitwise, bit_or-bitwise,
}
use mathlib.Core.Path.{◌≡◌, refl, ap, ◌∙◌}
use mathlib.Core.Logic.{◌≢◌}
use native.Mathlib.Nat.{pow-suc}
use native.Mathlib.Omega.{arith}

-- Bit k of a word, 0 or 1.
unfoldable pub testbit : ℕ → ℕ → ℕ
testbit w zero = w % 2
testbit w (suc k) = testbit (w / 2) k

pub testbit-lt : (w k : ℕ) → testbit w k < 2
unfolding testbit
testbit-lt w zero = omega arith
testbit-lt w (suc k) = testbit-lt (w / 2) k

module _ (pick : ℕ → ℕ) (join : ℕ → ℕ → ℕ) where
  -- The digit recursion behind a bitwise operation has one value on any fuel that suffices.
  digits_enough : (n m a b : ℕ) → a ≤ n → a ≤ m → digits pick join n a b ≡ digits pick join m a b
  digits_enough zero zero a b p q = refl
  digits_enough zero (suc m) zero b p q = refl
  digits_enough zero (suc m) (suc a) b p q = absurd (omega arith)
  digits_enough (suc n) zero zero b p q = refl
  digits_enough (suc n) zero (suc a) b p q = absurd (omega arith)
  digits_enough (suc n) (suc m) zero b p q = refl
  digits_enough (suc n) (suc m) (suc a) b p q =
      omega (arith, digits_enough n m (suc a / 2) (b / 2) (omega arith) (omega arith))

and_fuel : (n a b : ℕ) → a ≤ n → bit_and a b ≡ digits (λ _. zero) min n a b
and_fuel n a b h = bit_and-bitwise a b ∙ digits_enough (λ _. zero) min a n a b (omega arith) h

or_fuel : (n a b : ℕ) → a ≤ n → bit_or a b ≡ digits (λ y. y) max n a b
or_fuel n a b h = bit_or-bitwise a b ∙ digits_enough (λ y. y) max a n a b (omega arith) h

-- The lowest bit, and the rest.
and_halves : (a b : ℕ) → bit_and a b ≡ bit_and (a / 2) (b / 2) * 2 + min (a % 2) (b % 2)
and_halves zero b = omega (arith, and_fuel 0 0 b (omega arith), and_fuel 0 0 (b / 2) (omega arith))
and_halves (suc a) b =
    omega (
      arith,
      and_fuel (suc a) (suc a) b (omega arith),
      and_fuel a (suc a / 2) (b / 2) (omega arith),
    )

or_halves : (a b : ℕ) → bit_or a b ≡ bit_or (a / 2) (b / 2) * 2 + max (a % 2) (b % 2)
or_halves zero b = omega (arith, or_fuel 0 0 b (omega arith), or_fuel 0 0 (b / 2) (omega arith))
or_halves (suc a) b =
    omega
      (arith, or_fuel (suc a) (suc a) b (omega arith), or_fuel a (suc a / 2) (b / 2) (omega arith))

pub testbit-and : (a b k : ℕ) → testbit (bit_and a b) k ≡ min (testbit a k) (testbit b k)
unfolding testbit
testbit-and a b zero = omega (arith, and_halves a b)
testbit-and a b (suc k) =
    ap (λ w. testbit w k) (omega (arith, and_halves a b)) ∙ testbit-and (a / 2) (b / 2) k

pub testbit-or : (a b k : ℕ) → testbit (bit_or a b) k ≡ max (testbit a k) (testbit b k)
unfolding testbit
testbit-or a b zero = omega (arith, or_halves a b)
testbit-or a b (suc k) =
    ap (λ w. testbit w k) (omega (arith, or_halves a b)) ∙ testbit-or (a / 2) (b / 2) k

-- `~m` of a w-bit word flips each of its bits.
pub testbit-complement :
    (w m k : ℕ) → m < 2 ^ w → k < w → testbit (2 ^ w - 1 - m) k ≡ 1 - testbit m k
unfolding testbit
testbit-complement zero m k h lt = absurd (omega arith)
testbit-complement (suc w) m zero h lt = omega (arith, pow-suc 2 w)
testbit-complement (suc w) m (suc k) h lt =
    ap (λ x. testbit x k) (omega (arith, pow-suc 2 w))
    ∙ testbit-complement w (m / 2) k (omega (arith, pow-suc 2 w)) (omega arith)

testbit_of_zero : (k : ℕ) → testbit 0 k ≡ 0
unfolding testbit
testbit_of_zero zero = refl
testbit_of_zero (suc k) = testbit_of_zero k

pub testbit-pow_self : (j : ℕ) → testbit (2 ^ j) j ≡ 1
unfolding testbit
testbit-pow_self zero = refl
testbit-pow_self (suc j) = ap (λ x. testbit x j) (omega (arith, pow-suc 2 j)) ∙ testbit-pow_self j

pub testbit-pow_ne : (j k : ℕ) → j ≢ k → testbit (2 ^ j) k ≡ 0
unfolding testbit
testbit-pow_ne zero zero h = absurd (h refl)
testbit-pow_ne zero (suc k) h = testbit_of_zero k
testbit-pow_ne (suc j) zero h = omega (arith, pow-suc 2 j)
testbit-pow_ne (suc j) (suc k) h =
    ap (λ x. testbit x k) (omega (arith, pow-suc 2 j)) ∙ testbit-pow_ne j k (λ e. h (ap suc e))

and-zero_below : (n a : ℕ) → a ≤ n → bit_and a 0 ≡ 0
and-zero_below n zero h = refl
and-zero_below zero (suc a) h = absurd (omega arith)
and-zero_below (suc n) (suc a) h =
    omega (arith, and_halves (suc a) 0, and-zero_below n (suc a / 2) (omega arith))

and-zero : (a : ℕ) → bit_and a 0 ≡ 0
and-zero a = and-zero_below a a (omega arith)

and-le_below : (n a b : ℕ) → b ≤ n → bit_and a b ≤ b
and-le_below zero a zero h = omega (arith, and-zero a)
and-le_below zero a (suc b) h = absurd (omega (arith, h))
and-le_below (suc n) a zero h = omega (arith, and-zero a)
and-le_below (suc n) a (suc b) h =
    omega (arith, and_halves a (suc b), and-le_below n (a / 2) (suc b / 2) (omega (arith, h)))

pub and-le : (a b : ℕ) → bit_and a b ≤ b
and-le a b = and-le_below b a b (omega arith)

-- `w & (1 << k)` is the mask if bit k is set, and 0 if it is not.
pub and-pow : (w k : ℕ) → bit_and w (2 ^ k) ≡ testbit w k * 2 ^ k
unfolding testbit
and-pow w zero = omega (arith, and_halves w 1, and-zero (w / 2))
and-pow w (suc k) =
    let half : 2 ^ suc k / 2 ≡ 2 ^ k = omega (arith, pow-suc 2 k) in
    omega (
      arith,
      and_halves w (2 ^ suc k),
      pow-suc 2 k,
      ap (λ t. bit_and (w / 2) t) half,
      ap (λ t. testbit (w / 2) k * t) (pow-suc 2 k),
      and-pow (w / 2) k,
    )

or-zero_below : (n a : ℕ) → a ≤ n → bit_or a 0 ≡ a
or-zero_below n zero h = refl
or-zero_below zero (suc a) h = absurd (omega arith)
or-zero_below (suc n) (suc a) h =
    omega (arith, or_halves (suc a) 0, or-zero_below n (suc a / 2) (omega arith))

-- `(a << k) | b` is a sum when b fits into the k bits that the shift cleared.
pub or-shift : (k a b : ℕ) → b < 2 ^ k → bit_or (a * 2 ^ k) b ≡ a * 2 ^ k + b
or-shift zero a b h =
    let none_left : b ≡ 0 = omega arith in
    rw none_left (omega (arith, or-zero_below (a * 1) (a * 1) (omega arith)))
or-shift (suc k) a b h =
    let wide : a * 2 ^ suc k ≡ 2 * (a * 2 ^ k) = omega (arith, ap (λ t. a * t) (pow-suc 2 k)) in
    let half : a * 2 ^ suc k / 2 ≡ a * 2 ^ k = omega arith in
    omega (
      arith,
      or_halves (a * 2 ^ suc k) b,
      ap (λ t. bit_or t (b / 2)) half,
      or-shift k a (b / 2) (omega (arith, pow-suc 2 k)),
    )

-- Masks of ones keep the low bits, four at a time.
nibble : (a m : ℕ) → bit_and a (m * 16 + 15) ≡ bit_and (a / 16) m * 16 + a % 16
nibble a m =
    let step = λ (n k : ℕ) (b : ℕ) (e : k / 2 ≡ b). ap (λ t. bit_and n t) e in
    omega (
      arith,
      and_halves a (m * 16 + 15),
      and_halves (a / 2) (m * 8 + 7),
      and_halves (a / 2 / 2) (m * 4 + 3),
      and_halves (a / 2 / 2 / 2) (m * 2 + 1),
      step (a / 2) (m * 16 + 15) (m * 8 + 7) (omega arith),
      step (a / 2 / 2) (m * 8 + 7) (m * 4 + 3) (omega arith),
      step (a / 2 / 2 / 2) (m * 4 + 3) (m * 2 + 1) (omega arith),
      step (a / 2 / 2 / 2 / 2) (m * 2 + 1) m (omega arith),
      ap (λ t. bit_and t m) (let e : a / 2 / 2 / 2 / 2 ≡ a / 16 = omega arith in e),
    )

pub and-0xf : (a : ℕ) → bit_and a 0xf ≡ a % 16
and-0xf a = omega (arith, nibble a 0, and-zero (a / 16))

and-double : (a m : ℕ) → bit_and (a * 2) (m * 2) ≡ bit_and a m * 2
and-double a m =
    let half : (n : ℕ) → n * 2 / 2 ≡ n = λ n. omega arith in
    omega (
      arith,
      and_halves (a * 2) (m * 2),
      ap (λ t. bit_and t (m * 2 / 2)) (half a),
      ap (λ t. bit_and a t) (half m),
    )

pub and-0xfff0 : (a : ℕ) → bit_and (a * 16) 0xfff0 ≡ a % 4096 * 16
and-0xfff0 a = omega (
  arith,
  ap (λ t. bit_and t 0xfff0) (let e : a * 16 ≡ a * 2 * 2 * 2 * 2 = omega arith in e),
  and-double (a * 2 * 2 * 2) 0x7ff8,
  and-double (a * 2 * 2) 0x3ffc,
  and-double (a * 2) 0x1ffe,
  and-double a 0xfff,
  nibble a 0xff,
  nibble (a / 16) 0xf,
  nibble (a / 16 / 16) 0,
  and-zero (a / 16 / 16 / 16),
)

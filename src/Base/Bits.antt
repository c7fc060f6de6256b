-- ===== src/Base/Bits.antt =====
-- Laws of `bit_and` and `bit_or` at variables: a low mask is a remainder, and joining two fields
-- that do not overlap is a sum.
use Prim.Native.Nat.{
  ℕ, zero, suc, ◌+◌, ◌*◌, ◌/◌, ◌%◌, ◌≤◌, ◌<◌, min, max, bit_and, bit_or, digits, bit_and-bitwise,
  bit_or-bitwise,
}
use mathlib.Core.Path.{◌≡◌, refl, sym, ap, ◌∙◌}
use native.Mathlib.Omega.{arith}
use native.Mathlib.Nat.{mul-add-mod_self_left, mod-eq_of_lt, mod-lt, div-add-mod}

-- The native operations count their rounds down from the first number. Once that has run out they
-- are over, so any count that is not less gives the same result.
module _ (tail : ℕ → ℕ) (join : ℕ → ℕ → ℕ) where
  abbrev rounds : ℕ → ℕ → ℕ → ℕ
  rounds = digits tail join

  rounds_zero : (k y : ℕ) → rounds k 0 y ≡ tail y
  rounds_zero zero y = refl
  rounds_zero (suc k) y = refl

  rounds_spare : (k x y l : ℕ) → x ≤ k → x ≤ l → rounds l x y ≡ rounds k x y
  rounds_spare k zero y l below below' = rounds_zero l y ∙ sym (rounds_zero k y)
  rounds_spare (suc k) (suc x) y (suc l) below below' =
      let halves = rounds_spare k (suc x / 2) (y / 2) l (omega arith) (omega arith) in omega arith
  rounds_spare zero (suc x) y l below below' = absurd (omega arith)
  rounds_spare (suc k) (suc x) y zero below below' = absurd (omega arith)

  -- One round, given that a number that has run out reads as zeros.
  rounds_step :
      ((y : ℕ) → tail y ≡ tail (y / 2) * 2 + join 0 (y % 2))
      → (x y : ℕ) → rounds x x y ≡ rounds (x / 2) (x / 2) (y / 2) * 2 + join (x % 2) (y % 2)
  rounds_step zeros zero y = zeros y
  rounds_step zeros (suc x) y =
      let halves = rounds_spare (suc x / 2) (suc x / 2) (y / 2) x (omega arith) (omega arith) in
      omega arith

  -- A second number that has run out, where joining with zero is `keep`.
  rounds_by_zero :
      (keep : ℕ → ℕ)
      → (tail 0 ≡ keep 0)
      → ((x : ℕ) → keep (x / 2) * 2 + join (x % 2) 0 ≡ keep x)
      → (k x : ℕ) → x ≤ k
      → rounds k x 0 ≡ keep x
  rounds_by_zero keep none each k zero below = rounds_zero k 0 ∙ none
  rounds_by_zero keep none each zero (suc x) below = absurd (omega arith)
  rounds_by_zero keep none each (suc k) (suc x) below =
      let halves = rounds_by_zero keep none each k (suc x / 2) (omega arith) in
      omega (arith, each (suc x))

pub bit_and_step : (x y : ℕ) → bit_and x y ≡ bit_and (x / 2) (y / 2) * 2 + min (x % 2) (y % 2)
bit_and_step x y = omega (
  arith,
  bit_and-bitwise x y,
  bit_and-bitwise (x / 2) (y / 2),
  rounds_step (λ _. 0) min (λ y. omega arith) x y,
)

pub bit_or_step : (x y : ℕ) → bit_or x y ≡ bit_or (x / 2) (y / 2) * 2 + max (x % 2) (y % 2)
bit_or_step x y = omega (
  arith,
  bit_or-bitwise x y,
  bit_or-bitwise (x / 2) (y / 2),
  rounds_step (λ y. y) max (λ y. omega arith) x y,
)

pub bit_and-zero : (x : ℕ) → bit_and x 0 ≡ 0
bit_and-zero x =
    bit_and-bitwise x 0
    ∙ rounds_by_zero (λ _. 0) min (λ _. 0) refl (λ x. omega arith) x x (omega arith)

bit_or-zero : (x : ℕ) → bit_or x 0 ≡ x
bit_or-zero x =
    bit_or-bitwise x 0
    ∙ rounds_by_zero (λ y. y) max (λ x. x) refl (λ x. omega arith) x x (omega arith)

-- 2 ^ k by doubling, which `omega` follows a step at a time.
abbrev pub two_to : ℕ → ℕ
two_to zero = 1
two_to (suc k) = two_to k + two_to k

two_to-pos : (k : ℕ) → 0 < two_to k
two_to-pos zero = omega arith
two_to-pos (suc k) = omega (arith, two_to-pos k)

-- `k` ones.
abbrev pub ones : ℕ → ℕ
ones zero = 0
ones (suc k) = ones k + ones k + 1

mod_double : (a p : ℕ) → 0 < p → a % (p + p) ≡ a / 2 % p * 2 + a % 2
mod_double a p h =
    ap (λ (x : ℕ). x % (p + p)) split
    ∙ mul-add-mod_self_left (p + p) (a / 2 / p) (a / 2 % p * 2 + a % 2)
    ∙ mod-eq_of_lt (omega (arith, mod-lt (a / 2) h))
  where
    split : a ≡ (p + p) * (a / 2 / p) + (a / 2 % p * 2 + a % 2)
    split = omega (arith, div-add-mod (a / 2) p)

pub bit_and-ones : (k a : ℕ) → bit_and a (ones k) ≡ a % two_to k
bit_and-ones zero a = omega (arith, bit_and-zero a)
bit_and-ones (suc k) a = omega (
  arith,
  bit_and_step a (ones (suc k)),
  half-ones,
  bit_and-ones k (a / 2),
  mod_double a (two_to k) (two_to-pos k),
)
  where
    half-ones : bit_and (a / 2) (ones (suc k) / 2) ≡ bit_and (a / 2) (ones k)
    half-ones = let e : ones (suc k) / 2 ≡ ones k = omega arith in rw e

pub bit_or-shifted : (k a b : ℕ) → b < two_to k → bit_or (a * two_to k) b ≡ a * two_to k + b
bit_or-shifted zero a b h = let e : b ≡ 0 = omega arith in rw e (omega (arith, bit_or-zero (a * 1)))
bit_or-shifted (suc k) a b h = omega (
  arith,
  bit_or_step (a * two_to (suc k)) b,
  ap (λ (x : ℕ). bit_or x (b / 2)) half,
  bit_or-shifted k a (b / 2) (omega arith),
)
  where
    half : a * two_to (suc k) / 2 ≡ a * two_to k
    half = omega arith

-- A mask's lowest digit keeps that digit or drops it.
pub bit_and-odd : (x m : ℕ) → bit_and x (m + m + 1) ≡ bit_and (x / 2) m * 2 + x % 2
bit_and-odd x m =
    let half : (m + m + 1) / 2 ≡ m = omega arith in
    let low : (m + m + 1) % 2 ≡ 1 = omega arith in
    bit_and_step x (m + m + 1) ∙ rw (half, low) (omega arith)

pub bit_and-even : (x m : ℕ) → bit_and x (m + m) ≡ bit_and (x / 2) m * 2
bit_and-even x m =
    let half : (m + m) / 2 ≡ m = omega arith in
    let low : (m + m) % 2 ≡ 0 = omega arith in bit_and_step x (m + m) ∙ rw (half, low) (omega arith)

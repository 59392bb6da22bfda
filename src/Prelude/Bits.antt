-- ===== src/Prelude/Bits.antt =====
-- `&` and `|` of machine words, as arithmetic: low masks, high masks, disjoint fields; and checks
-- of a whole range by evaluation.
use Prim.Native.Nat.{ℕ, zero, suc, ◌+◌, ◌-◌, ◌*◌, ◌/◌, ◌%◌, ◌^◌, ◌≤◌, ◌<◌, min, max}
use Prim.Native.Nat.{bit_and, bit_or, digits, bit_and-bitwise, bit_or-bitwise}
use mathlib.Core.Path.{◌≡◌, refl, ap, ap₂}
use mathlib.Core.Bool.{false, Bool, true}
use promptboot.Prelude.Tests.{if◌then◌else◌}
use native.Mathlib.Decide.{ℕ_discrete}
use native.Mathlib.Omega.{arith}
use native.Mathlib.Nat.{pow-suc, one-le-pow, div-div-eq-div-mul}

-- `p` at every number below the second argument, by evaluation.
unfoldable pub everywhere : (ℕ → Bool) → ℕ → Bool
everywhere p zero = true
everywhere p (suc top) = let rest = everywhere p top in if p top then rest else false

-- A test that evaluation finds true below `n` holds at each number below `n`.
pub everywhere_sound : (p : ℕ → Bool) (n : ℕ) → everywhere p n ≡ true → (x : ℕ) → x < n → p x ≡ true
unfolding everywhere
everywhere_sound p (suc top) h x below = elim (ℕ_discrete x top) [
  | yes last ↦ rw last (ground arith)
  | no other ↦ everywhere_sound p top (ground arith) x (omega arith)
]
everywhere_sound p zero h x below = absurd (omega arith)

-- Once the digits of `x` are used up, more fuel changes nothing.
digits-enough :
    (z : ℕ → ℕ) (f : ℕ → ℕ → ℕ) (x y k : ℕ) → x ≤ k → digits z f k x y ≡ digits z f x x y
digits-enough z f x y k h = spare k x x h (omega arith) y
  where
    spare : (k l x : ℕ) → x ≤ k → x ≤ l → (y : ℕ) → digits z f k x y ≡ digits z f l x y
    spare (suc k) (suc l) (suc x) h g y =
        ap (λ (t : ℕ). t * 2 + f (suc x % 2) (y % 2))
          (spare k l (suc x / 2) (omega arith) (omega arith) (y / 2))
    spare (suc k) (suc l) zero h g y = refl
    spare (suc k) zero zero h g y = refl
    spare (suc k) zero (suc x) h g y = absurd (omega arith)
    spare zero (suc l) zero h g y = refl
    spare zero zero zero h g y = refl
    spare zero l (suc x) h g y = absurd (omega arith)

-- The lowest digit of `&`, and of `|`.
pub and_step : (x y : ℕ) → bit_and x y ≡ min (x % 2) (y % 2) + 2 * bit_and (x / 2) (y / 2)
and_step (suc x) y = omega (
  arith,
  digits-enough (λ t. 0) min (suc x / 2) (y / 2) x (omega arith),
  bit_and-bitwise (suc x / 2) (y / 2),
  bit_and-bitwise (suc x) y,
)
and_step zero y = omega (arith, bit_and-bitwise 0 (y / 2), bit_and-bitwise 0 y)

pub or_step : (x y : ℕ) → bit_or x y ≡ max (x % 2) (y % 2) + 2 * bit_or (x / 2) (y / 2)
or_step (suc x) y = omega (
  arith,
  digits-enough (λ t. t) max (suc x / 2) (y / 2) x (omega arith),
  bit_or-bitwise (suc x / 2) (y / 2),
  bit_or-bitwise (suc x) y,
)
or_step zero y = omega (arith, bit_or-bitwise 0 (y / 2), bit_or-bitwise 0 y)

and_nil_below : (k a : ℕ) → a ≤ k → bit_and a 0 ≡ 0
and_nil_below k zero h = bit_and-bitwise 0 0
and_nil_below zero (suc a) h = absurd (omega arith)
and_nil_below (suc k) (suc a) h =
    omega (arith, and_step (suc a) 0, and_nil_below k (suc a / 2) (omega arith))

or_nil_below : (k a : ℕ) → a ≤ k → bit_or a 0 ≡ a
or_nil_below k zero h = bit_or-bitwise 0 0
or_nil_below zero (suc a) h = absurd (omega arith)
or_nil_below (suc k) (suc a) h =
    omega (arith, or_step (suc a) 0, or_nil_below k (suc a / 2) (omega arith))

-- The mask of the `k` lowest bits.
abbrev pub low_ones : ℕ → ℕ
low_ones k = 2 ^ k - 1

half-split : (k q r : ℕ) → r < 2 ^ suc k → (q * 2 ^ suc k + r) / 2 ≡ q * 2 ^ k + r / 2
half-split k q r h = omega (arith, ap (λ (t : ℕ). q * t) (pow-suc 2 k), pow-suc 2 k)

half-shift : (k q : ℕ) → q * 2 ^ suc k / 2 ≡ q * 2 ^ k
half-shift k q = omega (arith, ap (λ (t : ℕ). q * t) (pow-suc 2 k))

odd-split : (k q r : ℕ) → (q * 2 ^ suc k + r) % 2 ≡ r % 2
odd-split k q r = omega (arith, ap (λ (t : ℕ). q * t) (pow-suc 2 k))

-- `x & (2^k - 1)` keeps the low field.
and_low_field : (k q r : ℕ) → r < 2 ^ k → bit_and (q * 2 ^ k + r) (low_ones k) ≡ r
and_low_field zero q r h = omega (arith, and_nil_below (q * 1 + r) (q * 1 + r) (omega arith))
and_low_field (suc k) q r h = omega (
  arith,
  and_step (q * 2 ^ suc k + r) (low_ones (suc k)),
  ap₂ bit_and (half-split k q r h) halved,
  odd-split k q r,
  one-le-pow k 2 (omega arith),
  pow-suc 2 k,
  and_low_field k q (r / 2) (omega (arith, pow-suc 2 k)),
)
  where
    halved : low_ones (suc k) / 2 ≡ low_ones k
    halved = omega (arith, pow-suc 2 k, one-le-pow k 2 (omega arith))

pub and_low : (k x : ℕ) → bit_and x (low_ones k) ≡ x % 2 ^ k
and_low k x = omega (
  arith,
  ap (λ (t : ℕ). bit_and t (low_ones k)) split,
  and_low_field k (x / 2 ^ k) (x % 2 ^ k) (omega (arith, one-le-pow k 2 (omega arith))),
)
  where
    split : x ≡ x / 2 ^ k * 2 ^ k + x % 2 ^ k
    split = omega (arith, one-le-pow k 2 (omega arith))

-- `(q << k) | r` is a sum when `r` fits into `k` bits.
pub or_fields : (k q r : ℕ) → r < 2 ^ k → bit_or (q * 2 ^ k) r ≡ q * 2 ^ k + r
or_fields zero q r h =
    let e : r ≡ 0 = omega arith in rw e (omega (arith, or_nil_below (q * 1) (q * 1) (omega arith)))
or_fields (suc k) q r h = omega (
  arith,
  or_step (q * 2 ^ suc k) r,
  ap (λ (t : ℕ). bit_or t (r / 2)) (half-shift k q),
  or_fields k q (r / 2) (omega (arith, pow-suc 2 k)),
  ap (λ (t : ℕ). q * t) (pow-suc 2 k),
  pow-suc 2 k,
)

-- A mask with `k` zeros at its end leaves zeros there.
pub and_shift : (k m x : ℕ) → bit_and x (m * 2 ^ k) ≡ bit_and (x / 2 ^ k) m * 2 ^ k
and_shift zero m x =
    let e : x / 1 ≡ x = omega arith in let e' : m * 1 ≡ m = omega arith in rw (e, e') (omega arith)
and_shift (suc k) m x = omega (
  arith,
  and_step x (m * 2 ^ suc k),
  ap (λ (t : ℕ). bit_and (x / 2) t) (half-shift k m),
  and_shift k m (x / 2),
  ap (λ (t : ℕ). m * t) (pow-suc 2 k),
  ap (λ (t : ℕ). bit_and t m * 2 ^ k) quotient,
  ap (λ (t : ℕ). bit_and (x / 2 ^ suc k) m * t) (pow-suc 2 k),
)
  where
    quotient : x / 2 / 2 ^ k ≡ x / 2 ^ suc k
    quotient =
        rw (div-div-eq-div-mul x 2 (2 ^ k)) (ap (λ (t : ℕ). x / t) (omega (arith, pow-suc 2 k)))

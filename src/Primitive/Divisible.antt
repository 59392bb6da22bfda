-- ===== src/Primitive/Divisible.antt =====
-- `is_divisible` of crates/promptboot-core/src/lib.rs: a remainder bit by bit, against `%`.
use native.Mathlib.Nat.{
  pow-suc, div-div-eq-div-mul, add-mul-mod_self_left, mod-eq_of_lt, mod-eq-sub-mod, mod-lt,
}
use native.Mathlib.Decide.{dec_lt}
use promptboot.Prelude.{
  ◌∙◌, sym, ℕ, zero, suc, ◌+◌, ◌-◌, ◌*◌, ◌/◌, ◌%◌, ◌^◌, ◌≤◌, ◌<◌, ◌≡◌, ap, bit_and, bit_or, Bool,
  leb, ◌==◌, if◌then◌else◌, arith,
}
use promptboot.Prelude.Bits.{and_low, or_fields}

-- One round: `remainder << 1` drops what leaves the 64 bits.
unfoldable pub divide_round : ℕ → ℕ → ℕ → ℕ → ℕ
divide_round numerator denominator bit remainder =
    let shifted = bit_or (remainder * 2 % 2 ^ 64) (bit_and (numerator / 2 ^ bit) 1) in
    if leb denominator shifted then shifted - denominator else shifted

-- The loop, with `bit` rounds to go.
unfoldable pub divide_loop : ℕ → ℕ → ℕ → ℕ → ℕ
divide_loop numerator denominator zero remainder = remainder
divide_loop numerator denominator (suc bit) remainder =
    divide_loop numerator denominator bit (divide_round numerator denominator bit remainder)

unfoldable pub is_divisible : ℕ → ℕ → Bool
is_divisible numerator denominator = divide_loop numerator denominator 64 0 == 0

-- Twice a remainder and a bit, reduced once.
reduce_once :
    (d q b : ℕ)
    → 0 < d
    → b < 2
    → (if leb d (q % d * 2 + b) then q % d * 2 + b - d else q % d * 2 + b) ≡ (q * 2 + b) % d
reduce_once d q b p h =
    sym (ap (λ (t : ℕ). t % d) split ∙ add-mul-mod_self_left rest d (q / d * 2) ∙ small)
  where
    rest : ℕ
    rest = q % d * 2 + b

    split : q * 2 + b ≡ rest + d * (q / d * 2)
    split = omega arith

    small : rest % d ≡ (if leb d rest then rest - d else rest)
    small = elim (dec_lt rest d) [
      | yes l ↦ mod-eq_of_lt l ∙ ground arith
      | no g ↦
          mod-eq-sub-mod {n = rest} {m = d} (omega arith)
          ∙ mod-eq_of_lt {n = rest - d} {m = d} (omega (arith, mod-lt q p))
          ∙ ground arith
    ]

-- A round takes the remainder of the leading bits to that of one bit more.
divide_round_lem :
    (n d bit : ℕ)
    → 0 < d
    → d ≤ 2 ^ 63
    → divide_round n d bit (n / 2 ^ suc bit % d) ≡ n / 2 ^ bit % d
unfolding divide_round
divide_round_lem n d bit p h =
    ap (λ (t : ℕ). if leb d t then t - d else t) shifted
    ∙ reduce_once d q (m % 2) p (omega arith)
    ∙ ap (λ (t : ℕ). t % d) (omega (arith, halved))
  where
    q : ℕ
    q = n / 2 ^ suc bit

    m : ℕ
    m = n / 2 ^ bit

    halved : m / 2 ≡ q
    halved = div-div-eq-div-mul n (2 ^ bit) 2 ∙ ap (λ (t : ℕ). n / t) (sym (pow-suc 2 bit))

    room : q % d * 2 % 2 ^ 64 ≡ q % d * 2
    room = mod-eq_of_lt (omega (arith, mod-lt q p))

    shifted : bit_or (q % d * 2 % 2 ^ 64) (bit_and m 1) ≡ q % d * 2 + m % 2
    shifted = rw (room, and_low 1 m) (or_fields 1 (q % d) (m % 2) (omega arith))

divide_loop_lem :
    (n d bits : ℕ) → 0 < d → d ≤ 2 ^ 63 → divide_loop n d bits (n / 2 ^ bits % d) ≡ n % d
unfolding divide_loop
divide_loop_lem n d zero p h = ap (λ (t : ℕ). t % d) (omega arith)
divide_loop_lem n d (suc bits) p h =
    rw (divide_round_lem n d bits p h) (divide_loop_lem n d bits p h)

-- For a 64-bit numerator and a denominator from 1 to 2^63, the loop decides divisibility.
pub is_divisible_lem : (n d : ℕ) → n < 2 ^ 64 → 0 < d → d ≤ 2 ^ 63 → is_divisible n d ≡ (n % d == 0)
unfolding is_divisible
is_divisible_lem n d b p h =
    ap (λ (t : ℕ). t == 0) (ap (divide_loop n d 64) (sym start) ∙ divide_loop_lem n d 64 p h)
  where
    start : n / 2 ^ 64 % d ≡ 0
    start = let e : n / 2 ^ 64 ≡ 0 = omega arith in rw e (mod-eq_of_lt p)

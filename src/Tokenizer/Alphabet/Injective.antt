-- ===== src/Tokenizer/Alphabet/Injective.antt =====
-- No two bytes have one character in crates/promptboot-core/src/tokenizer.rs.
use promptboot.Prelude.{
  ◌≢◌, ℕ, zero, suc, ◌+◌, ◌-◌, ◌<◌, ◌≡◌, refl, sym, ap, ◌∙◌, true, false, if◌then◌else◌, inl, inr,
  Bool-cases, arith,
}
use native.Mathlib.Decide.{dec_lt}
use promptboot.Tokenizer.Alphabet.{stands_for_itself, ordinal_from, gpt2_codepoint}

-- One for a candidate that is counted.
abbrev counted : ℕ → ℕ
counted candidate = if stands_for_itself candidate then 0 else 1

ordinal_from-suc :
    (candidate n : ℕ)
    → ordinal_from candidate (suc n) ≡ ordinal_from candidate n + counted (candidate + n)
unfolding ordinal_from
ordinal_from-suc candidate zero =
    let e : candidate + 0 ≡ candidate = omega arith in rw e (omega arith)
ordinal_from-suc candidate (suc n) =
    let e : candidate + 1 + n ≡ candidate + suc n = omega arith in
    let h : ordinal_from (candidate + 1) (suc n)
        ≡ ordinal_from (candidate + 1) n + counted (candidate + suc n) =
      ordinal_from-suc (candidate + 1) n
      ∙ ap (λ (k : ℕ). ordinal_from (candidate + 1) n + counted k) e in
    omega (arith, h)

-- A byte that does not stand for itself has a smaller ordinal than those above it.
ordinal_from-increases :
    (x more : ℕ) → stands_for_itself x ≡ false → ordinal_from 0 x < ordinal_from 0 (x + suc more)
ordinal_from-increases x zero h =
    let a : ordinal_from 0 (suc x) ≡ ordinal_from 0 x + counted (0 + x) = ordinal_from-suc 0 x in
    let e : 0 + x ≡ x = omega arith in
    let c : counted (0 + x) ≡ 1 = ap counted e ∙ rw h refl in
    let s : x + suc zero ≡ suc x = omega arith in
    let d : ordinal_from 0 (x + suc zero) ≡ ordinal_from 0 (suc x) = ap (ordinal_from 0) s in
    omega arith
ordinal_from-increases x (suc more) h =
    let i : ordinal_from 0 x < ordinal_from 0 (x + suc more) = ordinal_from-increases x more h in
    let s : x + suc (suc more) ≡ suc (x + suc more) = omega arith in
    let d : ordinal_from 0 (x + suc (suc more)) ≡ ordinal_from 0 (suc (x + suc more)) =
      ap (ordinal_from 0) s in
    let a : ordinal_from 0 (suc (x + suc more))
        ≡ ordinal_from 0 (x + suc more) + counted (0 + (x + suc more)) =
      ordinal_from-suc 0 (x + suc more) in
    omega arith

stands_for_itself-byte : (byte : ℕ) → stands_for_itself byte ≡ true → byte < 256
unfolding stands_for_itself
stands_for_itself-byte byte h = ground arith

-- The least of two bytes with one character is not less.
gpt2_codepoint-least : (x y : ℕ) → x < y → gpt2_codepoint x ≢ gpt2_codepoint y
unfolding gpt2_codepoint
gpt2_codepoint-least x y l e = elim (Bool-cases (stands_for_itself x)) [
  | inl a ↦ elim (Bool-cases (stands_for_itself y)) [
    | inl b ↦ let f : x ≡ y = ground arith in absurd (omega arith)
    | inr b ↦ let f : x < 256 = stands_for_itself-byte x a in ground arith
  ]
  | inr a ↦ elim (Bool-cases (stands_for_itself y)) [
    | inl b ↦ let f : y < 256 = stands_for_itself-byte y b in ground arith
    | inr b ↦
        let more : ℕ = y - x - 1 in
        let s : x + suc more ≡ y = omega arith in
        let i : ordinal_from 0 x < ordinal_from 0 (x + suc more) =
          ordinal_from-increases x more a in
        let d : ordinal_from 0 (x + suc more) ≡ ordinal_from 0 y = ap (ordinal_from 0) s in
        ground arith
  ]
]

pub gpt2_codepoint-injective : (x y : ℕ) → gpt2_codepoint x ≡ gpt2_codepoint y → x ≡ y
gpt2_codepoint-injective x y e = elim (dec_lt x y) [
  | yes l ↦ absurd (gpt2_codepoint-least x y l e)
  | no l ↦ elim (dec_lt y x) [
    | yes k ↦ absurd (gpt2_codepoint-least y x k (sym e))
    | no k ↦ omega arith
  ]
]

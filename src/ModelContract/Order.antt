-- ===== src/ModelContract/Order.antt =====
-- The order of the cleanup, by the masks of src/model_contract.rs.
use promptboot.Prelude.{
  subst, ℕ, zero, suc, ◌+◌, ◌<◌, ◌≤◌, ◌≡◌, true, false, Option, none, some, if-cases, arith,
}
use native.Mathlib.Decide.{ℕ_discrete}
use promptboot.ModelContract.Cleanup.{is_pending, search_from, next_cleanup_bit}

-- The answer of a search in the bits from `low` to `high`.
pub data Finds (pending low high : ℕ) : Option ℕ → Type 0 where
  finds :
      {bit : ℕ}
      → low ≤ bit
      → bit < high
      → is_pending pending bit ≡ true
      → ((i : ℕ) → low ≤ i → i < bit → is_pending pending i ≡ false)
      → Finds pending low high (some bit)
  finds_none :
      ((i : ℕ) → low ≤ i → i < high → is_pending pending i ≡ false) → Finds pending low high none

later :
    (pending low : ℕ) (high : ℕ) (o : Option ℕ)
    → is_pending pending low ≡ false
    → Finds pending (1 + low) high o
    → Finds pending low high o
later pending low high o e (finds l h p f) = finds (omega arith) h p λ i li ib.
    elim (ℕ_discrete low i) [
      | yes q ↦ subst (λ (t : ℕ). is_pending pending t ≡ false) q e
      | no q ↦ f i (omega arith) ib
    ]
later pending low high o e (finds_none f) = finds_none λ i li ih. elim (ℕ_discrete low i) [
  | yes q ↦ subst (λ (t : ℕ). is_pending pending t ≡ false) q e
  | no q ↦ f i (omega arith) ih
]

search_from-Finds :
    (pending rounds low : ℕ) → Finds pending low (low + rounds) (search_from pending rounds low)
unfolding search_from
search_from-Finds pending zero low = finds_none λ i l h. absurd (omega arith)
search_from-Finds pending (suc rounds) low =
    if-cases (Finds pending low (low + suc rounds)) (is_pending pending low) _ _
      (λ t. finds (omega arith) (omega arith) t λ i l h. absurd (omega arith))
      λ f. later pending low (low + suc rounds) _ f (
        subst (λ (n : ℕ). Finds pending (1 + low) n (search_from pending rounds (1 + low)))
          (omega arith) (search_from-Finds pending rounds (1 + low)))

-- The next bit to clean up is the lowest of the ten bits that is pending, and there is none exactly
-- if none of the ten is pending.
pub next_cleanup_bit-Finds : (pending : ℕ) → Finds pending 0 10 (next_cleanup_bit pending)
unfolding next_cleanup_bit
next_cleanup_bit-Finds pending = search_from-Finds pending 10 0

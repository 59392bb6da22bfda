-- ===== src/Repl/History.antt =====
-- What `decide_history` of crates/promptboot-core/src/lib.rs decides.
use promptboot.Prelude.{
  ℕ, ◌<◌, ◌≤◌, ◌≡◌, refl, Bool, true, false, Option, none, some, leb, if◌then◌else◌, if-cases,
  arith, leb→le,
}
use promptboot.Repl.{
  HistoryDecision, use_history, retry_fresh, reset_history, reject, prompt_limit, decide_history,
  decide_fresh, or_else,
}

-- What a decision means for the history, the prospective prompt and the fresh one.
unfoldable pub Fits : Bool → ℕ → Option ℕ → HistoryDecision → Type 0
Fits has prospective fresh (use_history n) = n ≡ prospective × n ≤ prompt_limit
Fits has prospective fresh retry_fresh = prompt_limit < prospective × has ≡ true × fresh ≡ none
Fits has prospective fresh (reset_history n) =
    prompt_limit < prospective × has ≡ true × fresh ≡ some n × n ≤ prompt_limit
Fits has prospective fresh (reject n) =
    prompt_limit < prospective × (has ≡ true → fresh ≡ some n × prompt_limit < n)

fresh-Fits :
    (prospective : ℕ) (fresh : Option ℕ)
    → prompt_limit < prospective
    → Fits true prospective fresh (decide_fresh fresh)
unfolding Fits decide_fresh
fresh-Fits prospective none h = (h, refl, refl)
fresh-Fits prospective (some n) h =
    if-cases (Fits true prospective (some n)) (leb n prompt_limit) _ _
      (λ t. (h, refl, refl, leb→le n prompt_limit t)) (λ f. (h, λ _. (refl, ground arith)))

-- The prospective prompt is used exactly as it fits into the context; a prompt that does not fit is
-- tried afresh if there is a history and no fresh count yet, resets the history if the fresh prompt
-- fits, and is rejected with a history only if the fresh prompt does not fit either.
pub decide_history-Fits :
    (has_history : Bool) (prospective : ℕ) (fresh : Option ℕ)
    → Fits has_history prospective fresh (decide_history has_history prospective fresh)
unfolding decide_history Fits
decide_history-Fits has_history prospective fresh =
    if-cases (Fits has_history prospective fresh) (leb prospective prompt_limit) _ _
      (λ t. (refl, leb→le prospective prompt_limit t)) (λ f. go has_history (ground arith))
  where
    go :
        (has : Bool)
        → prompt_limit < prospective
        → Fits has prospective fresh
            (if has then decide_fresh fresh else reject (or_else fresh prospective))
    go true h = fresh-Fits prospective fresh h
    go false h = (h, λ e. absurd (cc e))

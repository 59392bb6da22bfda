-- ===== src/Repl/Commit.antt =====
-- What `commit_eos` of src/repl_contract.rs commits.
use promptboot.Prelude.{
  ℕ, ◌-◌, ◌<◌, ◌≤◌, ◌≡◌, ◌≢◌, ◌⊎◌, ◌∙◌, not, ◌||◌, List, length, take, drop, replicate, get_or, ltb,
  ◌==◌, length-take, length-replicate, get_or-replicate, if-cases, Result, ok, err, arith,
}
use promptboot.Prelude.Slices.{splice, length-splice}
use promptboot.Prelude.Reading.{
  get_or-take, get_or-drop, get_or-append_before, get_or-append_behind,
}
use promptboot.Repl.{commit_eos, context_tokens, im_end}

-- How a call ends, and the committed buffer that it leaves.
pub data Committed (committed working : List ℕ) (n : ℕ)
    : Result (Unit {0}) ℕ × List ℕ → Type 0 where
  refused :
      (n ≡ 0) ⊎ (context_tokens < n) ⊎ (get_or working (n - 1) 0 ≢ im_end)
      → Committed committed working n (err tt, committed)
  commits :
      {after : List ℕ}
      → (0 < n) × (n ≤ context_tokens)
      → length after ≡ length committed
      → ((i : ℕ) → i < n → get_or after i 0 ≡ get_or working i 0)
      → ((i : ℕ) → n ≤ i → get_or after i 0 ≡ 0)
      → get_or after (n - 1) 0 ≡ im_end
      → Committed committed working n (ok n, after)

module _ (committed working : List ℕ) (n : ℕ) (room : n ≤ length committed)
    (full : n ≤ length working) where
  abbrev after : List ℕ
  after = splice 0 n (take n working) (replicate (length committed) 0)

  length-taken : length (take n working) ≡ n
  length-taken = omega (arith, length-take n working)

  after_kept : (i : ℕ) → i < n → get_or after i 0 ≡ get_or working i 0
  after_kept i h =
      get_or-append_before (take n working) _ i 0 (omega (arith, length-taken))
      ∙ get_or-take working n i 0 h

  after_cleared : (i : ℕ) → n ≤ i → get_or after i 0 ≡ 0
  after_cleared i h =
      get_or-append_behind (take n working) (drop n (replicate (length committed) 0)) (i - n) i 0
        (omega (arith, length-taken))
      ∙ get_or-drop (replicate (length committed) 0) n (i - n) i 0 (omega arith)
      ∙ get_or-replicate (length committed) i 0

  length-after : length after ≡ length committed
  length-after =
      length-splice (replicate (length committed) 0) (take n working) 0 n
        (omega (arith, length-taken)) (omega (arith, length-replicate {A = ℕ} (length committed) 0))
      ∙ length-replicate (length committed) 0

-- With buffers of full size, `commit_eos` either fails, on a length that is zero or too large or on a
-- last token that is not the end mark, and leaves the committed buffer as it was; or it gives the
-- length, and the committed buffer, of the size that it had, holds the working tokens up to there,
-- the last of them the end mark, and zero from there on, whatever it held before.
pub commit_eos-Committed :
    (committed working : List ℕ) (n : ℕ)
    → length committed ≡ context_tokens
    → length working ≡ context_tokens
    → Committed committed working n (commit_eos committed working n)
unfolding commit_eos
commit_eos-Committed committed working n room full =
    if-cases (Committed committed working n)
      (n == 0 || (ltb context_tokens n || not (get_or working (n - 1) 0 == im_end))) _ _
      (λ t. refused (ground arith))
      (λ f.
        let low : 0 < n = ground arith in
        let high : n ≤ context_tokens = ground arith in
        let last : get_or working (n - 1) 0 ≡ im_end = ground arith in
        let room' : n ≤ length committed = omega arith in
        let full' : n ≤ length working = omega arith in
        commits (low, high) (length-after committed working n room' full')
          (after_kept committed working n room' full')
          (after_cleared committed working n room' full')
          (after_kept committed working n room' full' (n - 1) (omega arith) ∙ last))

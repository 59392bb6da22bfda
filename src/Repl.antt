-- ===== src/Repl.antt =====
-- The REPL contracts: `decide_history` of crates/promptboot-core/src/lib.rs, and the commands, the
-- committed history and the console text of src/repl_contract.rs.
pub mod Rendering
pub mod History
pub mod Commit
mod Tests
use promptboot.Prelude.{
  ℕ, ◌+◌, ◌-◌, Bool, true, false, not, ◌&&◌, ◌||◌, List, [], ◌∷◌, ◌++◌, Option, none, some, ltb,
  leb, ◌==◌, if◌then◌else◌, length, take, replicate, get_or, u32_max, Result, ok, err,
}
use promptboot.Prelude.Slices.{splice}
use promptboot.ModelContract.{codes, same_bytes}

unfoldable pub is_event_toggle_command : List ℕ → Bool
is_event_toggle_command line = same_bytes line (codes "/events")

unfoldable pub is_help_command : List ℕ → Bool
is_help_command line = same_bytes line (codes "/help")

unfoldable pub is_new_command : List ℕ → Bool
is_new_command line = same_bytes line (codes "/new")

unfoldable pub is_status_command : List ℕ → Bool
is_status_command line = same_bytes line (codes "/status")

abbrev pub context_tokens : ℕ
context_tokens = 32768

abbrev pub prompt_limit : ℕ
prompt_limit = 32767

abbrev pub im_end : ℕ
im_end = 151645

pub record SelectedTokenFailure : Type 0 where
  pub generated : ℕ
  pub partial : Bool

-- `saturating_add` on a `u32`
unfoldable pub selected_token_failure : ℕ → ℕ → SelectedTokenFailure
selected_token_failure completed_tokens visible_tokens = record {
  generated = if completed_tokens == u32_max then u32_max else completed_tokens + 1;
  partial = not (visible_tokens == 0);
}

pub data HistoryDecision : Type 0 where
  use_history : (prompt_tokens : ℕ) → HistoryDecision
  retry_fresh : HistoryDecision
  reset_history : (prompt_tokens : ℕ) → HistoryDecision
  reject : (fresh_prompt_tokens : ℕ) → HistoryDecision

-- The decision on a fresh prompt, with a history behind it.
unfoldable pub decide_fresh : Option ℕ → HistoryDecision
decide_fresh none = retry_fresh
decide_fresh (some fresh) = if leb fresh prompt_limit then reset_history fresh else reject fresh

abbrev pub or_else : Option ℕ → ℕ → ℕ
or_else none n = n
or_else (some value) n = value

unfoldable pub decide_history : Bool → ℕ → Option ℕ → HistoryDecision
unfolding decide_fresh
decide_history has_history prospective_tokens fresh =
    if leb prospective_tokens prompt_limit
    then use_history prospective_tokens
    else if has_history
    then decide_fresh fresh
    else reject (or_else fresh prospective_tokens)

-- `commit_eos`, and the committed buffer after the call. Both buffers have `context_tokens` words.
unfoldable pub commit_eos : List ℕ → List ℕ → ℕ → Result (Unit {0}) ℕ × List ℕ
commit_eos committed working working_len =
    if working_len == 0
      || (ltb context_tokens working_len || not (get_or working (working_len - 1) 0 == im_end))
    then (err tt, committed)
    else (
      ok working_len,
      splice 0 working_len (take working_len working) (replicate (length committed) 0),
    )

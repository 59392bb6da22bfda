-- ===== src/Tokenizer/Conversation.antt =====
-- `render_conversation_and_tokenize` of crates/promptboot-core/src/tokenizer.rs: a prompt behind the
-- tokens of the turns before.
pub mod Ready
pub mod Suffix
pub mod Turns
use promptboot.Prelude.{
  false, true, ℕ, zero, suc, ◌+◌, ◌-◌, Bool, not, ◌&&◌, ◌||◌, List, [], ◌∷◌, ◌++◌, Option, none,
  some, ltb, ◌==◌, if◌then◌else◌, length, drop, get_or, replicate, u32_max, u64_max, checked_add,
  Result, ok, err, ◌>>◌, fail_if,
}
use promptboot.Prelude.Slices.{splice}
use promptboot.Model.Errors.{
  field_op_add, status_output_capacity, field_capacity, field_state, domain_token_output,
  status_length, status_state, ModelError, model_error,
}
use promptboot.Model.Image.{context_limit}
use promptboot.Tokenizer.Table.{Index}
use promptboot.Tokenizer.Encode.{max_tokens, im_start, im_end}
use promptboot.Tokenizer.Prompt.{PromptComputation, compute_prompt}
use promptboot.Tokenizer.Render.{Scratch, wiped, over, validate_prompt_request}

-- The last token of a list, or 0.
unfoldable pub last_or : ℕ → List ℕ → ℕ
last_or token [] = token
last_or token (next ∷ tokens) = last_or next tokens

abbrev pub is_empty : List ℕ → Bool
is_empty [] = true
is_empty (token ∷ tokens) = false

unfoldable pub validate_conversation_history : List ℕ → Result ModelError (Unit {0})
validate_conversation_history history =
    fail_if
      (is_empty history
        || (ltb context_limit (length history) || not (last_or 0 history == im_end)))
      (model_error status_state domain_token_output (length history - 1) 0 im_end
        (last_or 0 history) field_state 11)

pub record ConversationUsage : Type 0 where
  pub rendered_bytes : ℕ
  pub user_tokens : ℕ
  pub fresh_prompt_tokens : ℕ
  pub history_tokens : ℕ
  pub prompt_tokens : ℕ
  pub prefix_tokens : ℕ

-- The loop that looks for the second start mark; `seen` counts those before.
unfoldable pub second_start : ℕ → ℕ → List ℕ → Option ℕ
second_start at seen [] = none
second_start at seen (token ∷ tokens) =
    let rest = second_start (at + 1) (if token == im_start then seen + 1 else seen) tokens in
    if (token == im_start) && (seen + 1 == 2) then some at else rest

-- `second.and_then(|at| at.checked_sub(1))`, with the test for a line end there.
unfoldable pub suffix_before : List ℕ → Option ℕ → Option ℕ
suffix_before tokens none = none
suffix_before tokens (some zero) = none
suffix_before tokens (some (suc at)) = if get_or tokens at 0 == 198 then some at else none

-- Where the tokens that go behind the history begin.
unfoldable pub suffix_start : List ℕ → List ℕ → Option ℕ
suffix_start [] tokens = some 0
suffix_start (h ∷ history) tokens = suffix_before tokens (second_start 0 0 tokens)

-- The tests of the call before it renders.
unfoldable pub check_conversation :
    List ℕ → List ℕ → ℕ → ℕ → ℕ → Scratch → Result ModelError (Unit {0})
check_conversation history user rendered_len staging_len token_len scratch = do
  fail_if (ltb context_limit (length history)) (
      model_error status_length domain_token_output 0 0 context_limit (length history)
        field_capacity 10)
  if is_empty history then ok tt else validate_conversation_history history
  fail_if (ltb staging_len max_tokens) (
      model_error status_output_capacity domain_token_output 0 0 max_tokens staging_len
        field_capacity 12)
  fail_if (ltb token_len context_limit) (
      model_error status_output_capacity domain_token_output 0 0 context_limit token_len
        field_capacity 13)
  validate_prompt_request user rendered_len staging_len scratch

-- The result of a call, and what the caller's buffers and the outcome hold then.
pub record Conversation : Type 0 where
  pub result : Result ModelError ConversationUsage
  pub rendered : List ℕ
  pub staging : List ℕ
  pub tokens : List ℕ
  pub scratch : Scratch
  pub outcome : ConversationUsage

-- What is reported before the length of the whole prompt is known.
unfoldable pub fresh_usage : List ℕ → PromptComputation → ConversationUsage
fresh_usage history c = record {
  rendered_bytes = length c.rendered;
  user_tokens = c.user_tokens;
  fresh_prompt_tokens = length c.tokens;
  history_tokens = length history;
  prompt_tokens = 0;
  prefix_tokens = c.prefix_tokens;
}

-- `u32::try_from(prospective).unwrap_or(u32::MAX)`
abbrev pub to_u32 : ℕ → ℕ
to_u32 n = if ltb u32_max n then u32_max else n

-- The end of the call: the sum, and the copies.
unfoldable pub append_suffix :
    List ℕ → PromptComputation → Conversation → ℕ → Option ℕ → Conversation
append_suffix history c before start none = record before {
  result =
      err (model_error status_length domain_token_output 0 0 context_limit u64_max field_op_add 15);
}
append_suffix history c before start (some prospective) =
    let usage = record before.outcome { prompt_tokens = to_u32 prospective } in
    if ltb context_limit prospective
    then record before {
      result = err (
          model_error status_output_capacity domain_token_output 0 0 context_limit prospective
            field_capacity 16);
      outcome = usage;
    }
    else record before {
      result = ok usage;
      rendered = over before.rendered c.rendered;
      staging = over (over before.staging c.tokens) (replicate max_tokens 0);
      tokens = over before.tokens (history ++ drop start c.tokens);
      outcome = usage;
    }

-- The place of the suffix.
unfoldable pub append_prompt : List ℕ → PromptComputation → Conversation → Option ℕ → Conversation
append_prompt history c before none = record before {
  result = err (model_error status_state domain_token_output 0 0 1 0 field_state 14);
}
append_prompt history c before (some start) =
    append_suffix history c before start (checked_add (length history) (length c.tokens - start))

-- What follows the computation; `before` holds the buffers, with the scratch wiped.
unfoldable pub converse : List ℕ → Conversation → Result ModelError PromptComputation → Conversation
converse history before (err e) = record before { result = err e }
converse history before (ok c) =
    append_prompt history c (record before { outcome = fresh_usage history c })
      (suffix_start history c.tokens)

-- What follows the tests.
unfoldable pub tested :
    Index → List ℕ → List ℕ → Conversation → Result ModelError (Unit {0}) → Conversation
tested index history user before (err e) = record before { result = err e }
tested index history user before (ok _) =
    converse history (record before { scratch = wiped before.scratch }) (compute_prompt index user)

unfoldable pub render_conversation_and_tokenize :
    Index → List ℕ → List ℕ → List ℕ → List ℕ → List ℕ → Scratch → ConversationUsage → Conversation
render_conversation_and_tokenize index history user rendered staging tokens scratch outcome =
    tested index history user
      (record {
        result = ok outcome;
        rendered = rendered;
        staging = staging;
        tokens = tokens;
        scratch = scratch;
        outcome = outcome;
      })
      (check_conversation history user (length rendered) (length staging) (length tokens) scratch)

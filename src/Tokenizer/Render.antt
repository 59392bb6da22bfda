-- ===== src/Tokenizer/Render.antt =====
-- The calls of crates/promptboot-core/src/tokenizer.rs that render a prompt into the caller's buffers.
pub mod Request
pub mod Delivery
use promptboot.Prelude.{
  ℕ, ◌+◌, not, ◌&&◌, List, [], ◌∷◌, bit_and, ltb, leb, ◌==◌, length, replicate, Result, ok, err,
  ◌>>◌, fail_if,
}
use promptboot.Prelude.Slices.{splice}
use promptboot.Model.Errors.{
  field_base_alignment, status_alignment, domain_scratch, status_scratch_capacity,
  domain_token_output, domain_rendered_output, status_output_capacity, field_capacity,
  field_user_byte, domain_user, status_length, status_input, ModelError, model_error,
}
use promptboot.Tokenizer.Table.{Index}
use promptboot.Tokenizer.Encode.{max_tokens}
use promptboot.Tokenizer.Prompt.{PromptComputation, compute_prompt}

abbrev pub scratch_bytes : ℕ
scratch_bytes = 5120

-- The caller's scratch buffer: its address and its bytes.
pub record Scratch : Type 0 where
  pub address : ℕ
  pub bytes : List ℕ

-- The loop over the user's bytes.
unfoldable pub check_user_bytes : ℕ → List ℕ → Result ModelError (Unit {0})
check_user_bytes at [] = ok tt
check_user_bytes at (byte ∷ bytes) =
    fail_if (not (leb 0x20 byte && leb byte 0x7e))
      (model_error status_input domain_user at at 0x20007e byte field_user_byte 0)
    >> check_user_bytes (at + 1) bytes

-- The tests of a request; `render_and_tokenize` has the same ones.
unfoldable pub validate_prompt_request : List ℕ → ℕ → ℕ → Scratch → Result ModelError (Unit {0})
validate_prompt_request user rendered_len token_len scratch = do
  fail_if (ltb 512 (length user))
      (model_error status_length domain_user 0 0 512 (length user) field_capacity 0)
  check_user_bytes 0 user
  fail_if (ltb rendered_len (148 + length user)) (
      model_error status_output_capacity domain_rendered_output 0 0 (148 + length user) rendered_len
        field_capacity 0)
  fail_if (ltb token_len max_tokens) (
      model_error status_output_capacity domain_token_output 0 0 max_tokens token_len field_capacity
        0)
  fail_if (ltb (length scratch.bytes) scratch_bytes) (
      model_error status_scratch_capacity domain_scratch 0 0 scratch_bytes (length scratch.bytes)
        field_capacity 0)
  fail_if (not (bit_and scratch.address 63 == 0)) (
      model_error status_alignment domain_scratch 0 0 64 (bit_and scratch.address 63)
        field_base_alignment 0)

-- `scratch[..SCRATCH_BYTES].fill(0)`
abbrev pub wiped : Scratch → Scratch
wiped s = record s { bytes = splice 0 scratch_bytes (replicate scratch_bytes 0) s.bytes }

pub record PromptUsage : Type 0 where
  pub rendered_bytes : ℕ
  pub token_count : ℕ
  pub prefix_tokens : ℕ
  pub im_start_count : ℕ
  pub im_end_count : ℕ

-- The result of a call, and what the caller's buffers hold then.
pub record Rendered : Type 0 where
  pub result : Result ModelError PromptUsage
  pub rendered : List ℕ
  pub tokens : List ℕ
  pub scratch : Scratch

-- A buffer whose first bytes or words are overwritten.
abbrev pub over : List ℕ → List ℕ → List ℕ
over buffer new = splice 0 (length new) new buffer

-- `match computation`
unfoldable pub deliver : List ℕ → List ℕ → Scratch → Result ModelError PromptComputation → Rendered
deliver rendered tokens scratch (err e) = record {
  result = err e;
  rendered = rendered;
  tokens = tokens;
  scratch = wiped scratch;
}
deliver rendered tokens scratch (ok c) = record {
  result = ok (record {
    rendered_bytes = length c.rendered;
    token_count = length c.tokens;
    prefix_tokens = c.prefix_tokens;
    im_start_count = 3;
    im_end_count = 2;
  });
  rendered = over rendered c.rendered;
  tokens = over tokens c.tokens;
  scratch = wiped scratch;
}

-- What follows the tests.
unfoldable pub computed :
    Index → List ℕ → List ℕ → List ℕ → Scratch → Result ModelError (Unit {0}) → Rendered
computed index user rendered tokens scratch (err e) = record {
  result = err e;
  rendered = rendered;
  tokens = tokens;
  scratch = scratch;
}
computed index user rendered tokens scratch (ok _) =
    deliver rendered tokens scratch (compute_prompt index user)

unfoldable pub render_and_tokenize : Index → List ℕ → List ℕ → List ℕ → Scratch → Rendered
render_and_tokenize index user rendered tokens scratch =
    computed index user rendered tokens scratch
      (validate_prompt_request user (length rendered) (length tokens) scratch)

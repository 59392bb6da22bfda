-- ===== src/Tokenizer/Render/Delivery.antt =====
-- What a call of `render_and_tokenize` of crates/promptboot-core/src/tokenizer.rs leaves in the
-- caller's buffers.
use promptboot.Prelude.{
  ℕ, ◌+◌, ◌≤◌, ◌<◌, ◌≡◌, refl, List, [], ◌∷◌, ◌++◌, some, length, take, drop, take-append,
  drop-append, Result, ok, err, Decides, decides_ok, decides_err, Ends, ends_ok, ends_err, arith,
}
use promptboot.Prelude.Slices.{length-splice}
use promptboot.ModelContract.{codes}
use promptboot.Model.Errors.{ModelError}
use promptboot.Tokenizer.Pretoken.Tags.{IsTag}
use promptboot.Tokenizer.Table.{Index, byte_map, lookup}
use promptboot.Tokenizer.Encode.{max_tokens, im_start, im_end}
use promptboot.Tokenizer.Encode.Spelling.{Bytes, spelled}
use promptboot.Tokenizer.Prompt.{
  PromptComputation, PromptComputation, PromptComputation, PromptComputation, PromptComputation,
  PromptComputation, before, after, PromptComputation,
}
use promptboot.Tokenizer.Prompt.Reads.{Reads, Reads-length, compute_prompt-Reads}
use promptboot.Tokenizer.Render.{
  Scratch, wiped, PromptUsage, Rendered, over, deliver, computed, render_and_tokenize,
}
use promptboot.Tokenizer.Render.Request.{Printable, Request, validate_prompt_request-Decides}

pub Printable-Bytes : (text : List ℕ) → Printable text → Bytes text
Printable-Bytes [] p = tt
Printable-Bytes (byte ∷ bytes) ((a, b), p) = (omega arith, Printable-Bytes bytes p)

-- A buffer written from its start: what was written, and the rest as before.
pub record Written (buffer new after : List ℕ) : Type 0 where
  pub start : take (length new) after ≡ new
  pub rest : drop (length new) after ≡ drop (length new) buffer
  pub size : length after ≡ length buffer

pub over-Written :
    (buffer new : List ℕ) → length new ≤ length buffer → Written buffer new (over buffer new)
over-Written buffer new l = record {
  start = take-append new (drop (length new) buffer);
  rest = drop-append new (drop (length new) buffer);
  size = length-splice buffer new 0 (length new) (omega arith) (omega arith);
}

-- The outcomes of a call with this request: it is refused and nothing is written; the text is too long
-- for the tokens and only the scratch is wiped; or the prompt is delivered.
pub data Outcome (encode spelling : ℕ → List ℕ) (user rendered tokens : List ℕ) (scratch : Scratch)
    : Rendered → Type 0 where
  refused :
      {e : ModelError}
      → ¬ (Request user (length rendered) (length tokens) scratch)
      → Outcome encode spelling user rendered tokens scratch
          (record { result = err e; rendered = rendered; tokens = tokens; scratch = scratch })
  too_long :
      {e : ModelError}
      → Request user (length rendered) (length tokens) scratch
      → 451 < length user
      → Outcome encode spelling user rendered tokens scratch
          (record { result = err e; rendered = rendered; tokens = tokens; scratch = wiped scratch })
  delivered :
      {usage : PromptUsage} {text words : List ℕ} (prompt staged : List ℕ)
      → Request user (length rendered) (length tokens) scratch
      → prompt ≡ before ++ (user ++ after)
      → spelled spelling staged ≡ spelled encode prompt
      → usage.rendered_bytes ≡ length prompt
      → usage.token_count ≡ length staged
      → Written rendered prompt text
      → Written tokens staged words
      → Outcome encode spelling user rendered tokens scratch
          (record { result = ok usage; rendered = text; tokens = words; scratch = wiped scratch })

module _ (encode spelling : ℕ → List ℕ) (index : Index)
    (bytes : (byte : ℕ) → byte < 256 → spelling (index (byte_map + byte)) ≡ encode byte)
    (joins : (left right result rank : ℕ)
      → (lookup index left right).0 ≡ some (result, rank)
      → spelling result ≡ spelling left ++ spelling right)
    (tags : (token : ℕ) (word : List ℕ) → IsTag token word → spelling token ≡ spelled encode word)
    (start_mark : spelling im_start ≡ spelled encode (codes "<|im_start|>"))
    (end_mark : spelling im_end ≡ spelled encode (codes "<|im_end|>")) where
  module _ (user rendered tokens : List ℕ) (scratch : Scratch) where
    deliver-Outcome :
        Request user (length rendered) (length tokens) scratch
        → {c : Result ModelError PromptComputation}
        → Ends (λ (_ : ModelError). 451 < length user) (Reads encode spelling user) c
        → Outcome encode spelling user rendered tokens scratch (deliver rendered tokens scratch c)
    unfolding deliver
    deliver-Outcome r (ends_err h) = too_long r h
    deliver-Outcome r (ends_ok {a = c} h) =
        let n : length c.rendered ≡ 148 + length user = Reads-length h in
        let a : 148 + length user ≤ length rendered = r.rendered_room in
        let b : max_tokens ≤ length tokens = r.token_room in
        let d : length c.tokens ≤ max_tokens = h.bounded in
        delivered c.rendered c.tokens r h.framed h.reads refl refl
          (over-Written rendered c.rendered (omega arith))
          (over-Written tokens c.tokens (omega arith))

    computed-Outcome :
        {checked : Result ModelError (Unit {0})}
        → Decides (Request user (length rendered) (length tokens) scratch) tt checked
        → Outcome encode spelling user rendered tokens scratch
            (computed index user rendered tokens scratch checked)
    unfolding computed
    computed-Outcome (decides_err n) = refused n
    computed-Outcome (decides_ok r) = deliver-Outcome r (
        compute_prompt-Reads encode spelling index bytes joins tags start_mark end_mark user
          (Printable-Bytes user r.printable))

    -- If the texts of the tokens of bytes, of merges, of tags and of the marks are those of the bytes, the
    -- sides, the tags and the marks, then a call refuses what is no request and writes nothing, or fails for
    -- a text of more than 451 bytes and only wipes the scratch, or writes the user's text in the template,
    -- tokens that spell it and their numbers, and keeps what is behind them.
    pub render_and_tokenize-Outcome :
        Outcome encode spelling user rendered tokens scratch
          (render_and_tokenize index user rendered tokens scratch)
    unfolding render_and_tokenize
    render_and_tokenize-Outcome =
        computed-Outcome
          (validate_prompt_request-Decides user (length rendered) (length tokens) scratch)

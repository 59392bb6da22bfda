-- ===== src/Tokenizer/Conversation/Turns.antt =====
-- What a call of `render_conversation_and_tokenize` of crates/promptboot-core/src/tokenizer.rs leaves in
-- the caller's buffers.
use promptboot.Prelude.{
  ℕ, ◌+◌, ◌-◌, ◌≤◌, ◌<◌, ◌≡◌, refl, sym, ap, subst, ◌∙◌, false, List, ◌++◌, Option, none, some, ltb,
  if-cases, length, length-append, length-replicate, length-drop, take, drop, take-append-drop,
  replicate, checked_add, checked_add-eq, Result, ok, err, Decides, decides_ok, decides_err, Ends,
  ends_ok, ends_err, arith,
}
use promptboot.ModelContract.{codes}
use promptboot.Model.Errors.{ModelError}
use promptboot.Model.Image.{context_limit}
use promptboot.Tokenizer.Pretoken.Tags.{IsTag}
use promptboot.Tokenizer.Table.{Index, byte_map, lookup}
use promptboot.Tokenizer.Encode.{max_tokens, im_start, im_end}
use promptboot.Tokenizer.Encode.Spelling.{spelled}
use promptboot.Tokenizer.Prompt.{before, after, PromptComputation}
use promptboot.Tokenizer.Prompt.Reads.{Reads, Reads-length, compute_prompt-Reads}
use promptboot.Tokenizer.Render.{Scratch, wiped, over}
use promptboot.Tokenizer.Render.Delivery.{Written, over-Written, Printable-Bytes}
use promptboot.Tokenizer.Conversation.{
  ConversationUsage, suffix_start, Conversation, fresh_usage, to_u32, append_suffix, append_prompt,
  converse, tested, render_conversation_and_tokenize,
}
use promptboot.Tokenizer.Conversation.Suffix.{Split, suffix_start-Split}
use promptboot.Tokenizer.Conversation.Ready.{Ready, check_conversation-Decides}

-- The outcomes of a call: without what it asks for nothing is written; with it the scratch is wiped,
-- and either nothing but the report is written besides, or the prompt stands behind the history.
pub data Turn (encode spelling : ℕ → List ℕ) (history user rendered staging tokens : List ℕ)
    (scratch : Scratch) (before_call : ConversationUsage) : Conversation → Type 0 where
  refused :
      {e : ModelError}
      → ¬ Ready history user (length rendered) (length staging) (length tokens) scratch
      → Turn encode spelling history user rendered staging tokens scratch before_call (record {
        result = err e;
        rendered = rendered;
        staging = staging;
        tokens = tokens;
        scratch = scratch;
        outcome = before_call;
      })
  kept :
      {e : ModelError} {usage : ConversationUsage}
      → Ready history user (length rendered) (length staging) (length tokens) scratch
      → Turn encode spelling history user rendered staging tokens scratch before_call (record {
        result = err e;
        rendered = rendered;
        staging = staging;
        tokens = tokens;
        scratch = wiped scratch;
        outcome = usage;
      })
  taken :
      {usage : ConversationUsage} {text blank words : List ℕ} (prompt front fresh : List ℕ)
      → Ready history user (length rendered) (length staging) (length tokens) scratch
      → prompt ≡ before ++ (user ++ after)
      → spelled spelling (front ++ fresh) ≡ spelled encode prompt
      → Split history front fresh
      → length (history ++ fresh) ≤ context_limit
      → usage.prompt_tokens ≡ length (history ++ fresh)
      → Written rendered prompt text
      → Written tokens (history ++ fresh) words
      → take max_tokens blank ≡ replicate max_tokens 0
      → length blank ≡ length staging
      → Turn encode spelling history user rendered staging tokens scratch before_call (record {
        result = ok usage;
        rendered = text;
        staging = blank;
        tokens = words;
        scratch = wiped scratch;
        outcome = usage;
      })

not_above : (a b : ℕ) → ltb a b ≡ false → b ≤ a
not_above a b h = ground arith

to_u32-small : (n : ℕ) → n ≤ context_limit → to_u32 n ≡ n
to_u32-small n l = ground arith

module _ (encode spelling : ℕ → List ℕ) (index : Index)
    (bytes : (byte : ℕ) → byte < 256 → spelling (index (byte_map + byte)) ≡ encode byte)
    (joins : (left right result rank : ℕ)
      → (lookup index left right).0 ≡ some (result, rank)
      → spelling result ≡ spelling left ++ spelling right)
    (tags : (token : ℕ) (word : List ℕ) → IsTag token word → spelling token ≡ spelled encode word)
    (start_mark : spelling im_start ≡ spelled encode (codes "<|im_start|>"))
    (end_mark : spelling im_end ≡ spelled encode (codes "<|im_end|>"))
    (history user rendered staging tokens : List ℕ) (scratch : Scratch)
    (before_call : ConversationUsage) where
  -- The buffers before a step; the report does not matter.
  abbrev buffers : Result ModelError ConversationUsage → Scratch → ConversationUsage → Conversation
  buffers result left outcome = record {
    result = result;
    rendered = rendered;
    staging = staging;
    tokens = tokens;
    scratch = left;
    outcome = outcome;
  }

  module _ (ready : Ready history user (length rendered) (length staging) (length tokens) scratch)
      (c : PromptComputation) (reads : Reads encode spelling user c)
      (result : Result ModelError ConversationUsage) (outcome : ConversationUsage) where
    append_suffix-Turn :
        (start : ℕ)
        → suffix_start history c.tokens ≡ some start
        → (sum : Option ℕ) → checked_add (length history) (length c.tokens - start) ≡ sum
        → Turn encode spelling history user rendered staging tokens scratch before_call
            (append_suffix history c (buffers result (wiped scratch) outcome) start sum)
    unfolding append_suffix
    append_suffix-Turn start s none e = kept ready
    append_suffix-Turn start s (some prospective) e =
        if-cases (Turn encode spelling history user rendered staging tokens scratch before_call)
          (ltb context_limit prospective) _ _ (λ _. kept ready)
          λ f.
            let n : length c.rendered ≡ 148 + length user = Reads-length reads in
            let p : prospective ≡ length history + (length c.tokens - start) =
              (checked_add-eq (length history) (length c.tokens - start) e).0 in
            let d : length (history ++ drop start c.tokens) ≡ prospective =
              omega
                (arith, length-append history (drop start c.tokens), length-drop start c.tokens) in
            let within : prospective ≤ context_limit = not_above context_limit prospective f in
            let room : 148 + length user ≤ length rendered = ready.request.rendered_room in
            let space : context_limit ≤ length tokens = ready.token_room in
            let few : length c.tokens ≤ max_tokens = reads.bounded in
            let stage : max_tokens ≤ length staging = ready.staging_room in
            let staged : Written staging c.tokens (over staging c.tokens) =
              over-Written staging c.tokens (omega arith) in
            let size : length (over staging c.tokens) ≡ length staging = staged.size in
            let zeros : length {A = ℕ} (replicate max_tokens 0) ≡ max_tokens =
              length-replicate {A = ℕ} max_tokens 0 in
            let blank : Written (over staging c.tokens) (replicate max_tokens 0)
                (over (over staging c.tokens) (replicate max_tokens 0)) =
              over-Written (over staging c.tokens) (replicate max_tokens 0) (omega arith) in
            taken c.rendered (take start c.tokens) (drop start c.tokens) ready reads.framed
              (ap (spelled spelling) (take-append-drop start c.tokens) ∙ reads.reads)
              (suffix_start-Split history c.tokens s) (omega arith)
              (to_u32-small prospective within ∙ sym d)
              (over-Written rendered c.rendered (omega arith))
              (over-Written tokens (history ++ drop start c.tokens) (omega arith))
              (subst
                (λ (n : ℕ).
                  take n (over (over staging c.tokens) (replicate max_tokens 0))
                  ≡ replicate max_tokens 0)
                zeros blank.start)
              (blank.size ∙ size)

    append_prompt-Turn :
        (start : Option ℕ)
        → suffix_start history c.tokens ≡ start
        → Turn encode spelling history user rendered staging tokens scratch before_call
            (append_prompt history c (buffers result (wiped scratch) outcome) start)
    unfolding append_prompt
    append_prompt-Turn none s = kept ready
    append_prompt-Turn (some start) s = append_suffix-Turn start s _ refl

  converse-Turn :
      Ready history user (length rendered) (length staging) (length tokens) scratch
      → (outcome : ConversationUsage) {computed : Result ModelError PromptComputation}
      → Ends (λ (_ : ModelError). 451 < length user) (Reads encode spelling user) computed
      → Turn encode spelling history user rendered staging tokens scratch before_call
          (converse history (buffers (ok outcome) (wiped scratch) outcome) computed)
  unfolding converse
  converse-Turn ready outcome (ends_err h) = kept ready
  converse-Turn ready outcome (ends_ok {a = c} h) =
      append_prompt-Turn ready c h (ok outcome) (fresh_usage history c) _ refl

  tested-Turn :
      {checked : Result ModelError (Unit {0})}
      → Decides
          (Ready history user (length rendered) (length staging) (length tokens) scratch)
          tt
          checked
      → Turn encode spelling history user rendered staging tokens scratch before_call
          (tested index history user (buffers (ok before_call) scratch before_call) checked)
  unfolding tested
  tested-Turn (decides_err n) = refused n
  tested-Turn (decides_ok r) = converse-Turn r before_call (
      compute_prompt-Reads encode spelling index bytes joins tags start_mark end_mark user
        (Printable-Bytes user r.request.printable))

  -- If the tokens spell what they stand for, a call without what it asks for fails and writes nothing;
  -- any other wipes the scratch, and where it fails keeps the rendered text, the staging and the tokens.
  -- One that succeeds writes the history and, behind it, the last part of tokens that spell the prompt:
  -- all of them without a history, else those from the line end before the second start mark on, one
  -- start mark standing before it. They are at most the context in all, reported as such, and the
  -- staging is cleared.
  pub render_conversation_and_tokenize-Turn :
      Turn encode spelling history user rendered staging tokens scratch before_call (
        render_conversation_and_tokenize index history user rendered staging tokens scratch
          before_call)
  unfolding render_conversation_and_tokenize
  render_conversation_and_tokenize-Turn = tested-Turn (
      check_conversation-Decides history user (length rendered) (length staging) (length tokens)
        scratch)

-- ===== src/Tokenizer/Prompt/Reads.antt =====
-- The tokens and the text that `compute_prompt` of crates/promptboot-core/src/tokenizer.rs computes side
-- by side.
use promptboot.Prelude.{
  length-append, ◌∙◌, ends_ok, ap, ◌-◌, refl, ℕ, ◌+◌, ◌≤◌, ◌<◌, ◌≡◌, Bool, true, ◌&&◌, List, [],
  ◌∷◌, ◌++◌, some, ltb, length, Result, ◌>>=◌, Ends, bind-Ends, Ends-weaken, arith,
}
use promptboot.ModelContract.{codes}
use promptboot.Model.Errors.{ModelError}
use promptboot.Tokenizer.Pretoken.Tags.{IsTag}
use promptboot.Tokenizer.Table.{Index, byte_map, lookup}
use promptboot.Tokenizer.Encode.{max_tokens, max_segment, im_start, im_end, control, ordinary}
use promptboot.Tokenizer.Encode.Spelling.{Bytes, spelled}
use promptboot.Tokenizer.Encode.Spells.{Spells, Spells-append, Spells-length}
use promptboot.Tokenizer.Encode.Lossless.{control-Spells}
use promptboot.Tokenizer.Encode.Tagged.{ordinary-Spells}
use promptboot.Tokenizer.Prompt.{
  compute_prompt, suffix_part, line_end, system_text, prefix_part, before, after, PromptComputation,
}

-- Numbers that are bytes, tested.
abbrev are_bytes : List ℕ → Bool
are_bytes [] = true
are_bytes (byte ∷ bytes) = ltb byte 256 && are_bytes bytes

pub are_bytes-Bytes : (text : List ℕ) → are_bytes text ≡ true → Bytes text
are_bytes-Bytes [] h = tt
are_bytes-Bytes (byte ∷ bytes) h = (ground arith, are_bytes-Bytes bytes (ground arith))

-- The prompt: its text has the template around the user's, and its tokens spell it.
pub record Reads (encode spelling : ℕ → List ℕ) (user : List ℕ) (c : PromptComputation)
    : Type 0 where
  pub framed : c.rendered ≡ before ++ (user ++ after)
  pub reads : spelled spelling c.tokens ≡ spelled encode c.rendered
  pub bounded : length c.tokens ≤ max_tokens

pub Reads-length :
    {encode spelling : ℕ → List ℕ} {user : List ℕ} {c : PromptComputation}
    → Reads encode spelling user c
    → length c.rendered ≡ 148 + length user
unfolding before after
Reads-length {encode} {spelling} {user} {c} r =
    ap length r.framed ∙ (omega (arith, length-append user after))

module _ (encode spelling : ℕ → List ℕ) (index : Index)
    (bytes : (byte : ℕ) → byte < 256 → spelling (index (byte_map + byte)) ≡ encode byte)
    (joins : (left right result rank : ℕ)
      → (lookup index left right).0 ≡ some (result, rank)
      → spelling result ≡ spelling left ++ spelling right)
    (tags : (token : ℕ) (word : List ℕ) → IsTag token word → spelling token ≡ spelled encode word)
    (start_mark : spelling im_start ≡ spelled encode (codes "<|im_start|>"))
    (end_mark : spelling im_end ≡ spelled encode (codes "<|im_end|>")) where
  -- What the call fails for.
  abbrev Long : List ℕ → Type 0
  Long user = 451 < length user

  prompt-Reads :
      {user : List ℕ} (prefix typed whole : List ℕ)
      → Spells encode spelling [] (before ++ (user ++ after)) whole
      → Reads encode spelling user (record {
        rendered = before ++ (user ++ after);
        tokens = whole;
        prefix_tokens = length prefix;
        user_tokens = length typed - length prefix;
      })
  prompt-Reads prefix typed whole s = record {
    framed = refl;
    reads = ap (spelled spelling) s.behind ∙ s.reads;
    bounded = s.fits (omega arith);
  }

  module _ (user : List ℕ) where
    -- A chain of parts.
    followed :
        {staged front back : List ℕ} {m : Result ModelError (List ℕ)}
        {f : List ℕ → Result ModelError (List ℕ)}
        → Ends (λ (_ : ModelError). Long user) (Spells encode spelling staged front) m
        → ((next : List ℕ)
            → length next ≤ length staged + length front
            → Ends (λ (_ : ModelError). Long user) (Spells encode spelling next back) (f next))
        → Ends
            (λ (_ : ModelError). Long user)
            (Spells encode spelling staged (front ++ back))
            (m >>= f)
    followed {staged} {front} {back} h g =
        bind-Ends h λ next (s : Spells encode spelling staged front next).
          Ends-weaken (g next (Spells-length s))
            λ after (t : Spells encode spelling next back after). Spells-append encode spelling s t

    -- The parts, which fail where there is no room for them.
    said :
        (staged text : List ℕ)
        → are_bytes text ≡ true
        → length text ≤ max_segment
        → (max_tokens < length staged + length text → Long user)
        → Ends
            (λ (_ : ModelError). Long user)
            (Spells encode spelling staged text)
            (ordinary index staged text)
    said staged text b p q =
        ordinary-Spells (Long user) encode spelling index bytes joins tags staged text
          (are_bytes-Bytes text b) (λ h. absurd (omega arith)) q

    started :
        (staged : List ℕ)
        → (max_tokens < length staged + 12 → Long user)
        → Ends
            (λ (_ : ModelError). Long user)
            (Spells encode spelling staged (codes "<|im_start|>"))
            (control staged im_start)
    started staged q =
        control-Spells (Long user) encode spelling staged im_start (codes "<|im_start|>") start_mark
          (omega arith) q

    ended :
        (staged : List ℕ)
        → (max_tokens < length staged + 10 → Long user)
        → Ends
            (λ (_ : ModelError). Long user)
            (Spells encode spelling staged (codes "<|im_end|>"))
            (control staged im_end)
    ended staged l =
        control-Spells (Long user) encode spelling staged im_end (codes "<|im_end|>") end_mark
          (omega arith) l

    prefix_part-Spells :
        Ends (λ (_ : ModelError). Long user) (Spells encode spelling [] before) (prefix_part index)
    unfolding prefix_part before system_text
    prefix_part-Spells = followed (started [] λ h. absurd (omega arith)) λ a la.
        followed (said a (codes "system") refl (omega arith) λ h. absurd (omega arith)) λ b lb.
          followed (said b line_end refl (omega arith) λ h. absurd (omega arith)) λ c lc.
            followed
              (said c (codes "You are Qwen, created by Alibaba Cloud. You are a helpful assistant.")
                refl (omega arith) λ h. absurd (omega arith))
              λ d ld. followed (ended d λ h. absurd (omega arith)) λ e le.
                followed (said e line_end refl (omega arith) λ h. absurd (omega arith)) λ f lf.
                  followed (started f λ h. absurd (omega arith)) λ g lg.
                    followed (said g (codes "user") refl (omega arith) λ h. absurd (omega arith))
                      λ h lh. said h line_end refl (omega arith) λ h. absurd (omega arith)

    suffix_part-Spells :
        (staged : List ℕ)
        → length staged ≤ 115 + length user
        → Ends
            (λ (_ : ModelError). Long user)
            (Spells encode spelling staged after)
            (suffix_part index staged)
    unfolding suffix_part after
    suffix_part-Spells staged l = followed (ended staged λ h. omega arith) λ a la.
        followed (said a line_end refl (omega arith) λ h. omega arith) λ b lb.
          followed (started b λ h. omega arith) λ c lc.
            followed (said c (codes "assistant") refl (omega arith) λ h. omega arith)
              λ d ld. said d line_end refl (omega arith) λ h. omega arith

    length-before : length before ≡ 115
    unfolding before
    length-before = refl

    -- The tokens of a prompt spell its text, which is the user's in the template; there are at most
    -- `max_tokens`. A text of up to 451 bytes has one.
    pub compute_prompt-Reads :
        Bytes user
        → Ends
            (λ (_ : ModelError). 451 < length user)
            (Reads encode spelling user)
            (compute_prompt index user)
    unfolding compute_prompt
    compute_prompt-Reads b =
        bind-Ends prefix_part-Spells λ prefix (s : Spells encode spelling [] before prefix).
          let m : length prefix ≤ 0 + length before = Spells-length s in
          let n : length before ≡ 115 = length-before in
          bind-Ends
            (ordinary-Spells (Long user) encode spelling index bytes joins tags prefix user b
              (λ h. omega arith) (λ h. omega arith))
            λ typed (t : Spells encode spelling prefix user typed).
              let k : length typed ≤ length prefix + length user = Spells-length t in
              bind-Ends (suffix_part-Spells typed (omega arith))
                λ whole (u : Spells encode spelling typed after whole). ends_ok (
                  prompt-Reads prefix typed whole
                    (Spells-append encode spelling s (Spells-append encode spelling t u)))

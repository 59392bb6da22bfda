-- ===== src/Tokenizer/Encode/Lossless.antt =====
-- What `bpe` and `regex_fragments` of crates/promptboot-core/src/tokenizer.rs stage: tokens that spell
-- their text.
use promptboot.Prelude.{
  fail_if-Ends_when, ℕ, zero, suc, ◌+◌, ◌≤◌, ◌<◌, ◌≡◌, refl, sym, subst, ◌∙◌, List, [], ◌∷◌, ◌++◌,
  All-take, All-drop, length, length-append, length-take, length-drop, take, drop, take-length,
  take-append-drop, Ends, ends_ok, bind-Ends, Ends-weaken, some, arith,
}
use promptboot.Model.Errors.{ModelError}
use promptboot.Tokenizer.Pretoken.{pretoken_length}
use promptboot.Tokenizer.Pretoken.Bounds.{Fragment, pretoken_length-Fragment}
use promptboot.Tokenizer.Table.{Index, byte_map, lookup}
use promptboot.Tokenizer.Encode.{
  max_tokens, max_segment, byte_segment, merge_all, bpe, control, fragments, regex_fragments,
}
use promptboot.Tokenizer.Encode.Spelling.{spelled, Bytes, spelled-byte_segment}
use promptboot.Tokenizer.Encode.Spells.{
  Spells, Spells-nil, Spells-append, Spells-one, Spells-length, length-byte_segment,
}
use promptboot.Tokenizer.Encode.Merging.{merge_all-spelled, length-merge_all}

-- `P` is what an error means.
module _ (P : Type 0) where
  pub control-Spells :
      (encode spelling : ℕ → List ℕ) (staged : List ℕ) (token : ℕ) (text : List ℕ)
      → spelling token ≡ spelled encode text
      → 1 ≤ length text
      → (max_tokens < length staged + length text → P)
      → Ends (λ (_ : ModelError). P) (Spells encode spelling staged text) (control staged token)
  unfolding control
  control-Spells encode spelling staged token text e l p =
      bind-Ends (fail_if-Ends_when _ _ (λ t. p (ground arith)))
        λ _ f. ends_ok (Spells-one encode spelling staged token text e l (ground arith))

  module _ (encode spelling : ℕ → List ℕ) (index : Index)
      (bytes : (byte : ℕ) → byte < 256 → spelling (index (byte_map + byte)) ≡ encode byte)
      (joins : (left right result rank : ℕ)
        → (lookup index left right).0 ≡ some (result, rank)
        → spelling result ≡ spelling left ++ spelling right) where
    bpe-short :
        (text : List ℕ)
        → length (merge_all index (length text) (byte_segment index text)) ≤ length text
    bpe-short text = omega (
      arith,
      length-merge_all index (length text) (byte_segment index text),
      length-byte_segment index text,
    )

    bpe-Spells :
        (staged text : List ℕ)
        → Bytes text
        → (max_segment < length text → P)
        → (max_tokens < length staged + length text → P)
        → Ends (λ (_ : ModelError). P) (Spells encode spelling staged text) (bpe index staged text)
    unfolding bpe
    bpe-Spells staged text b p q = bind-Ends (fail_if-Ends_when _ _ (λ t. p (ground arith))) λ _ _.
        bind-Ends
          (fail_if-Ends_when _ _ (λ t. q (
            let n : length (merge_all index (length text) (byte_segment index text)) ≤ length text =
              bpe-short text in
            ground arith)))
          λ _ f. ends_ok (record {
            new = merge_all index (length text) (byte_segment index text);
            behind = refl;
            reads =
                merge_all-spelled spelling index joins (length text) (byte_segment index text)
                ∙ spelled-byte_segment encode spelling index bytes text b;
            short = bpe-short text;
            fits = λ _.
                let n : length (staged ++ merge_all index (length text) (byte_segment index text))
                    ≡ length staged
                      + length (merge_all index (length text) (byte_segment index text)) =
                  length-append staged _ in
                ground arith;
          })

    fragments-Spells :
        (fuel : ℕ) (staged text : List ℕ)
        → length text ≤ fuel
        → Bytes text
        → (max_segment < length text → P)
        → (max_tokens < length staged + length text → P)
        → Ends
            (λ (_ : ModelError). P)
            (Spells encode spelling staged text)
            (fragments index fuel staged text)
    unfolding fragments
    fragments-Spells fuel staged [] l b p q = ends_ok (Spells-nil encode spelling staged)
    fragments-Spells zero staged (byte ∷ rest) l b p q = absurd (omega arith)
    fragments-Spells (suc fuel) staged (byte ∷ rest) l b p q =
        let text : List ℕ = byte ∷ rest in
        let size : ℕ = pretoken_length text in
        let f : Fragment text size = pretoken_length-Fragment byte rest in
        let front : length (take size text) ≤ length text = omega (arith, length-take size text) in
        let back : length (take size text) + length (drop size text) ≡ length text =
          omega (arith, length-take size text, length-drop size text) in
        let shorter : length (drop size text) < length text =
          omega (arith, f.0, f.1, length-drop size text) in
        bind-Ends
          (bpe-Spells staged (take size text)
            (All-take _ text size (length text) f.1 (subst Bytes (sym (take-length text)) b))
            (λ h. p (omega arith)) (λ h. q (omega arith)))
          λ next (s : Spells encode spelling staged (take size text) next).
            let n : length next ≤ length staged + length (take size text) = Spells-length s in
            Ends-weaken
              (fragments-Spells fuel next (drop size text) (omega arith)
                (All-drop _ text 0 size (omega arith) b) (λ h. p (omega arith))
                (λ h. q (omega arith)))
              λ after (t : Spells encode spelling next (drop size text) after).
                subst (λ (xs : List ℕ). Spells encode spelling staged xs after)
                  (take-append-drop size text) (Spells-append encode spelling s t)

    pub regex_fragments-Spells :
        (staged text : List ℕ)
        → Bytes text
        → (max_segment < length text → P)
        → (max_tokens < length staged + length text → P)
        → Ends
            (λ (_ : ModelError). P)
            (Spells encode spelling staged text)
            (regex_fragments index staged text)
    unfolding regex_fragments
    regex_fragments-Spells staged text = fragments-Spells (length text) staged text (omega arith)

-- ===== src/Tokenizer/Encode/Tagged.antt =====
-- What `ordinary` of crates/promptboot-core/src/tokenizer.rs stages: tokens that spell its text.
use promptboot.Prelude.{
  inr, inl, ◌⊎◌, false, ap₂, ℕ, zero, suc, ◌+◌, ◌≤◌, ◌<◌, ◌≡◌, sym, ap, subst, ◌∙◌, not, List, [],
  ◌∷◌, ◌++◌, All-take, All-drop, ◌==◌, if◌then◌else◌, if-cases, length, length-append, take, drop,
  take-append, drop-append, take-length, Result, ok, ◌>>=◌, Ends, ends_ok, bind-Ends, Ends-weaken,
  some, arith,
}
use mathlib.Core.List.{append_assoc}
use promptboot.Model.Errors.{ModelError}
use promptboot.Tokenizer.Pretoken.{Tag, next_user_defined}
use promptboot.Tokenizer.Pretoken.Tags.{IsTag, FirstTag, no_tag, first_tag, next_user_defined_lem}
use promptboot.Tokenizer.Table.{Index, byte_map, lookup}
use promptboot.Tokenizer.Encode.{
  max_tokens, max_segment, regex_fragments, tagged, ordinary_from, ordinary,
}
use promptboot.Tokenizer.Encode.Spelling.{spelled, Bytes}
use promptboot.Tokenizer.Encode.Spells.{
  Spells, Spells-nil, Spells-append, Spells-length, IsTag-length, IsTag-token,
}
use promptboot.Tokenizer.Encode.Lossless.{control-Spells, regex_fragments-Spells}

-- `P` is what an error means.
module _ (P : Type 0) where
  module _ (encode spelling : ℕ → List ℕ) (index : Index)
      (bytes : (byte : ℕ) → byte < 256 → spelling (index (byte_map + byte)) ≡ encode byte)
      (joins : (left right result rank : ℕ)
        → (lookup index left right).0 ≡ some (result, rank)
        → spelling result ≡ spelling left ++ spelling right) where
    -- The text before a tag; no text where the tag comes first.
    plain-Spells :
        (staged text : List ℕ) (at : ℕ)
        → Bytes (take at text)
        → (max_segment < length (take at text) → P)
        → (max_tokens < length staged + length (take at text) → P)
        → Ends
            (λ (_ : ModelError). P)
            (Spells encode spelling staged (take at text))
            (if not (at == 0) then regex_fragments index staged (take at text) else ok staged)
    plain-Spells staged text zero b p q = ends_ok (Spells-nil encode spelling staged)
    plain-Spells staged text (suc at) b p q =
        let e : (suc at == 0) ≡ false = ground arith in
        rw e (
          regex_fragments-Spells P encode spelling index bytes joins staged (take (suc at) text) b p
            q)

    module _
        (tags : (token : ℕ) (word : List ℕ)
          → IsTag token word
          → spelling token ≡ spelled encode word) where
      -- A turn of the loop: the text before the tag, and the tag.
      tagged-Spells :
          (staged text front word : List ℕ) (tag : Tag)
          → take tag.at text ≡ front
          → Bytes front
          → IsTag tag.token word
          → (max_segment < length front → P)
          → (max_tokens < length staged + length (front ++ word) → P)
          → Ends
              (λ (_ : ModelError). P)
              (Spells encode spelling staged (front ++ word))
              (tagged index tag staged text)
      unfolding tagged
      tagged-Spells staged text front word tag e b t p q =
          let n : length (front ++ word) ≡ length front + length word = length-append front word in
          let m : length (take tag.at text) ≡ length front = ap length e in
          let w : 1 ≤ length word = IsTag-length t in
          bind-Ends
            (plain-Spells staged text tag.at (subst Bytes (sym e) b) (λ h. p (omega arith))
              (λ h. q (omega arith)))
            λ next (s : Spells encode spelling staged (take tag.at text) next).
              let k : length next ≤ length staged + length (take tag.at text) = Spells-length s in
              Ends-weaken
                (control-Spells P encode spelling next tag.token word (tags tag.token word t) w
                  (λ h. q (omega arith)))
                λ after (c : Spells encode spelling next word after).
                  Spells-append encode spelling
                    (subst (λ (xs : List ℕ). Spells encode spelling staged xs next) e s) c

      -- A turn, with what is known of the turns behind it.
      turn-Spells :
          (staged text : List ℕ) (tag : Tag) (more : List ℕ → Result ModelError (List ℕ))
          → FirstTag text 0 tag
          → Bytes text
          → (max_segment < length text → P)
          → (max_tokens < length staged + length text → P)
          → ((next : List ℕ)
              → length (drop (tag.at + tag.size) text) < length text
              → length next + length (drop (tag.at + tag.size) text) ≤ length staged + length text
              → Ends
                  (λ (_ : ModelError). P)
                  (Spells encode spelling next (drop (tag.at + tag.size) text))
                  (more next))
          → Ends
              (λ (_ : ModelError). P)
              (Spells encode spelling staged text)
              (if tag.token == 0
                then (if not (tag.at == 0)
                    then regex_fragments index staged (take tag.at text)
                    else ok staged)
                else tagged index tag staged text >>= more)
      turn-Spells staged text tag more (no_tag t a z) b p q m =
          let e : take tag.at text ≡ text =
            ap (λ (n : ℕ). take n text) (omega (arith, a)) ∙ take-length text in
          if-cases (Ends (λ (_ : ModelError). P) (Spells encode spelling staged text))
            (tag.token == 0) _ _
            (λ _.
              subst
                (λ (xs : List ℕ).
                  Ends (λ (_ : ModelError). P) (Spells encode spelling staged xs)
                    (if not (tag.at == 0)
                      then regex_fragments index staged (take tag.at text)
                      else ok staged))
                e
                (plain-Spells staged text tag.at (subst Bytes (sym e) b)
                  (λ h. p (subst (λ (xs : List ℕ). max_segment < length xs) e h))
                  (λ h. q (subst (λ (xs : List ℕ). max_tokens < length staged + length xs) e h))))
            (λ f. absurd (ground arith))
      turn-Spells staged text tag more (first_tag front word back e a z t) b p q m =
          let size : length text ≡ length front + (length word + length back) =
            omega
              (arith, ap length e, length-append front (word ++ back), length-append word back) in
          let joined : length (front ++ word) ≡ length front + length word =
            length-append front word in
          let split : text ≡ (front ++ word) ++ back = e ∙ sym (append_assoc front word back) in
          let f : take tag.at text ≡ front =
            let c : tag.at ≡ length front = omega arith in
            ap₂ (λ (n : ℕ) (xs : List ℕ). take n xs) c e ∙ take-append front (word ++ back) in
          let g : drop (tag.at + tag.size) text ≡ back =
            let c : tag.at + tag.size ≡ length (front ++ word) = omega arith in
            ap₂ (λ (n : ℕ) (xs : List ℕ). drop n xs) c split ∙ drop-append (front ++ word) back in
          let w : 1 ≤ length word = IsTag-length t in
          let k : 1 ≤ tag.token = IsTag-token t in
          let d : length (drop (tag.at + tag.size) text) ≡ length back = ap length g in
          if-cases (Ends (λ (_ : ModelError). P) (Spells encode spelling staged text))
            (tag.token == 0) _ _ (λ h. absurd (ground arith))
            (λ _.
              bind-Ends
                (tagged-Spells staged text front word tag f
                  (subst Bytes f (
                    All-take _ text tag.at (length text) (omega arith)
                      (subst Bytes (sym (take-length text)) b)))
                  t (λ h. p (omega arith)) (λ h. q (omega arith)))
                λ next (s : Spells encode spelling staged (front ++ word) next).
                  let n : length next ≤ length staged + length (front ++ word) = Spells-length s in
                  Ends-weaken (m next (omega arith) (omega arith))
                    λ after (r : Spells encode spelling next (drop (tag.at + tag.size) text) after).
                      subst (λ (xs : List ℕ). Spells encode spelling staged xs after) (sym split)
                        (Spells-append encode spelling s
                          (subst (λ (xs : List ℕ). Spells encode spelling next xs after) g r)))

      ordinary_from-Spells :
          (fuel : ℕ) (staged text : List ℕ)
          → length text ≤ fuel
          → Bytes text
          → (max_segment < length text → P)
          → (max_tokens < length staged + length text → P)
          → Ends
              (λ (_ : ModelError). P)
              (Spells encode spelling staged text)
              (ordinary_from index fuel staged text)
      unfolding ordinary_from
      ordinary_from-Spells fuel staged [] l b p q = ends_ok (Spells-nil encode spelling staged)
      ordinary_from-Spells zero staged (byte ∷ rest) l b p q = absurd (omega arith)
      ordinary_from-Spells (suc fuel) staged (byte ∷ rest) l b p q =
          let text : List ℕ = byte ∷ rest in
          let tag : Tag = next_user_defined text in
          turn-Spells staged text tag _ (next_user_defined_lem text).0 b p q λ next shorter fewer.
            ordinary_from-Spells fuel next (drop (tag.at + tag.size) text) (omega arith)
              (All-drop _ text 0 (tag.at + tag.size) (omega arith) b) (λ h. p (omega arith))
              (λ h. q (omega arith))

      -- The tokens staged spell the text; it fails only for a text with more bytes than a segment or
      -- than there is room for tokens.
      pub ordinary-Spells :
          (staged text : List ℕ)
          → Bytes text
          → (max_segment < length text → P)
          → (max_tokens < length staged + length text → P)
          → Ends
              (λ (_ : ModelError). P)
              (Spells encode spelling staged text)
              (ordinary index staged text)
      unfolding ordinary
      ordinary-Spells staged text = ordinary_from-Spells (length text) staged text (omega arith)

-- Staged tokens spell the text of `ordinary` with its bytes encoded, are no more than it has bytes and
-- at most `max_tokens` with those before, if the tokens of bytes, of merges and of tags do so one by
-- one; it fails only for a text of more than 512 bytes, or of more bytes than there is room for tokens.
pub ordinary_lem :
    (encode spelling : ℕ → List ℕ) (index : Index)
    → ((byte : ℕ) → byte < 256 → spelling (index (byte_map + byte)) ≡ encode byte)
    → ((left right result rank : ℕ)
        → (lookup index left right).0 ≡ some (result, rank)
        → spelling result ≡ spelling left ++ spelling right)
    → ((token : ℕ) (word : List ℕ) → IsTag token word → spelling token ≡ spelled encode word)
    → (staged text : List ℕ) → Bytes text
    → Ends
        (λ (_ : ModelError).
          (max_segment < length text) ⊎ (max_tokens < length staged + length text))
        (Spells encode spelling staged text)
        (ordinary index staged text)
ordinary_lem encode spelling index bytes joins tags staged text b =
    ordinary-Spells _ encode spelling index bytes joins tags staged text b (λ h. inl h) (λ h. inr h)

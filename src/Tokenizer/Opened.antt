-- ===== src/Tokenizer/Opened.antt =====
-- The tokenizer that crates/promptboot-core/src/tokenizer.rs builds for a model that
-- crates/promptboot-core/src/model.rs opened.
use promptboot.Prelude.{
  false, ℕ, ◌+◌, ◌-◌, ◌*◌, ◌<◌, ◌≡◌, sym, ap, ap₂, subst, ◌∙◌, Bool, List, [], ◌++◌, some, leb,
  u32_max, Result, ok, err, ◌>>=◌, Decides, decides_ok, decides_err, Ends, ends_err, Ends-weaken,
  inl, inr, arith,
}
use promptboot.ModelContract.{codes}
use promptboot.Sha256.Compress.{Chain}
use promptboot.Model.Errors.{ModelError}
use promptboot.Model.Image.{Image, Slice, content, read, u32_at, vocab_count, merge_count}
use promptboot.Model.Merges.{token_text}
use promptboot.Model.Joins.{FrozenMerge}
use promptboot.Model.View.{ModelView, Merge, merge, token_bytes, section_at}
use promptboot.Model.Open.{open_authenticated}
use promptboot.Model.Opening.{FrozenModel, opened, open_authenticated-Decides}
use promptboot.Tokenizer.Alphabet.{encoded_byte}
use promptboot.Tokenizer.Pretoken.{tool_call, tool_end}
use promptboot.Tokenizer.Pretoken.Tags.{IsTag}
use promptboot.Tokenizer.Table.{Index, byte_map, lookup}
use promptboot.Tokenizer.Encode.{im_start, im_end}
use promptboot.Tokenizer.Encode.Spelling.{spelled}
use promptboot.Tokenizer.Construct.{construct}
use promptboot.Tokenizer.Construct.Built.{Built, construct-Built}
use promptboot.Tokenizer.Render.{Scratch, render_and_tokenize}
use promptboot.Tokenizer.Render.Delivery.{Outcome, render_and_tokenize-Outcome}

-- The text of a token in the vocabulary; none for a number that is no token.
abbrev lent : ModelView → Result ModelError Slice → List ℕ
lent v (ok piece) = content v.image piece
lent v (err e) = []

abbrev pub vocabulary_text : ModelView → ℕ → List ℕ
vocabulary_text v token = lent v (token_bytes v token)

pub merge-fields :
    (v : ModelView) (rank : ℕ) (m : Merge)
    → merge v rank ≡ ok m
    → (m.left ≡ u32_at v.image ((section_at v 3).offset + rank * 12))
      × ((m.right ≡ u32_at v.image ((section_at v 3).offset + rank * 12 + 4))
          × (m.result ≡ u32_at v.image ((section_at v 3).offset + rank * 12 + 8)))
      × (rank < merge_count)
unfolding merge
merge-fields v rank m h = (ground arith, (ground arith, ground arith), ground arith)

module _ (available : Bool) (rounds_ni : Chain → List ℕ → Chain) (m : Image) where
  abbrev view : ModelView
  view = opened available rounds_ni m

  known_text :
      (token : ℕ) → token < vocab_count → vocabulary_text view token ≡ token_text m 704 608512 token
  unfolding token_bytes
  known_text token l =
      let f : leb vocab_count token ≡ false = ground arith in
      let n : 608512 + u32_at m (704 + (token + 1) * 4) - (608512 + u32_at m (704 + token * 4))
          ≡ u32_at m (704 + (token + 1) * 4) - u32_at m (704 + token * 4) =
        omega arith in
      rw f (ap (λ (k : ℕ). read m (608512 + u32_at m (704 + token * 4)) k) n)

  module _ (frozen : FrozenModel available rounds_ni m) where
    merge-FrozenMerge :
        (rank : ℕ) (n : Merge)
        → merge view rank ≡ ok n
        → (n.left < vocab_count)
          × (vocabulary_text view n.result
              ≡ vocabulary_text view n.left ++ vocabulary_text view n.right)
    merge-FrozenMerge rank n e =
        let (l, (r, s), b) = merge-fields view rank n e in
        let j : FrozenMerge m 704 608512 2133248 rank = frozen.merges rank (omega arith) b in
        let left_known : n.left < vocab_count =
          subst (λ (k : ℕ). k < vocab_count) (sym l) j.left_known in
        let right_known : n.right < vocab_count =
          subst (λ (k : ℕ). k < vocab_count) (sym r) j.right_known in
        let ordinary : n.result < 151643 =
          subst (λ (k : ℕ). k < 151643) (sym s) j.result_ordinary in
        (
          left_known,
          known_text n.result (omega arith)
              ∙ ap (λ (k : ℕ). token_text m 704 608512 k) s
              ∙ j.joined
              ∙ sym (
                  ap₂ (λ (xs ys : List ℕ). xs ++ ys)
                    (known_text n.left left_known ∙ ap (λ (k : ℕ). token_text m 704 608512 k) l)
                    (known_text n.right right_known ∙ ap (λ (k : ℕ). token_text m 704 608512 k) r)),
        )

    left_small : (rank : ℕ) (n : Merge) → merge view rank ≡ ok n → n.left < u32_max
    left_small rank n e =
        let l : n.left < vocab_count = (merge-FrozenMerge rank n e).0 in omega arith

    module _ (index : Index) (built : Built view index) where
      built-joins :
          (left right result rank : ℕ)
          → (lookup index left right).0 ≡ some (result, rank)
          → vocabulary_text view result ≡ vocabulary_text view left ++ vocabulary_text view right
      built-joins left right result rank e =
          let (n, b, g, l, r, s) = built.merges.only left right result rank e in
          ap (vocabulary_text view) (sym s)
          ∙ (merge-FrozenMerge rank n g).1
          ∙ ap₂ (λ (x y : ℕ). vocabulary_text view x ++ vocabulary_text view y) l r

      built-bytes :
          (byte : ℕ)
          → byte < 256
          → vocabulary_text view (index (byte_map + byte)) ≡ encoded_byte byte
      built-bytes byte l = let (piece, e, c) = built.bytes byte l in ap (lent view) e ∙ c

  -- What a call with this index does, whatever it is given.
  abbrev pub Renders : Index → Type 0
  Renders index =
      (user rendered tokens : List ℕ) (scratch : Scratch)
      → Outcome encoded_byte (vocabulary_text view) user rendered tokens scratch
          (render_and_tokenize index user rendered tokens scratch)

  module _ (call : token_text m 704 608512 151657 ≡ spelled encoded_byte tool_call)
      (end : token_text m 704 608512 151658 ≡ spelled encoded_byte tool_end)
      (start_mark : token_text m 704 608512 im_start ≡ spelled encoded_byte (codes "<|im_start|>"))
      (end_mark : token_text m 704 608512 im_end ≡ spelled encoded_byte (codes "<|im_end|>")) where
    tags :
        (token : ℕ) (word : List ℕ)
        → IsTag token word
        → vocabulary_text view token ≡ spelled encoded_byte word
    tags token word (inl (t, w)) =
        ap (vocabulary_text view) t
        ∙ known_text 151657 (omega arith)
        ∙ call
        ∙ ap (spelled encoded_byte) (sym w)
    tags token word (inr (t, w)) =
        ap (vocabulary_text view) t
        ∙ known_text 151658 (omega arith)
        ∙ end
        ∙ ap (spelled encoded_byte) (sym w)

    from_open :
        {r : Result ModelError ModelView}
        → Decides (FrozenModel available rounds_ni m) view r
        → Ends (λ (_ : ModelError). Unit {0}) Renders (r >>= λ v. construct available rounds_ni v)
    unfolding ◌>>=◌
    from_open (decides_err n) = ends_err tt
    from_open (decides_ok f) =
        Ends-weaken (construct-Built available rounds_ni view (left_small f)) λ index built.
          render_and_tokenize-Outcome encoded_byte (vocabulary_text view) index
            (built-bytes f index built) (built-joins f index built) tags
            (known_text im_start (omega arith) ∙ start_mark)
            (known_text im_end (omega arith) ∙ end_mark)

    -- If the texts of the control tokens and of the tool tags in the file are their names, then a file
    -- that is opened and indexed has a tokenizer whose every call of render_and_tokenize refuses the
    -- request and writes nothing, or fails for a text of more than 451 bytes and only wipes the scratch,
    -- or delivers the user's text in the template, with tokens that spell it by the vocabulary's texts.
    pub construct-Renders :
        Ends
          (λ (_ : ModelError). Unit {0})
          Renders
          (open_authenticated available rounds_ni m >>= λ v. construct available rounds_ni v)
    construct-Renders = from_open (open_authenticated-Decides available rounds_ni m)

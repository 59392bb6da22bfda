-- ===== src/Tokenizer/Table/ByteTokens.antt =====
-- The tokens of single bytes, which crates/promptboot-core/src/tokenizer.rs reads from the vocabulary.
use promptboot.Prelude.{
  ap₂, ℕ, zero, suc, ◌+◌, ◌<◌, ◌≡◌, ◌≢◌, refl, sym, subst, true, ◌&&◌, List, [], ◌∷◌, leb, ◌==◌,
  if-cases, length, u32_max, ok, loop, Ends, ends_ok, bind-Ends, Ends-weaken, fail_if-Ends, ◌⊎◌,
  inr, arith,
}
use native.Mathlib.Decide.{ℕ_discrete}
use promptboot.Model.Errors.{ModelError}
use promptboot.Model.Image.{Slice, content}
use promptboot.Model.View.{ModelView, token_bytes}
use promptboot.Tokenizer.Alphabet.{encoded_byte}
use promptboot.Tokenizer.Table.{
  Index, put, byte_map, same_bytes, claim_bytes, read_byte_token, copy_byte_token,
}
use promptboot.Tokenizer.Table.Filling.{got}

-- A token whose text is the spelling of a byte.
abbrev pub IsByteToken : ModelView → ℕ → ℕ → Type 0
IsByteToken v byte token =
    (piece : Slice) × (token_bytes v token ≡ ok piece) × (content v.image piece ≡ encoded_byte byte)

-- Each byte has such a token, or none yet.
abbrev pub Known : ModelView → Index → Type 0
Known v ids = (byte : ℕ) → (ids byte ≡ u32_max) ⊎ IsByteToken v byte (ids byte)

same_bytes-eq : (a b : List ℕ) → same_bytes a b ≡ true → a ≡ b
unfolding same_bytes
same_bytes-eq [] [] h = refl
same_bytes-eq [] (b ∷ bs) h = cc
same_bytes-eq (a ∷ as') [] h = cc
same_bytes-eq (a ∷ as') (b ∷ bs) h =
    let e : a ≡ b = ground arith in
    ap₂ (λ (x : ℕ) (xs : List ℕ). x ∷ xs) e (same_bytes-eq as' bs (ground arith))

put-Known :
    (v : ModelView) (ids : Index) (byte token : ℕ)
    → IsByteToken v byte token
    → Known v ids
    → Known v (put ids byte token)
put-Known v ids byte token t k other = elim (ℕ_discrete other byte) [
  | yes e ↦
      let s : put ids byte token other ≡ token = ground arith in
      inr (
        subst (λ (n : ℕ). IsByteToken v other n) (sym s)
          (subst (λ (n : ℕ). IsByteToken v n token) (sym e) t))
  | no e ↦
      let s : put ids byte token other ≡ ids other = ground arith in
      subst (λ (n : ℕ). (n ≡ u32_max) ⊎ IsByteToken v other n) (sym s) (k other)
]

claim_bytes-Known :
    (v : ModelView) (piece : Slice) (token : ℕ)
    → token_bytes v token ≡ ok piece
    → (byte rounds : ℕ) (ids : Index) → Known v ids
    → Known v (claim_bytes (content v.image piece) token byte rounds ids)
unfolding claim_bytes
claim_bytes-Known v piece token e byte zero ids k = k
claim_bytes-Known v piece token e byte (suc rounds) ids k =
    claim_bytes-Known v piece token e (byte + 1) rounds _ (
      if-cases (Known v)
        ((ids byte == u32_max) && same_bytes (content v.image piece) (encoded_byte byte)) _ _
        (λ t.
          put-Known v ids byte token
            (piece, e, same_bytes-eq (content v.image piece) (encoded_byte byte) (ground arith)) k)
        (λ f. k))

read_byte_token-Known :
    (v : ModelView) (ids : Index) (token : ℕ)
    → Known v ids
    → Ends (λ (_ : ModelError). Unit {0}) (Known v) (read_byte_token v ids token)
unfolding read_byte_token
read_byte_token-Known v ids token k = bind-Ends (got (token_bytes v token)) λ piece e. ends_ok (
    if-cases (Known v) (leb (length (content v.image piece)) 2) _ _
      (λ t. claim_bytes-Known v piece token e 0 256 ids k) (λ f. k))

pub read_byte_tokens-Known :
    (v : ModelView) (start count : ℕ) (ids : Index)
    → Known v ids
    → Ends (λ (_ : ModelError). Unit {0}) (Known v) (loop (read_byte_token v) start count ids)
unfolding loop
read_byte_tokens-Known v start zero ids k = ends_ok k
read_byte_tokens-Known v start (suc count) ids k =
    bind-Ends (read_byte_token-Known v ids start k)
      λ next n. read_byte_tokens-Known v (start + 1) count next n

-- The tokens copied behind the table.
pub record Copied (ids before after : Index) (stop : ℕ) : Type 0 where
  pub copies : (byte : ℕ) → byte < stop → after (byte_map + byte) ≡ ids byte
  pub filled : (byte : ℕ) → byte < stop → ids byte ≢ u32_max
  pub table : (k : ℕ) → k < byte_map → after k ≡ before k

copy_byte_token-Copied :
    (ids before index : Index) (byte : ℕ)
    → Copied ids before index byte
    → Ends
        (λ (_ : ModelError). Unit {0})
        (λ after. Copied ids before after (byte + 1))
        (copy_byte_token ids index byte)
unfolding copy_byte_token
copy_byte_token-Copied ids before index byte c =
    bind-Ends (fail_if-Ends (ids byte == u32_max) _ tt) λ _ f. ends_ok (record {
      copies = λ b l. elim (ℕ_discrete b byte) [
        | yes e ↦ ground arith
        | no e ↦ let s : index (byte_map + b) ≡ ids b = c.copies b (omega arith) in ground arith
      ];
      filled = λ b l. elim (ℕ_discrete b byte) [
        | yes e ↦ λ h. ground arith
        | no e ↦ c.filled b (omega arith)
      ];
      table = λ k l. let s : index k ≡ before k = c.table k l in ground arith;
    })

pub copy_byte_tokens-Copied :
    (ids before : Index) (start count : ℕ) (index : Index)
    → Copied ids before index start
    → Ends
        (λ (_ : ModelError). Unit {0})
        (λ after. Copied ids before after (start + count))
        (loop (copy_byte_token ids) start count index)
unfolding loop
copy_byte_tokens-Copied ids before start zero index c =
    let e : start ≡ start + 0 = omega arith in
    ends_ok (subst (λ (n : ℕ). Copied ids before index n) e c)
copy_byte_tokens-Copied ids before start (suc count) index c =
    let e : start + 1 + count ≡ start + suc count = omega arith in
    bind-Ends (copy_byte_token-Copied ids before index start c) λ next n.
      Ends-weaken (copy_byte_tokens-Copied ids before (start + 1) count next n)
        λ after a. subst (λ (n : ℕ). Copied ids before after n) e a

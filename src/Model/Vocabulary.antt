-- ===== src/Model/Vocabulary.antt =====
-- What `validate_tokenizer` of crates/promptboot-core/src/model.rs asks of the tokens.
use promptboot.Prelude.{
  eq→==, ==→eq, Bool-cases, zero, suc, ℕ, ◌+◌, ◌-◌, ◌*◌, ◌<◌, ◌≤◌, ◌≡◌, refl, ap, sym, ◌∙◌, subst,
  inl, inr, Bool, List, Option, none, some, Option-cases, ◌==◌, get_or, ok, ◌>>=◌, ok_or, loop,
  Decides, decides_ok, decides_err, Decides-iff, Within, Within-cons, fail_if-Decides,
  fail_unless-Decides, bind-Decides, loop-Decides, checks-Decides, arith,
}
use promptboot.Sha256.{finish}
use promptboot.Sha256.Compress.{Chain}
use promptboot.Model.Errors.{ModelStatus, ErrorDomain, FieldKind, ModelError}
use promptboot.Model.Image.{Image, u32_at, read, vocab_count, token_digest, type_digest}
use promptboot.Model.Text.{from_utf8}
use promptboot.Model.Tensors.{unwrap_or}
use promptboot.Model.Digests.{mismatch_from, digest_mismatch, reject}
use promptboot.Model.Tokens.{
  TokenScan, scan_start, count_index, check_text, check_first, check_last, expected_counts,
  check_count, count_token, validate_token, validate_tokens,
}
use promptboot.Model.Merges.{token_start}

-- The bytes of a hash agree with those expected.
abbrev pub SameDigest : List ℕ → List ℕ → Type 0
SameDigest expected actual = Within (λ at. get_or expected at 0 ≡ get_or actual at 0) 0 32

mismatch_from-Decides :
    (failed : ModelStatus) (domain : ErrorDomain) (index offset : ℕ) (expected actual : List ℕ)
    (kind : FieldKind) (at rounds : ℕ)
    → Decides
        (Within (λ i. get_or expected i 0 ≡ get_or actual i 0) at (at + rounds))
        tt
        (reject (mismatch_from failed domain index offset expected actual kind at rounds))
unfolding mismatch_from
mismatch_from-Decides failed domain index offset expected actual kind at zero =
    decides_ok λ i a b. absurd (omega arith)
mismatch_from-Decides failed domain index offset expected actual kind at (suc rounds) =
    elim (Bool-cases (get_or expected at 0 == get_or actual at 0)) [
      | inl t ↦ rw t (
          Decides-iff
            (λ w.
              Within-cons (λ i. get_or expected i 0 ≡ get_or actual i 0) at (at + suc rounds)
                (==→eq (get_or expected at 0) (get_or actual at 0) t)
                (λ i a b. w i a (omega arith)))
            (λ w i a b. w i (omega arith) (omega arith))
            (mismatch_from-Decides failed domain index offset expected actual kind (at + 1) rounds))
      | inr f ↦ rw f (
          decides_err λ w.
            (let t =
                eq→== (get_or expected at 0) (get_or actual at 0)
                  (w at (omega arith) (omega arith)) in
              cc))
    ]

pub digest_mismatch-Decides :
    (failed : ModelStatus) (domain : ErrorDomain) (index offset : ℕ) (expected actual : List ℕ)
    (kind : FieldKind)
    → Decides
        (SameDigest expected actual)
        tt
        (reject (digest_mismatch failed domain index offset expected actual kind))
unfolding digest_mismatch
digest_mismatch-Decides failed domain index offset expected actual kind =
    mismatch_from-Decides failed domain index offset expected actual kind 0 32

pub check_text-Decides :
    (error : ℕ → ModelError) (text : List ℕ)
    → Decides (from_utf8 text ≡ none) tt (check_text error text)
unfolding check_text
check_text-Decides error text = elim (Option-cases (from_utf8 text)) [
  | inl e ↦ rw e (decides_ok refl)
  | inr (at, e) ↦ rw e (decides_err λ h. cc)
]

typed-Decides :
    (o : Option ℕ) (e : ModelError) (f : ℕ → TokenScan)
    → Decides ((n : ℕ) × (o ≡ some n)) (f (unwrap_or o 0)) (ok_or o e >>= λ i. ok (f i))
unfolding ◌>>=◌
typed-Decides none e f = decides_err λ h. let (n, p) = h in cc
typed-Decides (some n) e f = decides_ok (n, refl)

module _ (available : Bool) (rounds_ni : Chain → List ℕ → Chain) (m : Image)
    (offsets token_base type_base : ℕ) where
  -- What the loop keeps before a token.
  unfoldable pub scanned : ℕ → TokenScan
  scanned zero = scan_start
  scanned (suc id) =
      let scan = scanned id in
      let current = u32_at m (offsets + (id + 1) * 4) in
      let token_type = m.byte (type_base + id) in
      count_token available rounds_ni scan current
        (read m (token_base + scan.prior) (current - scan.prior)) token_type
        (unwrap_or (count_index token_type) 0)

  -- A token that passes, with the start of its text: the text is not empty, ends inside the section of
  -- texts, and is UTF-8; the type is one of the four.
  pub record FrozenToken (start id : ℕ) : Type 0 where
    pub nonempty : start < token_start m offsets (id + 1)
    pub bounded : token_start m offsets (id + 1) ≤ 1372758
    pub encoded :
        from_utf8 (read m (token_base + start) (token_start m offsets (id + 1) - start)) ≡ none
    pub typed : (n : ℕ) × (count_index (m.byte (type_base + id)) ≡ some n)

  pub record FrozenVocabulary : Type 0 where
    pub first : u32_at m offsets ≡ 0
    pub tokens : Within (λ id. FrozenToken (token_start m offsets id) id) 0 vocab_count
    pub last : token_start m offsets vocab_count ≡ 1372758
    pub counts :
        Within (λ at. get_or (scanned vocab_count).counts at 0 ≡ get_or expected_counts at 0) 0 4
    pub texts_hash :
        SameDigest token_digest (finish available rounds_ni (scanned vocab_count).token_canonical)
    pub types_hash :
        SameDigest type_digest (finish available rounds_ni (scanned vocab_count).type_canonical)

  pub scanned-prior :
      u32_at m offsets ≡ 0 → (id : ℕ) → (scanned id).prior ≡ token_start m offsets id
  unfolding scanned scan_start count_token
  scanned-prior h zero = let e : offsets ≡ offsets + 0 * 4 = omega arith in sym h ∙ ap (u32_at m) e
  scanned-prior h (suc id) =
      let e : offsets + (id + 1) * 4 ≡ offsets + suc id * 4 = omega arith in ap (u32_at m) e

  validate_token-Decides :
      (id : ℕ)
      → Decides
          (FrozenToken (scanned id).prior id)
          (scanned (suc id))
          (validate_token available rounds_ni m offsets token_base type_base (scanned id) id)
  unfolding validate_token scanned
  validate_token-Decides id =
      Decides-iff
        (λ p.
          let (a, (b, (c, d))) = p in
          record { nonempty = ground arith; bounded = ground arith; encoded = c; typed = d })
        (λ (f : FrozenToken (scanned id).prior id).
          (let a : (scanned id).prior < token_start m offsets (id + 1) = f.nonempty in
            let b : token_start m offsets (id + 1) ≤ 1372758 = f.bounded in
            (ground arith, (ground arith, (f.encoded, f.typed)))))
        (bind-Decides _ (fail_if-Decides _ _) λ _.
          bind-Decides _ (fail_if-Decides _ _)
            λ _. bind-Decides _ (check_text-Decides _ _) λ _. typed-Decides _ _ _)

  validate_token_next :
      u32_at m offsets ≡ 0
      → (id : ℕ)
      → Decides
          (FrozenToken (token_start m offsets id) id)
          (scanned (id + 1))
          (validate_token available rounds_ni m offsets token_base type_base (scanned id) id)
  validate_token_next h id =
      let e : suc id ≡ id + 1 = omega arith in
      subst
        (λ (n : ℕ).
          Decides (FrozenToken (token_start m offsets id) id) (scanned n)
            (validate_token available rounds_ni m offsets token_base type_base (scanned id) id))
        e
        (subst
          (λ (start : ℕ).
            Decides (FrozenToken start id) (scanned (suc id))
              (validate_token available rounds_ni m offsets token_base type_base (scanned id) id))
          (scanned-prior h id) (validate_token-Decides id))

  scanned-start : scanned 0 ≡ scan_start
  unfolding scanned
  scanned-start = refl

  scan-Decides :
      u32_at m offsets ≡ 0
      → Decides
          (Within (λ id. FrozenToken (token_start m offsets id) id) 0 vocab_count)
          (scanned vocab_count)
          (loop
            (validate_token available rounds_ni m offsets token_base type_base)
            0
            vocab_count
            scan_start)
  scan-Decides first =
      subst
        (λ (s : TokenScan).
          Decides (Within (λ id. FrozenToken (token_start m offsets id) id) 0 vocab_count)
            (scanned vocab_count)
            (loop (validate_token available rounds_ni m offsets token_base type_base) 0 vocab_count
              s))
        scanned-start
        (loop-Decides (λ id. FrozenToken (token_start m offsets id) id) scanned
          (validate_token available rounds_ni m offsets token_base type_base) 0 vocab_count
          (λ id _ _ _. validate_token_next first id))

  -- The tokens pass exactly where offsets, texts, types, their numbers and the two hashes are as frozen.
  pub validate_tokens-Decides :
      Decides FrozenVocabulary tt
        (validate_tokens available rounds_ni m offsets token_base type_base)
  unfolding validate_tokens check_first check_last check_count
  validate_tokens-Decides =
      Decides-iff
        (λ p.
          let (a, (b, (c, (d, (e, f))))) = p in
          record {
            first = a;
            tokens = b;
            last = sym (scanned-prior a vocab_count) ∙ c;
            counts = d;
            texts_hash = e;
            types_hash = f;
          })
        (λ (v : FrozenVocabulary). (
          v.first,
          (
            v.tokens,
            (scanned-prior v.first vocab_count ∙ v.last, (v.counts, (v.texts_hash, v.types_hash))),
          ),
        ))
        (bind-Decides _ (fail_unless-Decides (u32_at m offsets) 0 _) λ first.
          bind-Decides _ (scan-Decides first) λ _.
            bind-Decides _ (fail_unless-Decides (scanned vocab_count).prior 1372758 _) λ _.
              bind-Decides _
                (checks-Decides _ (check_count type_base (scanned vocab_count).counts) 0 4
                  (λ at. fail_unless-Decides _ _ _))
                λ _.
                  bind-Decides _ (digest_mismatch-Decides _ _ _ _ token_digest _ _)
                    λ _. digest_mismatch-Decides _ _ _ _ type_digest _ _)

-- ===== src/Model/Joins.antt =====
-- What `validate_tokenizer` of crates/promptboot-core/src/model.rs asks of the merges and of the
-- template.
use promptboot.Prelude.{
  ap₂, zero, suc, ℕ, ◌+◌, ◌-◌, ◌*◌, ◌<◌, ◌≡◌, refl, ap, sym, ◌∙◌, subst, Bool, false, List, [], ◌∷◌,
  ◌++◌, Option, none, some, leb, length, length-append, Result, ok, err, ◌>>=◌, ◌>>◌, loop, Decides,
  decides_ok, decides_err, Decides-iff, Within, fail_if-Decides, fail_unless-Decides, bind-Decides,
  each-Decides, loop-Decides, arith,
}
use promptboot.Sha256.{Sha256, new}
use promptboot.Sha256.Compress.{Chain}
use promptboot.Model.Errors.{ModelError}
use promptboot.Model.Image.{Image, Section, u32_at, read, vocab_count, merge_count, merge_digest}
use promptboot.Model.Text.{from_utf8}
use promptboot.Model.Digests.{digest_mismatch, reject}
use promptboot.Model.Vocabulary.{SameDigest, digest_mismatch-Decides, check_text-Decides}
use promptboot.Model.Merges.{
  check_duplicate, token_start, token_length, token_text, check_member, check_members, check_concat,
  check_result, check_merge_digest, scan_first, check_brace, check_template, hash_merge,
  validate_merge,
}

length-read : (m : Image) (start count : ℕ) → length (read m start count) ≡ count
unfolding read
length-read m start zero = refl
length-read m start (suc count) = ap suc (length-read m (start + 1) count)

-- Bytes of the image against a list.
check_concat-Decides :
    (error : ℕ → ℕ → ModelError) (m : Image) (start concat : ℕ) (bytes : List ℕ)
    → Decides
        (read m (start + concat) (length bytes) ≡ bytes)
        tt
        (check_concat error m start concat bytes)
unfolding check_concat read
check_concat-Decides error m start concat [] = decides_ok refl
check_concat-Decides error m start concat (byte ∷ bytes) =
    let e : start + (concat + 1) ≡ start + concat + 1 = omega arith in
    Decides-iff
      (λ p.
        ap₂ (λ (x : ℕ) (xs : List ℕ). x ∷ xs) p.0
          (ap (λ (n : ℕ). read m n (length bytes)) (sym e) ∙ p.1))
      (λ q. (cc, ap (λ (n : ℕ). read m n (length bytes)) e ∙ cc))
      (bind-Decides _ (fail_unless-Decides (m.byte (start + concat)) byte _)
        λ _. check_concat-Decides error m start (concat + 1) bytes)

-- A merge that passes: its three tokens exist, the result is an ordinary one, and its text is that of
-- the left side followed by that of the right side.
pub record FrozenMerge (m : Image) (offsets token_base merge_base rank : ℕ) : Type 0 where
  pub left_known : u32_at m (merge_base + rank * 12) < vocab_count
  pub right_known : u32_at m (merge_base + rank * 12 + 4) < vocab_count
  pub result_ordinary : u32_at m (merge_base + rank * 12 + 8) < 151643
  pub joined :
      token_text m offsets token_base (u32_at m (merge_base + rank * 12 + 8))
      ≡ token_text m offsets token_base (u32_at m (merge_base + rank * 12))
        ++ token_text m offsets token_base (u32_at m (merge_base + rank * 12 + 4))

check_result-Decides :
    (m : Image) (offsets token_base merge_base rank : ℕ)
    → Decides
        (token_text m offsets token_base (u32_at m (merge_base + rank * 12 + 8))
          ≡ token_text m offsets token_base (u32_at m (merge_base + rank * 12))
            ++ token_text m offsets token_base (u32_at m (merge_base + rank * 12 + 4)))
        tt
        (check_result m offsets token_base merge_base rank)
unfolding check_result
check_result-Decides m offsets token_base merge_base rank =
    let result : ℕ = u32_at m (merge_base + rank * 12 + 8) in
    let left : List ℕ = token_text m offsets token_base (u32_at m (merge_base + rank * 12)) in
    let right : List ℕ = token_text m offsets token_base (u32_at m (merge_base + rank * 12 + 4)) in
    let start : ℕ = token_base + token_start m offsets result in
    let e : start ≡ start + 0 = omega arith in
    let n : length (left ++ right)
        ≡ token_length m offsets (u32_at m (merge_base + rank * 12))
          + token_length m offsets (u32_at m (merge_base + rank * 12 + 4)) =
      length-append left right ∙ ap₂ (λ (a b : ℕ). a + b) (length-read m _ _) (length-read m _ _) in
    let whole : token_length m offsets result ≡ length (left ++ right)
        → read m start (token_length m offsets result)
          ≡ read m (start + 0) (length (left ++ right)) =
      λ h. ap₂ (λ (s k : ℕ). read m s k) e h in
    Decides-iff (λ p. whole (p.0 ∙ sym n) ∙ p.1)
      (λ q.
        let h : token_length m offsets result ≡ length (left ++ right) =
          sym (length-read m start (token_length m offsets result)) ∙ ap length q in
        (h ∙ n, sym (whole h) ∙ q))
      (bind-Decides _ (fail_unless-Decides _ _ _) λ _. check_concat-Decides _ _ _ _ _)

check_members-Decides :
    (m : Image) (at rank : ℕ)
    → Decides
        ((u32_at m at < vocab_count)
          × ((u32_at m (at + 4) < vocab_count) × (u32_at m (at + 8) < vocab_count)))
        tt
        (check_members m at rank)
unfolding check_members check_member
check_members-Decides m at rank =
    Decides-iff (λ p. let (a, (b, (c, _))) = p in (ground arith, (ground arith, ground arith)))
      (λ q. let (a, (b, c)) = q in (ground arith, (ground arith, (ground arith, tt))))
      (each-Decides (λ t. leb vocab_count t.0 ≡ false) (check_member rank) _
        (λ t. fail_if-Decides _ _))

Decides-fails :
    {P : Type 0} (r : Result ModelError (Unit {0})) (error : ModelError)
    → ¬ P
    → Decides {0, 0} {A = Unit {0}} P tt (r >> err error)
unfolding ◌>>=◌
Decides-fails (ok x) error n = decides_err n
Decides-fails (err e) error n = decides_err n

-- A failed loop may hide the error that follows, but no success.
from_reject :
    {P : Type 0} (m : Image) (merge_base : ℕ) (o : Option ModelError)
    → Decides P tt (reject o)
    → Decides P tt (scan_first m merge_base o)
from_reject m merge_base none d = d
from_reject m merge_base (some error) (decides_err n) =
    Decides-fails (loop (λ _ rank. check_duplicate m merge_base rank) 1 (merge_count - 1) tt) error
      n

pub check_merge_digest-Decides :
    (m : Image) (merge_base : ℕ) (digest : List ℕ)
    → Decides (SameDigest merge_digest digest) tt (check_merge_digest m merge_base digest)
unfolding check_merge_digest
check_merge_digest-Decides m merge_base digest =
    from_reject m merge_base (digest_mismatch _ _ _ _ merge_digest digest _)
      (digest_mismatch-Decides _ _ _ _ merge_digest digest _)

module _ (available : Bool) (rounds_ni : Chain → List ℕ → Chain) (m : Image)
    (offsets token_base merge_base : ℕ) where
  -- The hash before a merge.
  unfoldable pub hashed : ℕ → Sha256
  hashed zero = new
  hashed (suc rank) =
      hash_merge available rounds_ni m offsets token_base merge_base (hashed rank) rank

  validate_merge-Decides :
      (rank : ℕ)
      → Decides
          (FrozenMerge m offsets token_base merge_base rank)
          (hashed (rank + 1))
          (validate_merge available rounds_ni m offsets token_base merge_base (hashed rank) rank)
  unfolding validate_merge hashed
  validate_merge-Decides rank =
      let e : suc rank ≡ rank + 1 = omega arith in
      subst
        (λ (n : ℕ).
          Decides (FrozenMerge m offsets token_base merge_base rank) (hashed n)
            (validate_merge available rounds_ni m offsets token_base merge_base (hashed rank) rank))
        e
        (Decides-iff
          (λ p.
            let ((a, (b, c)), (d, (f, _))) = p in
            record { left_known = a; right_known = b; result_ordinary = ground arith; joined = f })
          (λ (f : FrozenMerge m offsets token_base merge_base rank).
            (let d : u32_at m (merge_base + rank * 12 + 8) < 151643 = f.result_ordinary in
              ((f.left_known, (f.right_known, omega arith)), (ground arith, (f.joined, tt)))))
          (bind-Decides _ (check_members-Decides m (merge_base + rank * 12) rank) λ _.
            bind-Decides _ (fail_if-Decides (leb 151643 (u32_at m (merge_base + rank * 12 + 8))) _)
              λ _.
                bind-Decides _ (check_result-Decides m offsets token_base merge_base rank)
                  λ _. decides_ok tt))

  hashed-start : hashed 0 ≡ new
  unfolding hashed
  hashed-start = refl

  -- The loop over the merges.
  pub merges-Decides :
      Decides
        (Within (FrozenMerge m offsets token_base merge_base) 0 merge_count)
        (hashed merge_count)
        (loop
          (validate_merge available rounds_ni m offsets token_base merge_base)
          0
          merge_count
          new)
  merges-Decides =
      subst
        (λ (s : Sha256).
          Decides (Within (FrozenMerge m offsets token_base merge_base) 0 merge_count)
            (hashed merge_count)
            (loop (validate_merge available rounds_ni m offsets token_base merge_base) 0 merge_count
              s))
        hashed-start
        (loop-Decides (FrozenMerge m offsets token_base merge_base) hashed
          (validate_merge available rounds_ni m offsets token_base merge_base) 0 merge_count
          (λ rank _ _ _. validate_merge-Decides rank))

-- The template starts with a brace and is UTF-8.
pub record FrozenTemplate (m : Image) (s : Section) : Type 0 where
  pub brace : m.byte s.offset ≡ 123
  pub encoded : from_utf8 (read m s.offset s.length) ≡ none

pub check_template-Decides :
    (m : Image) (s : Section) → Decides (FrozenTemplate m s) tt (check_template m s)
unfolding check_template check_brace
check_template-Decides m s =
    Decides-iff (λ p. record { brace = p.0; encoded = p.1 })
      (λ (t : FrozenTemplate m s). (t.brace, t.encoded))
      (bind-Decides _ (fail_unless-Decides (m.byte s.offset) 123 _) λ _. check_text-Decides _ _)

-- ===== src/Model/Authentic.antt =====
-- The hashes that `validate_tokenizer` of crates/promptboot-core/src/model.rs compares, as hashes of
-- whole messages.
use promptboot.Prelude.{
  ◌<◌, ◌≤◌, ok, ◌>>=◌, arith, ℕ, zero, suc, ◌+◌, ◌*◌, ◌-◌, ◌≡◌, refl, subst, Bool, List, [], ◌∷◌,
  ◌++◌, length, Result, Ends, ends_ok, ends_err, Decides, decides_ok, decides_err,
}
use promptboot.Sha256.{update}
use promptboot.Sha256.Compress.{Chain, compress_scalar, round_words}
use promptboot.Sha256.Padding.{sha256}
use promptboot.Sha256.Stream.{Holds, new-Holds, update-Holds}
use promptboot.Sha256.Digest.{finish-Holds}
use promptboot.Model.Errors.{ModelError}
use promptboot.Model.Image.{
  Slice, Image, u32_at, read, vocab_count, merge_count, token_digest, type_digest, merge_digest,
}
use promptboot.Model.Tokens.{le_bytes, scan_start, count_token}
use promptboot.Model.Merges.{token_start, token_text, hash_merge}
use promptboot.Model.Vocabulary.{SameDigest, scanned, scanned-prior}
use promptboot.Model.Joins.{hashed}
use promptboot.Model.View.{ModelView, TensorView, tensor, token_bytes}
use promptboot.Model.Lookup.{tensor-Disjoint}
use promptboot.Model.Texts.{token_bytes-InOrder}
use promptboot.Model.Open.{open_authenticated}
use promptboot.Model.Opening.{FrozenModel, opened, open_authenticated-Decides}

-- The texts of the first tokens, each behind its length.
unfoldable pub text_bytes : Image → ℕ → List ℕ
text_bytes m zero = []
text_bytes m (suc id) =
    (text_bytes m id ++ le_bytes 8 (length (token_text m 704 608512 id)))
    ++ token_text m 704 608512 id

-- The types of the first tokens.
unfoldable pub type_bytes : Image → ℕ → List ℕ
type_bytes m zero = []
type_bytes m (suc id) = type_bytes m id ++ le_bytes 8 (m.byte (1981312 + id))

-- The first merges: the two sides with a space between them, behind their length.
unfoldable pub merge_bytes : Image → ℕ → List ℕ
merge_bytes m zero = []
merge_bytes m (suc rank) =
    let left = token_text m 704 608512 (u32_at m (2133248 + rank * 12)) in
    let right = token_text m 704 608512 (u32_at m (2133248 + rank * 12 + 4)) in
    (((merge_bytes m rank ++ le_bytes 8 (length left + 1 + length right)) ++ left) ++ 32 ∷ [])
    ++ right

module _ (available : Bool) (rounds_ni : Chain → List ℕ → Chain)
    (agrees : (c : Chain) (w : List ℕ) → rounds_ni c (round_words w) ≡ compress_scalar c w)
    (m : Image) where
  texts-Holds :
      u32_at m 704 ≡ 0
      → (id : ℕ)
      → Holds
          (scanned available rounds_ni m 704 608512 1981312 id).token_canonical
          (text_bytes m id)
  unfolding scanned scan_start count_token text_bytes
  texts-Holds h zero = new-Holds
  texts-Holds h (suc id) =
      let s = scanned available rounds_ni m 704 608512 1981312 id in
      let stop : ℕ = token_start m 704 (id + 1) in
      let text : ℕ → List ℕ = λ start. read m (608512 + start) (stop - start) in
      let sized = le_bytes 8 (length (text s.prior)) in
      subst
        (λ (start : ℕ).
          Holds
            (update available rounds_ni (update available rounds_ni s.token_canonical sized)
              (text s.prior))
            ((text_bytes m id ++ le_bytes 8 (length (text start))) ++ text start))
        (scanned-prior available rounds_ni m 704 608512 1981312 h id)
        (update-Holds available rounds_ni agrees _ _ (text s.prior)
          (update-Holds available rounds_ni agrees _ _ sized (texts-Holds h id)))

  types-Holds :
      (id : ℕ)
      → Holds (scanned available rounds_ni m 704 608512 1981312 id).type_canonical (type_bytes m id)
  unfolding scanned scan_start count_token type_bytes
  types-Holds zero = new-Holds
  types-Holds (suc id) = update-Holds available rounds_ni agrees _ _ _ (types-Holds id)

  merges-Holds :
      (rank : ℕ) → Holds (hashed available rounds_ni m 704 608512 2133248 rank) (merge_bytes m rank)
  unfolding hashed hash_merge merge_bytes
  merges-Holds zero = new-Holds
  merges-Holds (suc rank) = update-Holds available rounds_ni agrees _ _ _ (
      update-Holds available rounds_ni agrees _ _ _ (
        update-Holds available rounds_ni agrees _ _ _
          (update-Holds available rounds_ni agrees _ _ _ (merges-Holds rank))))

  -- What an open model promises: the hashes of its texts, types and merges, and that what it lends
  -- stands apart.
  pub record Authentic (v : ModelView) : Type 0 where
    pub whole : v ≡ opened available rounds_ni m
    pub texts : SameDigest token_digest (sha256 (text_bytes m vocab_count))
    pub types : SameDigest type_digest (sha256 (type_bytes m vocab_count))
    pub merges : SameDigest merge_digest (sha256 (merge_bytes m merge_count))
    pub tensors_apart :
        (i j : ℕ)
        → i < j
        → j < 291
        → Ends
            (λ (e : ModelError). ⊥)
            (λ (p : TensorView × TensorView). p.0.bytes.stop ≤ p.1.bytes.start)
            (tensor v i >>= λ a. tensor v j >>= λ b. ok (a, b))
    pub texts_apart :
        (i j : ℕ)
        → i < j
        → j < vocab_count
        → Ends
            (λ (e : ModelError). ⊥)
            (λ (p : Slice × Slice).
              (608512 ≤ p.0.start)
              × ((p.0.start < p.0.stop)
                  × ((p.0.stop ≤ p.1.start) × ((p.1.start < p.1.stop) × (p.1.stop ≤ 1981270)))))
            (token_bytes v i >>= λ a. token_bytes v j >>= λ b. ok (a, b))

  authentic : FrozenModel available rounds_ni m → Authentic (opened available rounds_ni m)
  authentic f = record {
    whole = refl;
    texts =
        subst (SameDigest token_digest)
          (finish-Holds available rounds_ni agrees _ _ (texts-Holds f.vocabulary.first vocab_count))
          f.vocabulary.texts_hash;
    types =
        subst (SameDigest type_digest)
          (finish-Holds available rounds_ni agrees _ _ (types-Holds vocab_count))
          f.vocabulary.types_hash;
    merges =
        subst (SameDigest merge_digest)
          (finish-Holds available rounds_ni agrees _ _ (merges-Holds merge_count)) f.merges_hash;
    tensors_apart = λ i j l k.
        tensor-Disjoint (opened available rounds_ni m) i j l k
          (f.tensors i (omega arith) (omega arith)) (f.tensors j (omega arith) k);
    texts_apart = λ i j.
        token_bytes-InOrder (opened available rounds_ni m) i j refl
          (λ id a b. (let t = f.vocabulary.tokens id a b in (t.nonempty, t.bounded)));
  }

  from_open :
      {r : Result ModelError ModelView}
      → Decides (FrozenModel available rounds_ni m) (opened available rounds_ni m) r
      → Ends (λ e. ¬ FrozenModel available rounds_ni m) Authentic r
  from_open (decides_ok f) = ends_ok (authentic f)
  from_open (decides_err n) = ends_err n

  -- If the assembly routine agrees with the scalar rounds, then a model that open_authenticated opens
  -- has token texts, token types and merges whose SHA-256 are the three digests of the source, lends
  -- tensors that never overlap and texts that are not empty, inside their section and never overlap,
  -- and one that it refuses is not the frozen one.
  pub open_authenticated-Authentic :
      Ends
        (λ e. ¬ FrozenModel available rounds_ni m)
        Authentic
        (open_authenticated available rounds_ni m)
  open_authenticated-Authentic = from_open (open_authenticated-Decides available rounds_ni m)

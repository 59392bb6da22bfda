-- ===== src/Tokenizer/Construct/Storage.antt =====
-- What `build` of crates/promptboot-core/src/tokenizer.rs leaves in the storage that it is given.
use promptboot.Prelude.{
  true, List, if-cases, ℕ, ◌+◌, ◌*◌, ◌/◌, ◌%◌, ◌^◌, ◌≤◌, ◌<◌, ◌≡◌, refl, Bool, false, bit_and, ltb,
  u32_max, Result, ok, err, Decides, decides_ok, decides_err, Decides-iff, Within, fail_if-Decides,
  fail_unless-Decides, bind-Decides, checks-Decides, Ends, ends_ok, ends_err, arith,
}
use promptboot.Sha256.Compress.{Chain}
use promptboot.Model.Errors.{ModelError}
use promptboot.Model.Image.{Image, vocab_count, merge_count}
use promptboot.Model.View.{ModelView, Merge, merge}
use promptboot.Tokenizer.Table.{Index}
use promptboot.Tokenizer.Construct.{
  index_bytes, FrozenTokenizer, check_storage, checked, installed, build,
}
use promptboot.Tokenizer.Construct.Built.{Built, construct_prefix-Built}

-- What a call asks of the model and of the storage.
pub record Prepared (v : ModelView) (s : Image) : Type 0 where
  pub room : index_bytes ≤ s.byte_count
  pub aligned : bit_and s.address 63 ≡ 0
  pub tokens : v.settings.vocab_count ≡ vocab_count
  pub merges : v.settings.merge_count ≡ merge_count
  pub zeros : Within (λ at. s.byte at ≡ 0) 0 index_bytes

check_storage-Decides : (v : ModelView) (s : Image) → Decides (Prepared v s) tt (check_storage v s)
unfolding check_storage
check_storage-Decides v s =
    Decides-iff
      (λ p.
        let (a, (b, (c, d))) = p in
        record {
          room = ground arith;
          aligned = b;
          tokens = ground arith;
          merges = ground arith;
          zeros = d;
        })
      (λ (r : Prepared v s).
        (let h : index_bytes ≤ s.byte_count = r.room in
          let t : v.settings.vocab_count ≡ vocab_count = r.tokens in
          let m : v.settings.merge_count ≡ merge_count = r.merges in
          (ground arith, (r.aligned, (ground arith, r.zeros)))))
      (bind-Decides _ (fail_if-Decides _ _) λ _. bind-Decides _ (fail_unless-Decides _ _ _) λ _.
        bind-Decides _ (fail_if-Decides _ _) λ _.
          checks-Decides (λ at. s.byte at ≡ 0) _ 0 index_bytes (λ at. fail_unless-Decides _ _ _))

-- Either the storage is as it was, or it holds an index as it should be in its first bytes and is as
-- it was behind them.
pub data Stored (v : ModelView) (s : Image)
    : Result ModelError FrozenTokenizer × Image → Type 0 where
  untouched :
      {e : ModelError} {after : Image}
      → ((at : ℕ) → after.byte at ≡ s.byte at)
      → Stored v s (err e, after)
  indexed :
      {t : FrozenTokenizer} {after : Image}
      → Prepared v s
      → Built v t.index
      → ((word : ℕ) (k : ℕ)
          → 4 * word + k < index_bytes
          → k < 4
          → after.byte (4 * word + k) ≡ t.index word / 256 ^ k % 256)
      → ((at : ℕ) → index_bytes ≤ at → after.byte at ≡ s.byte at)
      → Stored v s (ok t, after)

module _ (v : ModelView) (s : Image) where
  installed-Stored :
      Prepared v s
      → {built : Result (ModelError × Index) Index} → Ends (λ _. Unit {0}) (Built v) built
      → Stored v s (installed v s built)
  unfolding installed
  installed-Stored p (ends_err {e = (e, written)} _) = untouched λ at.
      if-cases (λ (b : ℕ). b ≡ s.byte at) (ltb at index_bytes) _ _
        (λ t. let z : s.byte at ≡ 0 = p.zeros at (omega arith) (ground arith) in omega arith)
        (λ f. let out : ltb at index_bytes ≡ false = f in rw out refl)
  installed-Stored p (ends_ok {a = index} b) =
      indexed p b
        (λ word k l m.
          let d : (4 * word + k) / 4 ≡ word = omega arith in
          let r : (4 * word + k) % 4 ≡ k = omega arith in
          let e : ltb (4 * word + k) index_bytes ≡ true = ground arith in rw (e, d, r) refl)
        (λ at l. let e : ltb at index_bytes ≡ false = ground arith in rw e refl)

  module _ (available : Bool) (rounds_ni : Chain → List ℕ → Chain)
      (ordinary : (rank : ℕ) (m : Merge) → merge v rank ≡ ok m → m.left < u32_max) where
    checked-Stored :
        {tests : Result ModelError (Unit {0})}
        → Decides (Prepared v s) tt tests
        → Stored v s (checked available rounds_ni v s tests)
    unfolding checked
    checked-Stored (decides_err n) = untouched λ at. refl
    checked-Stored (decides_ok p) =
        installed-Stored p (construct_prefix-Built available rounds_ni v ordinary)

    -- If the first side of every merge is a token, then a call that fails leaves the bytes of the storage as
    -- they were, also where the construction fails with part of an index written; one that succeeds had
    -- room, alignment, counts and zeros as it asks, leaves the words of an index with the merges and the
    -- tokens of the bytes, and keeps what is behind it.
    pub build-Stored : Stored v s (build available rounds_ni v s)
    unfolding build
    build-Stored = checked-Stored (check_storage-Decides v s)

-- ===== src/Model/Opening.antt =====
-- Which files `open_authenticated` of crates/promptboot-core/src/model.rs accepts.
use promptboot.Prelude.{ℕ, Bool, List, Decides, decides_ok, Decides-iff, Within, bind-Decides}
use promptboot.Sha256.{finish}
use promptboot.Sha256.Compress.{Chain}
use promptboot.Model.Image.{Image, merge_count, merge_digest}
use promptboot.Model.Accepts.{
  FrozenHeader, check_header-Decides, FrozenSections, frozen_sections, read_sections-Decides,
}
use promptboot.Model.Layout.{FrozenTensors, validate_tensors-Decides}
use promptboot.Model.Vocabulary.{SameDigest, FrozenVocabulary, validate_tokens-Decides}
use promptboot.Model.Joins.{
  FrozenMerge, hashed, merges-Decides, check_merge_digest-Decides, FrozenTemplate,
  check_template-Decides,
}
use promptboot.Model.Merges.{validate_tokenizer}
use promptboot.Model.View.{ModelView, config}
use promptboot.Model.Open.{open_authenticated}

module _ (available : Bool) (rounds_ni : Chain → List ℕ → Chain) where
  -- The file that was frozen, as far as it is checked.
  pub record FrozenModel (m : Image) : Type 0 where
    pub header : FrozenHeader m
    pub table : FrozenSections m
    pub tensors : FrozenTensors m
    pub vocabulary : FrozenVocabulary available rounds_ni m 704 608512 1981312
    pub merges : Within (FrozenMerge m 704 608512 2133248) 0 merge_count
    pub merges_hash :
        SameDigest merge_digest
          (finish available rounds_ni (hashed available rounds_ni m 704 608512 2133248 merge_count))
    pub template : FrozenTemplate m (record { offset = 3949952; length = 2509 })

  abbrev pub opened : Image → ModelView
  opened m = record { image = m; sections = frozen_sections; settings = config }

  -- `open_authenticated` accepts exactly the files whose header, section table, tensor table, tokens,
  -- merges and template are as frozen, and gives the view with the frozen sections.
  pub open_authenticated-Decides :
      (m : Image) → Decides (FrozenModel m) (opened m) (open_authenticated available rounds_ni m)
  unfolding open_authenticated validate_tokenizer
  open_authenticated-Decides m =
      Decides-iff
        (λ p.
          let (a, (b, (c, ((d, (e, (f, g))), _)))) = p in
          record {
            header = a;
            table = b;
            tensors = c;
            vocabulary = d;
            merges = e;
            merges_hash = f;
            template = g;
          })
        (λ (f : FrozenModel m). (
          f.header,
          (f.table, (f.tensors, ((f.vocabulary, (f.merges, (f.merges_hash, f.template))), tt))),
        ))
        (bind-Decides _ (check_header-Decides m) λ _. bind-Decides _ (read_sections-Decides m) λ _.
          bind-Decides _ (validate_tensors-Decides m) λ _.
            bind-Decides _
              (bind-Decides _ (validate_tokens-Decides available rounds_ni m 704 608512 1981312)
                λ _. bind-Decides _ (merges-Decides available rounds_ni m 704 608512 2133248) λ _.
                  bind-Decides _ (check_merge_digest-Decides m 2133248 _)
                    λ _. check_template-Decides m _)
              λ _. decides_ok tt)

-- ===== src/Model/Open.antt =====
-- `ModelView::open_authenticated` of crates/promptboot-core/src/model.rs.
use promptboot.Prelude.{ℕ, Bool, List, Result, ok, ◌>>=◌, ◌>>◌}
use promptboot.Sha256.Compress.{Chain}
use promptboot.Model.Errors.{ModelError}
use promptboot.Model.Image.{Image}
use promptboot.Model.Header.{check_header}
use promptboot.Model.Sections.{read_sections}
use promptboot.Model.Tensors.{validate_tensors}
use promptboot.Model.Merges.{validate_tokenizer}
use promptboot.Model.View.{ModelView, config}

module _ (available : Bool) (rounds_ni : Chain → List ℕ → Chain) where
  unfoldable pub open_authenticated : Image → Result ModelError ModelView
  open_authenticated m = do
    check_header m
    table ← read_sections m
    validate_tensors m
    validate_tokenizer available rounds_ni m table
    ok (record { image = m; sections = table; settings = config })

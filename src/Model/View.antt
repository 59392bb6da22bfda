-- ===== src/Model/View.antt =====
-- `ModelView` of crates/promptboot-core/src/model.rs: an opened model and what it lends.
use promptboot.Prelude.{
  ℕ, ◌+◌, ◌-◌, ◌*◌, ◌^◌, not, ◌&&◌, List, ltb, leb, ◌==◌, if◌then◌else◌, get_or, Result, ok, err,
  ◌>>=◌,
}
use promptboot.Model.Errors.{
  field_layer, field_merge_result, field_token_id, field_role, field_tensor_id, field_section_id,
  domain_merge, domain_token, domain_tensor, domain_section, status_tokenizer_schema,
  status_token_id, status_tensor_schema, status_section_schema, ModelError, model_error,
}
use promptboot.Model.Image.{Image, Slice, Section, u32_at, vocab_count, merge_count, tensor_count}
use promptboot.Model.Tensors.{TensorMeta, tensor_meta_at}

pub record ModelConfig : Type 0 where
  pub version : ℕ
  pub context_limit : ℕ
  pub block_count : ℕ
  pub embedding : ℕ
  pub feed_forward : ℕ
  pub query_heads : ℕ
  pub kv_heads : ℕ
  pub head_dim : ℕ
  pub vocab_count : ℕ
  pub merge_count : ℕ
  pub tensor_count : ℕ
  pub bos : ℕ
  pub eos : ℕ
  pub pad : ℕ
  pub add_bos : ℕ
  pub reserved : ℕ
  pub model_bytes : ℕ
  pub tensor_data_bytes : ℕ

unfoldable pub config : ModelConfig
config = record {
  version = 1;
  context_limit = 32768;
  block_count = 24;
  embedding = 896;
  feed_forward = 4864;
  query_heads = 14;
  kv_heads = 2;
  head_dim = 64;
  vocab_count = 151936;
  merge_count = 151387;
  tensor_count = 291;
  bos = 151643;
  eos = 151645;
  pad = 151643;
  add_bos = 0;
  reserved = 0;
  model_bytes = 426762944;
  tensor_data_bytes = 422782464;
}

pub record Merge : Type 0 where
  pub left : ℕ
  pub right : ℕ
  pub result : ℕ
  pub rank : ℕ

pub record TensorView : Type 0 where
  pub meta : TensorMeta
  pub bytes : Slice

pub record ModelView : Type 0 where
  pub image : Image
  pub sections : List Section
  pub settings : ModelConfig

abbrev no_section : Section
no_section = record { offset = 0; length = 0 }

-- The section at a place of the table.
abbrev pub section_at : ModelView → ℕ → Section
section_at v n = get_or v.sections n no_section

unfoldable pub section : ModelView → ℕ → Result ModelError Slice
section v id =
    if not (leb 1 id && leb id 7)
    then err
        (model_error status_section_schema domain_section id 0 (2 ^ 32 + 7) id field_section_id 0)
    else let s = section_at v (id - 1) in
      ok (record { start = s.offset; stop = s.offset + s.length })

unfoldable pub tensor : ModelView → ℕ → Result ModelError TensorView
tensor v id =
    if leb tensor_count id
    then err (model_error status_tensor_schema domain_tensor id 0 tensor_count id field_tensor_id 0)
    else let m = tensor_meta_at v.image id in
      ok (record {
        meta = m;
        bytes = record { start = m.data_offset; stop = m.data_offset + m.data_length };
      })

-- The number of a tensor by its layer and its role.
unfoldable pub tensor_id : ℕ → ℕ → Result ModelError ℕ
tensor_id layer role =
    let packed = layer * 2 ^ 16 + role in
    if layer == 0xffff
    then (if role == 1
        then ok 0
        else if role == 2
        then ok 289
        else if role == 3
        then ok 290
        else err (
            model_error status_tensor_schema domain_tensor packed 0 (2 ^ 32 + 3) role field_role 1))
    else if ltb layer 24
    then (if not (leb 10 role && leb role 21)
        then err (
            model_error status_tensor_schema domain_tensor packed 0 (10 * 2 ^ 32 + 21) role
              field_role 0)
        else ok (1 + layer * 12 + (role - 10)))
    else err (model_error status_tensor_schema domain_tensor packed 0 24 layer field_layer 0)

unfoldable pub tensor_for : ModelView → ℕ → ℕ → Result ModelError TensorView
tensor_for v layer role = tensor_id layer role >>= λ id. tensor v id

unfoldable pub token_bytes : ModelView → ℕ → Result ModelError Slice
token_bytes v id =
    if leb vocab_count id
    then err (model_error status_token_id domain_token id 0 vocab_count id field_token_id 0)
    else let offsets = (section_at v 0).offset in
      let base = (section_at v 1).offset in
      ok (record {
        start = base + u32_at v.image (offsets + id * 4);
        stop = base + u32_at v.image (offsets + (id + 1) * 4);
      })

unfoldable pub token_type : ModelView → ℕ → Result ModelError ℕ
token_type v id =
    if leb vocab_count id
    then err (model_error status_token_id domain_token id 0 vocab_count id field_token_id 0)
    else ok (v.image.byte ((section_at v 2).offset + id))

unfoldable pub merge : ModelView → ℕ → Result ModelError Merge
merge v rank =
    if leb merge_count rank
    then err (
        model_error status_tokenizer_schema domain_merge rank 0 merge_count rank field_merge_result
          0)
    else let at = (section_at v 3).offset + rank * 12 in
      ok (record {
        left = u32_at v.image at;
        right = u32_at v.image (at + 4);
        result = u32_at v.image (at + 8);
        rank = rank;
      })

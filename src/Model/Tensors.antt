-- ===== src/Model/Tensors.antt =====
-- The tensor table of crates/promptboot-core/src/model.rs: the frozen shapes, the entry of a tensor,
-- and `validate_tensors`.
use promptboot.Prelude.{
  ◌||◌, ℕ, ◌+◌, ◌-◌, ◌*◌, ◌/◌, ◌%◌, not, List, [], ◌∷◌, Option, none, some, bit_and, ltb, ◌==◌,
  if◌then◌else◌, get_or, Result, ◌>>=◌, ◌>>◌, fail_if, ok_or, checked_add, checked_mul, u64_max,
  loop, each,
}
use promptboot.Model.Errors.{
  status_alignment, field_range_start, status_order, field_rank, status_overlap, field_dtype,
  field_range_length, field_op_add, field_reserved_byte, field_block_length, field_dimension,
  field_role, domain_tensor, field_layer, status_arithmetic_overflow, status_reserved,
  status_tensor_schema, field_tensor_id, FieldKind, ModelError, model_error,
}
use promptboot.Model.Image.{Image, u16_at, u32_at, u64_at, model_bytes, tensor_count}

pub record TensorMeta : Type 0 where
  pub id : ℕ
  pub layer : ℕ
  pub role : ℕ
  pub dtype : ℕ
  pub rank : ℕ
  pub dims : List ℕ
  pub data_offset : ℕ
  pub data_length : ℕ
  pub elements : ℕ
  pub reserved : ℕ

-- The tuple of `expected_tensor`.
pub record Shape : Type 0 where
  pub layer : ℕ
  pub role : ℕ
  pub dtype : ℕ
  pub rank : ℕ
  pub dims : List ℕ

abbrev pub shape : ℕ → ℕ → ℕ → ℕ → List ℕ → Shape
shape l r d k ds = record { layer = l; role = r; dtype = d; rank = k; dims = ds }

-- The `match` on the slot of a layer.
unfoldable pub layer_tensor : ℕ → ℕ → Shape
layer_tensor layer slot =
    let role = 10 + slot in
    let vector : ℕ → Shape = λ n. shape layer role 1 1 (n ∷ 1 ∷ 1 ∷ 1 ∷ []) in
    let matrix : ℕ → ℕ → Shape = λ n k. shape layer role 2 2 (n ∷ k ∷ 1 ∷ 1 ∷ []) in
    if (slot == 0) || (slot == 4)
    then vector 896
    else if slot == 1
    then matrix 4864 896
    else if (slot == 2) || (slot == 3)
    then matrix 896 4864
    else if (slot == 5) || (slot == 10)
    then vector 128
    else if (slot == 6) || (slot == 11)
    then matrix 896 128
    else if (slot == 7) || (slot == 9)
    then matrix 896 896
    else if slot == 8
    then vector 896
    else shape 0 0 0 0 (0 ∷ 0 ∷ 0 ∷ 0 ∷ [])

unfoldable pub expected_tensor : ℕ → Shape
expected_tensor id =
    if id == 0
    then shape 0xffff 1 2 2 (896 ∷ 151936 ∷ 1 ∷ 1 ∷ [])
    else if id == 289
    then shape 0xffff 2 1 1 (896 ∷ 1 ∷ 1 ∷ 1 ∷ [])
    else if id == 290
    then shape 0xffff 3 3 2 (896 ∷ 151936 ∷ 1 ∷ 1 ∷ [])
    else layer_tensor ((id - 1) / 12) ((id - 1) % 12)

-- The product of the four dimensions; on the frozen shapes it is far below 2^64.
abbrev pub element_count : List ℕ → ℕ
element_count dims = get_or dims 0 0 * get_or dims 1 0 * get_or dims 2 0 * get_or dims 3 0

-- Where the entry of a tensor begins.
abbrev pub entry_at : ℕ → ℕ
entry_at id = 3952512 + id * 96

unfoldable pub tensor_meta_at : Image → ℕ → TensorMeta
tensor_meta_at m id = record {
  id = u32_at m (entry_at id);
  layer = u16_at m (entry_at id + 4);
  role = u16_at m (entry_at id + 6);
  dtype = u32_at m (entry_at id + 8);
  rank = u32_at m (entry_at id + 12);
  dims =
      u32_at m (entry_at id + 16)
      ∷ u32_at m (entry_at id + 20)
      ∷ u32_at m (entry_at id + 24)
      ∷ u32_at m (entry_at id + 28)
      ∷ [];
  data_offset = u64_at m (entry_at id + 32);
  data_length = u64_at m (entry_at id + 40);
  elements = element_count (expected_tensor id).dims;
  reserved = 0;
}

-- Blocks of 32 elements, with the bytes of a block.
unfoldable pub in_blocks : ℕ → ℕ → Option ℕ
in_blocks elements bytes = if elements % 32 == 0 then checked_mul (elements / 32) bytes else none

abbrev pub unwrap_or : Option ℕ → ℕ → ℕ
unwrap_or (some n) d = n
unwrap_or none d = d

-- The `match` on the type of the data, with its `unwrap_or(0)`.
unfoldable pub block_length : ℕ → ℕ → ℕ
block_length dtype elements =
    unwrap_or
      (if dtype == 1
        then checked_mul elements 4
        else if dtype == 2
        then in_blocks elements 18
        else if dtype == 3
        then in_blocks elements 34
        else none)
      0

-- Expected, actual, kind and offset of the first five fields.
unfoldable pub scalar_fields : TensorMeta → ℕ → List (ℕ × (ℕ × (FieldKind × ℕ)))
scalar_fields meta id =
    let s = expected_tensor id in
    (id, (meta.id, (field_tensor_id, 0)))
    ∷ (s.layer, (meta.layer, (field_layer, 4)))
    ∷ (s.role, (meta.role, (field_role, 6)))
    ∷ (s.dtype, (meta.dtype, (field_dtype, 8)))
    ∷ (s.rank, (meta.rank, (field_rank, 12)))
    ∷ []

unfoldable pub check_scalar : ℕ → ℕ × (ℕ × (FieldKind × ℕ)) → Result ModelError (Unit {0})
check_scalar id (expected, (actual, (kind, field_offset))) = fail_if (not (actual == expected)) (
    model_error status_tensor_schema domain_tensor id (entry_at id + field_offset) expected actual
      kind 0)

unfoldable pub check_dim : TensorMeta → ℕ → ℕ → Result ModelError (Unit {0})
check_dim meta id dim =
    let expected = get_or (expected_tensor id).dims dim 0 in
    fail_if (not (get_or meta.dims dim 0 == expected)) (
      model_error status_tensor_schema domain_tensor id (entry_at id + 16 + dim * 4) expected
        (get_or meta.dims dim 0) field_dimension dim)

-- Length, start and alignment of the data.
unfoldable pub check_range : TensorMeta → ℕ → ℕ → Result ModelError (Unit {0})
check_range meta id previous_end = do
  let dtype = (expected_tensor id).dtype
  let needed = block_length dtype meta.elements
  fail_if (not (meta.data_length == needed)) (
      model_error status_tensor_schema domain_tensor id (entry_at id + 40) needed meta.data_length
        field_block_length dtype)
  fail_if (not (meta.data_offset == previous_end)) (
      model_error (if ltb meta.data_offset previous_end then status_overlap else status_order)
        domain_tensor id (entry_at id + 32) previous_end meta.data_offset field_range_start 0)
  fail_if (not (bit_and meta.data_offset 63 == 0)) (
      model_error status_alignment domain_tensor id (entry_at id + 32) 64
        (bit_and meta.data_offset 63) field_range_start 0)

unfoldable pub check_padding : Image → ℕ → ℕ → Result ModelError (Unit {0})
check_padding m id at = fail_if (not (m.byte (entry_at id + at) == 0)) (
    model_error status_reserved domain_tensor id (entry_at id + at) 0 (m.byte (entry_at id + at))
      field_reserved_byte (at - 80))

-- A turn of the loop, from the end of the data before.
unfoldable pub validate_tensor : Image → ℕ → ℕ → Result ModelError ℕ
validate_tensor m previous_end id = do
  let meta = tensor_meta_at m id
  each (check_scalar id) (scalar_fields meta id)
  loop (λ _ dim. check_dim meta id dim) 0 4 tt
  check_range meta id previous_end
  loop (λ _ at. check_padding m id at) 80 16 tt
  ok_or (checked_add meta.data_offset meta.data_length) (
      model_error status_arithmetic_overflow domain_tensor id (entry_at id + 40)
        (u64_max - meta.data_offset) meta.data_length field_op_add 0)

unfoldable pub validate_tensors : Image → Result ModelError (Unit {0})
validate_tensors m = do
  previous_end ← loop (validate_tensor m) 0 tensor_count 3980480
  fail_if (not (previous_end == model_bytes)) (
      model_error status_tensor_schema domain_tensor 290 previous_end model_bytes previous_end
        field_range_length 0)

-- ===== src/Primitive/Schema.antt =====
-- `schema` of crates/promptboot-core/src/lib.rs: the sizes that each operation needs.
use promptboot.Prelude.{
  ℕ, ◌/◌, ◌%◌, Bool, true, false, not, ◌&&◌, ◌||◌, ltb, leb, ◌==◌, if◌then◌else◌, Result, ok, err,
  ◌>>=◌, ◌>>◌, fail_if,
}
use promptboot.Status.{PrimitiveStatus}
use promptboot.Primitive.{PrimitiveRequest, context_limit, mul_or, add_or, f32_bytes}
use promptboot.Primitive.Divisible.{is_divisible}

pub record Schema : Type 0 where
  pub input_bytes : ℕ
  pub aux_bytes : ℕ
  pub output_words : ℕ
  pub input_f32 : Bool
  pub aux_f32 : Bool

abbrev pub sizes : ℕ → ℕ → ℕ → Bool → Bool → Schema
sizes input aux words input_f32 aux_f32 = record {
  input_bytes = input;
  aux_bytes = aux;
  output_words = words;
  input_f32 = input_f32;
  aux_f32 = aux_f32;
}

-- The guard that the operations with one dimension share.
abbrev pub only_dim0 : PrimitiveRequest → Bool
only_dim0 r =
    not (r.dim0 == 0) && (r.dim1 == 0 && (r.dim2 == 0 && (r.dim3 == 0 && r.position == 0)))

-- operation 1
unfoldable pub bias_residual_schema : PrimitiveRequest → Result PrimitiveStatus Schema
bias_residual_schema r = do
  fail_if (not (only_dim0 r)) PrimitiveStatus.dimension
  words ← mul_or r.dim0 3
  input ← f32_bytes words
  ok (sizes input 0 r.dim0 true false)

-- operations 2 and 3
unfoldable pub quantized_schema : PrimitiveRequest → Result PrimitiveStatus Schema
quantized_schema r = do
  fail_if
      (r.dim0 == 0
        || (r.dim1 == 0
            || (not (r.dim1 % 32 == 0) || not (r.dim2 == 0 && (r.dim3 == 0 && r.position == 0)))))
      PrimitiveStatus.dimension
  blocks ← mul_or r.dim0 (r.dim1 / 32)
  let block_bytes = if r.operation == 2 then 18 else 34
  dequant ← mul_or r.dim0 r.dim1
  input ← mul_or blocks block_bytes
  aux ← f32_bytes r.dim1
  scaled ← add_or dequant 1
  words ← add_or scaled r.dim0
  ok (sizes input aux words false true)

-- operation 4
unfoldable pub rmsnorm_schema : PrimitiveRequest → Result PrimitiveStatus Schema
rmsnorm_schema r = do
  fail_if (not (only_dim0 r)) PrimitiveStatus.dimension
  input ← f32_bytes r.dim0
  aux ← f32_bytes r.dim0
  ok (sizes input aux r.dim0 true true)

-- operation 5
unfoldable pub rope_schema : PrimitiveRequest → Result PrimitiveStatus Schema
rope_schema r = do
  fail_if
      (not (r.dim0 == 4 || r.dim0 == 64)
        || (r.dim1 == 0 || (leb context_limit r.position || not (r.dim2 == 0 && r.dim3 == 0))))
      PrimitiveStatus.dimension
  words ← mul_or r.dim0 r.dim1
  input ← f32_bytes words
  ok (sizes input 0 words true false)

-- operation 6
unfoldable pub softmax_schema : PrimitiveRequest → Result PrimitiveStatus Schema
softmax_schema r = do
  fail_if (not (only_dim0 r)) PrimitiveStatus.dimension
  input ← f32_bytes r.dim0
  ok (sizes input 0 r.dim0 true false)

-- operation 7
unfoldable pub attention_schema : PrimitiveRequest → Result PrimitiveStatus Schema
attention_schema r = do
  fail_if
      (r.dim0 == 0
        || (r.dim1 == 0
            || (not (is_divisible r.dim0 r.dim1)
                || (not (r.dim3 == 2 || r.dim3 == 64)
                    || (r.dim2 == 0 || (ltb context_limit r.dim2 || not (r.position == 0)))))))
      PrimitiveStatus.dimension
  queries ← mul_or r.dim0 r.dim3
  keys ← mul_or r.dim2 r.dim1
  kv_words ← mul_or keys r.dim3
  both ← mul_or kv_words 2
  input_words ← add_or queries both
  scores ← mul_or r.dim2 2
  per_head ← add_or r.dim3 scores
  input ← f32_bytes input_words
  words ← mul_or r.dim0 per_head
  ok (sizes input 0 words true false)

-- operation 8
unfoldable pub swiglu_schema : PrimitiveRequest → Result PrimitiveStatus Schema
swiglu_schema r = do
  fail_if (not (only_dim0 r)) PrimitiveStatus.dimension
  input ← f32_bytes r.dim0
  aux ← f32_bytes r.dim0
  words ← mul_or r.dim0 2
  ok (sizes input aux words true true)

-- operation 9
unfoldable pub argmax_schema : PrimitiveRequest → Result PrimitiveStatus Schema
argmax_schema r = do
  fail_if (not (only_dim0 r)) PrimitiveStatus.dimension
  input ← f32_bytes r.dim0
  ok (sizes input 0 1 true false)

-- The `match` on the operation.
unfoldable pub schema : PrimitiveRequest → Result PrimitiveStatus Schema
schema r =
    if r.operation == 1
    then bias_residual_schema r
    else if r.operation == 2 || r.operation == 3
    then quantized_schema r
    else if r.operation == 4
    then rmsnorm_schema r
    else if r.operation == 5
    then rope_schema r
    else if r.operation == 6
    then softmax_schema r
    else if r.operation == 7
    then attention_schema r
    else if r.operation == 8
    then swiglu_schema r
    else if r.operation == 9
    then argmax_schema r
    else err PrimitiveStatus.unsupported_operation

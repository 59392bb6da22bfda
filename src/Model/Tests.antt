-- ===== src/Model/Tests.antt =====
-- Runs of crates/promptboot-core/src/model.rs on a file with the frozen header and section table, rising
-- offsets, and the entries of the first two tensors.
use promptboot.Prelude.{
  ap₂, lt→ltb, ap, le→ltb, ℕ, ◌+◌, ◌-◌, ◌*◌, ◌/◌, ◌%◌, ◌<◌, ◌≤◌, ◌≡◌, refl, true, List, [], ◌∷◌,
  ◌++◌, replicate, leb, ltb, ◌==◌, if◌then◌else◌, get_or, Within, Decides, decides_ok, decides_err,
  Result, ok, ◌>>=◌, loop, each, Ends, arith,
}
use promptboot.Sha256.Routine.{routine, routine-compress_scalar}
use promptboot.Model.Authentic.{Authentic, open_authenticated-Authentic}
use promptboot.Model.Errors.{ModelError}
use promptboot.Model.Image.{
  Image, u16_at, u32_at, u64_at, hex32, hex_nibble, source_hash, vocab_count,
}
use promptboot.Model.Header.{
  check_header, check_length, check_alignment, check_magic, check32, check64, check_source,
  check_reserved,
}
use promptboot.Model.Sections.{
  read_sections, read_section, entry_fields, check_entry, check_start, check_gap, check_end,
}
use promptboot.Model.Tensors.{
  validate_tensor, scalar_fields, check_scalar, check_dim, check_range, check_padding,
  tensor_meta_at, expected_tensor, layer_tensor, block_length, in_blocks,
}
use promptboot.Model.Accepts.{frozen_sections}
use promptboot.Model.Layout.{FrozenTensor, validate_tensor-Decides, data_start, tensor_size}
use promptboot.Model.View.{ModelView, tensor_id, config}
use promptboot.Model.Lookup.{Named, Numbers, tensor_id-Numbers, tensor_id-expected_tensor}
use promptboot.Model.Texts.{Rises}
use promptboot.Model.Opening.{FrozenModel, opened, open_authenticated-Decides}
use promptboot.Model.Open.{open_authenticated}

abbrev header_bytes : List ℕ
header_bytes =
    (80 ∷ 66 ∷ 84 ∷ 81 ∷ 87 ∷ 50 ∷ 53 ∷ 0 ∷ 1 ∷ 0 ∷ 0 ∷ 0 ∷ 0 ∷ 1 ∷ 0 ∷ 0 ∷ 4 ∷ 3 ∷ 2 ∷ 1 ∷ 7 ∷ 0
      ∷ 0 ∷ 0 ∷ 35 ∷ 1 ∷ 0 ∷ 0 ∷ 128 ∷ 81 ∷ 2 ∷ 0 ∷ 91 ∷ 79 ∷ 2 ∷ 0 ∷ 0 ∷ 128 ∷ 0 ∷ 0 ∷ 24 ∷ 0 ∷ 0
      ∷ 0 ∷ 128 ∷ 3 ∷ 0 ∷ 0 ∷ 0 ∷ 19 ∷ 0 ∷ 0 ∷ 14 ∷ 0 ∷ 0 ∷ 0 ∷ 2 ∷ 0 ∷ 0 ∷ 0 ∷ 64 ∷ 0 ∷ 0 ∷ 0 ∷ 93
      ∷ 80 ∷ 2 ∷ 0 ∷ 91 ∷ 80 ∷ 2 ∷ 0 ∷ 91 ∷ 80 ∷ 2 ∷ 0 ∷ 0 ∷ 0 ∷ 0 ∷ 0 ∷ 96 ∷ 231 ∷ 141 ∷ 25 ∷ 0 ∷ 0
      ∷ 0 ∷ 0 ∷ 192 ∷ 226 ∷ 111 ∷ 25 ∷ 0 ∷ 0 ∷ 0 ∷ 0 ∷ 0 ∷ 1 ∷ [])
    ++ replicate 6 0
    ++ (192 ∷ 1 ∷ [])
    ++ replicate 6 0
    ++ (96 ∷ 193 ∷ 90 ∷ [])
    ++ replicate 6 0
    ++ (38 ∷ 51 ∷ 25 ∷ 0 ∷ 0 ∷ 0 ∷ 0 ∷ 118 ∷ 113 ∷ 192 ∷ 195 ∷ 4 ∷ 230 ∷ 206 ∷ 90 ∷ 127 ∷ 197 ∷ 119
        ∷ 188 ∷ 177 ∷ 42 ∷ 186 ∷ 1 ∷ 226 ∷ 193 ∷ 85 ∷ 204 ∷ 46 ∷ 253 ∷ 41 ∷ 178 ∷ 33 ∷ 60 ∷ 149
        ∷ 177 ∷ 142 ∷ 218 ∷ 246 ∷ 237 ∷ [])
    ++ replicate 96 0
    ++ (1 ∷ 0 ∷ 0 ∷ 0 ∷ 1 ∷ 0 ∷ 0 ∷ 0 ∷ 129 ∷ 81 ∷ 2 ∷ 0 ∷ 0 ∷ 0 ∷ 0 ∷ 0 ∷ 192 ∷ 2 ∷ [])
    ++ replicate 6 0
    ++ (4 ∷ 70 ∷ 9 ∷ [])
    ++ replicate 37 0
    ++ (2 ∷ 0 ∷ 0 ∷ 0 ∷ 2 ∷ 0 ∷ 0 ∷ 0 ∷ 86 ∷ 242 ∷ 20 ∷ [])
    ++ replicate 6 0
    ++ (73 ∷ 9 ∷ 0 ∷ 0 ∷ 0 ∷ 0 ∷ 0 ∷ 86 ∷ 242 ∷ 20 ∷ [])
    ++ replicate 37 0
    ++ (3 ∷ 0 ∷ 0 ∷ 0 ∷ 2 ∷ 0 ∷ 0 ∷ 0 ∷ 128 ∷ 81 ∷ 2 ∷ 0 ∷ 0 ∷ 0 ∷ 0 ∷ 0 ∷ 128 ∷ 59 ∷ 30 ∷ 0 ∷ 0 ∷ 0
        ∷ 0 ∷ 0 ∷ 128 ∷ 81 ∷ 2 ∷ [])
    ++ replicate 37 0
    ++ (4 ∷ 0 ∷ 0 ∷ 0 ∷ 3 ∷ 0 ∷ 0 ∷ 0 ∷ 91 ∷ 79 ∷ 2 ∷ [])
    ++ replicate 6 0
    ++ (141 ∷ 32 ∷ 0 ∷ 0 ∷ 0 ∷ 0 ∷ 0 ∷ 68 ∷ 184 ∷ 27 ∷ [])
    ++ replicate 37 0
    ++ (5 ∷ 0 ∷ 0 ∷ 0 ∷ 2 ∷ 0 ∷ 0 ∷ 0 ∷ 205 ∷ 9 ∷ [])
    ++ replicate 6 0
    ++ (128 ∷ 69 ∷ 60 ∷ 0 ∷ 0 ∷ 0 ∷ 0 ∷ 0 ∷ 205 ∷ 9 ∷ [])
    ++ replicate 38 0
    ++ (6 ∷ 0 ∷ 0 ∷ 0 ∷ 4 ∷ 0 ∷ 0 ∷ 0 ∷ 35 ∷ 1 ∷ [])
    ++ replicate 6 0
    ++ (128 ∷ 79 ∷ 60 ∷ 0 ∷ 0 ∷ 0 ∷ 0 ∷ 0 ∷ 32 ∷ 109 ∷ [])
    ++ replicate 38 0
    ++ (7 ∷ 0 ∷ 0 ∷ 0 ∷ 2 ∷ 0 ∷ 0 ∷ 0 ∷ 0 ∷ 38 ∷ 51 ∷ 25 ∷ 0 ∷ 0 ∷ 0 ∷ 0 ∷ 192 ∷ 188 ∷ 60 ∷ [])
    ++ replicate 6 0
    ++ (38 ∷ 51 ∷ 25 ∷ [])
    ++ replicate 36 0

abbrev entry_bytes : List ℕ
entry_bytes =
    (0 ∷ 0 ∷ 0 ∷ 0 ∷ 255 ∷ 255 ∷ 1 ∷ 0 ∷ 2 ∷ 0 ∷ 0 ∷ 0 ∷ 2 ∷ 0 ∷ 0 ∷ 0 ∷ 128 ∷ 3 ∷ 0 ∷ 0 ∷ 128 ∷ 81
      ∷ 2 ∷ 0 ∷ 1 ∷ 0 ∷ 0 ∷ 0 ∷ 1 ∷ 0 ∷ 0 ∷ 0 ∷ 192 ∷ 188 ∷ 60 ∷ [])
    ++ replicate 6 0
    ++ (116 ∷ 144 ∷ 4 ∷ [])
    ++ replicate 52 0
    ++ (1 ∷ 0 ∷ 0 ∷ 0 ∷ 0 ∷ 0 ∷ 10 ∷ 0 ∷ 1 ∷ 0 ∷ 0 ∷ 0 ∷ 1 ∷ 0 ∷ 0 ∷ 0 ∷ 128 ∷ 3 ∷ 0 ∷ 0 ∷ 1 ∷ 0 ∷ 0
        ∷ 0 ∷ 1 ∷ 0 ∷ 0 ∷ 0 ∷ 1 ∷ 0 ∷ 0 ∷ 0 ∷ 192 ∷ 48 ∷ 205 ∷ 4 ∷ 0 ∷ 0 ∷ 0 ∷ 0 ∷ 0 ∷ 14 ∷ [])
    ++ replicate 54 0

-- One of the four bytes of a word.
abbrev byte_of : ℕ → ℕ → ℕ
byte_of n k =
    if k == 0
    then n % 256
    else if k == 1
    then n / 256 % 256
    else if k == 2
    then n / 65536 % 256
    else n / 16777216

abbrev sample_byte : ℕ → ℕ
sample_byte at =
    if ltb at 704
    then get_or header_bytes at 0
    else if ltb at 608452
    then byte_of (9 * ((at - 704) / 4)) ((at - 704) % 4)
    else if leb 3952512 at
    then get_or entry_bytes (at - 3952512) 0
    else 0

abbrev sample : Image
sample = record { address = 4096; byte_count = 426762944; byte = sample_byte }

header_accepted : check_header sample ≡ ok tt
unfolding check_header check_length check_alignment check_magic check32 check64 check_source
    check_reserved loop each ◌>>=◌ u32_at u64_at source_hash hex32 hex_nibble
header_accepted = refl

table_accepted : read_sections sample ≡ ok frozen_sections
unfolding read_sections read_section entry_fields check_entry check_start check_gap check_end loop
    each ◌>>=◌ u32_at u64_at
table_accepted = refl

abbrev sample_view : ModelView
sample_view = record { image = sample; sections = frozen_sections; settings = config }

-- What holds of a call that is seen to succeed.
accepted : {P : Type 0} {v w : ℕ} {r : Result ModelError ℕ} → Decides P v r → r ≡ ok w → P
accepted (decides_ok p) e = p
accepted (decides_err n) e = cc

embedding_passes : validate_tensor sample (data_start 0) 0 ≡ ok (data_start 1)
unfolding validate_tensor scalar_fields check_scalar check_dim check_range check_padding
    tensor_meta_at expected_tensor layer_tensor block_length in_blocks u16_at u32_at u64_at loop
    each ◌>>=◌ data_start tensor_size
embedding_passes = refl

norm_passes : validate_tensor sample (data_start 1) 1 ≡ ok (data_start 2)
unfolding validate_tensor scalar_fields check_scalar check_dim check_range check_padding
    tensor_meta_at expected_tensor layer_tensor block_length in_blocks u16_at u32_at u64_at loop
    each ◌>>=◌ data_start tensor_size
norm_passes = refl

embedding_frozen : FrozenTensor sample 0
embedding_frozen = accepted (validate_tensor-Decides sample 0 (omega arith)) embedding_passes

norm_frozen : FrozenTensor sample 1
norm_frozen = accepted (validate_tensor-Decides sample 1 (omega arith)) norm_passes

tensor_id-Numbers_example : Ends (λ e. ¬ Named 3 12) (Numbers 3 12) (tensor_id 3 12)
tensor_id-Numbers_example = tensor_id-Numbers 3 12

tensor_id-expected_tensor_example :
    tensor_id (expected_tensor 39).layer (expected_tensor 39).role ≡ ok 39
tensor_id-expected_tensor_example = tensor_id-expected_tensor 39 (omega arith)

sample_offset :
    (i k : ℕ) → i ≤ vocab_count → k < 4 → sample_byte (704 + i * 4 + k) ≡ byte_of (9 * i) k
sample_offset i k l h =
    let at : ℕ = 704 + i * 4 + k in
    let row : 9 * ((at - 704) / 4) ≡ 9 * i = omega arith in
    let place : (at - 704) % 4 ≡ k = omega arith in
    rw (le→ltb at 704 (omega arith), lt→ltb at 608452 (omega arith)) (ap₂ byte_of row place)

sample_word : (i : ℕ) → i ≤ vocab_count → u32_at sample (704 + i * 4) ≡ 9 * i
unfolding u32_at
sample_word i l =
    let e : 704 + i * 4 ≡ 704 + i * 4 + 0 = omega arith in
    omega (
      arith,
      ap sample_byte e,
      sample_offset i 0 l (omega arith),
      sample_offset i 1 l (omega arith),
      sample_offset i 2 l (omega arith),
      sample_offset i 3 l (omega arith),
    )

sample-Rises : Within (Rises sample) 0 vocab_count
sample-Rises i a b = omega (arith, sample_word i (omega arith), sample_word (i + 1) (omega arith))

open_authenticated-Decides_example :
    Decides
      (FrozenModel true routine sample)
      (opened true routine sample)
      (open_authenticated true routine sample)
open_authenticated-Decides_example = open_authenticated-Decides true routine sample

open_authenticated-Authentic_example :
    Ends
      (λ e. ¬ FrozenModel true routine sample)
      (Authentic true routine routine-compress_scalar sample)
      (open_authenticated true routine sample)
open_authenticated-Authentic_example =
    open_authenticated-Authentic true routine routine-compress_scalar sample

-- ===== src/Model/Layout.antt =====
-- `validate_tensors` of crates/promptboot-core/src/model.rs: the data of the tensors stand one behind
-- the other.
use promptboot.Prelude.{
  ok_or-Decides, le→ltb, some, zero, suc, ℕ, ◌+◌, ◌-◌, ◌/◌, ◌%◌, ◌<◌, ◌≤◌, ◌≡◌, refl, ap, sym, ◌∙◌,
  bit_and, get_or, All, checked_add, u64_max, Decides, Decides-iff, Within, fail_unless-Decides,
  bind-Decides, each-Decides, loop-Decides, checks-Decides, arith,
}
use native.Mathlib.Decide.{dec_lt}
use promptboot.Prelude.Bits.{and_low}
use promptboot.Model.Errors.{FieldKind}
use promptboot.Model.Image.{Image, model_bytes}
use promptboot.Model.Tensors.{
  layer_tensor, expected_tensor, element_count, entry_at, tensor_meta_at, in_blocks, block_length,
  scalar_fields, check_scalar, check_dim, check_range, check_padding, validate_tensor,
  validate_tensors,
}

-- The bytes that the data of a tensor takes.
unfoldable pub tensor_size : ℕ → ℕ
tensor_size id = block_length (expected_tensor id).dtype (element_count (expected_tensor id).dims)

-- Where it starts: the data follow one another in the seventh section.
unfoldable pub data_start : ℕ → ℕ
data_start zero = 3980480
data_start (suc id) = data_start id + tensor_size id

layer_tensor-size :
    (layer slot : ℕ)
    → block_length (layer_tensor layer slot).dtype (element_count (layer_tensor layer slot).dims)
        % 64
      ≡ 0
unfolding layer_tensor block_length in_blocks
layer_tensor-size layer slot = ground arith

tensor_size-aligned : (id : ℕ) → tensor_size id % 64 ≡ 0
unfolding tensor_size expected_tensor block_length in_blocks
tensor_size-aligned id = ground (arith, layer_tensor-size ((id - 1) / 12) ((id - 1) % 12))

pub data_start-aligned : (id : ℕ) → data_start id % 64 ≡ 0
unfolding data_start
data_start-aligned zero = omega arith
data_start-aligned (suc id) = omega (arith, data_start-aligned id, tensor_size-aligned id)

pub data_start_mono : (i j : ℕ) → i ≤ j → data_start i ≤ data_start j
unfolding data_start
data_start_mono i zero l = let e : i ≡ 0 = omega arith in rw e (omega arith)
data_start_mono i (suc j) l = elim (dec_lt i (suc j)) [
  | yes a ↦ omega (arith, data_start_mono i j (omega arith))
  | no a ↦ let e : i ≡ suc j = omega arith in rw e (omega arith)
]

pub data_start-end : data_start 291 ≡ model_bytes
unfolding data_start tensor_size expected_tensor layer_tensor block_length in_blocks
data_start-end = refl

-- The entry of a tensor: the frozen shape, and the place of its data.
pub record FrozenTensor (m : Image) (id : ℕ) : Type 0 where
  pub scalars :
      All (λ (t : ℕ × (ℕ × (FieldKind × ℕ))). t.1.0 ≡ t.0) (scalar_fields (tensor_meta_at m id) id)
  pub dims :
      Within (λ d. get_or (tensor_meta_at m id).dims d 0 ≡ get_or (expected_tensor id).dims d 0) 0 4
  pub size : (tensor_meta_at m id).data_length ≡ tensor_size id
  pub place : (tensor_meta_at m id).data_offset ≡ data_start id
  pub zeros : Within (λ at. m.byte (entry_at id + at) ≡ 0) 80 96

abbrev Placed : Image → ℕ → Type 0
Placed m id =
    ((tensor_meta_at m id).data_length ≡ tensor_size id)
    × ((tensor_meta_at m id).data_offset ≡ data_start id)

check_range-Decides :
    (m : Image) (id : ℕ)
    → Decides (Placed m id) tt (check_range (tensor_meta_at m id) id (data_start id))
unfolding check_range tensor_size tensor_meta_at
check_range-Decides m id =
    Decides-iff (λ h. (h.0, h.1.0))
      (λ h. (
        h.0,
        (
          h.1,
          ap (λ (n : ℕ). bit_and n 63) h.1 ∙ (and_low 6 (data_start id) ∙ data_start-aligned id),
        ),
      ))
      (bind-Decides _ (fail_unless-Decides _ _ _) λ _.
        bind-Decides _ (fail_unless-Decides _ (data_start id) _) λ _. fail_unless-Decides _ _ _)

pub data_start-le : (id : ℕ) → id < 291 → data_start (id + 1) ≤ model_bytes
data_start-le id l = omega (arith, data_start_mono (id + 1) 291 (omega arith), data_start-end)

pub data_start-next : (id : ℕ) → data_start (id + 1) ≡ data_start id + tensor_size id
unfolding data_start
data_start-next id = let e : id + 1 ≡ suc id = omega arith in ap data_start e

data_start-small :
    (id : ℕ) → id < 291 → checked_add (data_start id) (tensor_size id) ≡ some (data_start (id + 1))
data_start-small id l =
    rw
      (le→ltb u64_max (data_start id + tensor_size id)
        (omega (arith, data_start-le id l, data_start-next id)))
      (ap some (sym (data_start-next id)))

pub validate_tensor-Decides :
    (m : Image) (id : ℕ)
    → id < 291
    → Decides (FrozenTensor m id) (data_start (id + 1)) (validate_tensor m (data_start id) id)
unfolding validate_tensor check_scalar check_dim check_padding
validate_tensor-Decides m id l =
    Decides-iff
      (λ h.
        let (a, (b, ((c, d), (e, _)))) = h in
        record { scalars = a; dims = b; size = c; place = d; zeros = e })
      (λ f. (f.scalars, (f.dims, ((f.size, f.place), (f.zeros, tt)))))
      (bind-Decides _
        (each-Decides _ (check_scalar id) (scalar_fields (tensor_meta_at m id) id)
          (λ t. fail_unless-Decides _ _ _))
        λ _.
          bind-Decides _
            (checks-Decides _ (check_dim (tensor_meta_at m id) id) 0 4
              (λ d. fail_unless-Decides _ _ _))
            λ _. bind-Decides _ (check_range-Decides m id) λ (h : Placed m id).
              bind-Decides _
                (checks-Decides _ (check_padding m id) 80 16 (λ at. fail_unless-Decides _ _ _))
                λ _. ok_or-Decides _ _ (rw (h.0, h.1) (data_start-small id l)))

-- The whole table.
abbrev pub FrozenTensors : Image → Type 0
FrozenTensors m = Within (FrozenTensor m) 0 291

-- `validate_tensors` succeeds exactly where every entry has its frozen shape and its data follow those
-- of the entry before.
pub validate_tensors-Decides : (m : Image) → Decides (FrozenTensors m) tt (validate_tensors m)
unfolding validate_tensors data_start
validate_tensors-Decides m =
    Decides-iff (λ h. h.0) (λ h. (h, data_start-end))
      (bind-Decides _
        (loop-Decides (FrozenTensor m) data_start (validate_tensor m) 0 291
          (λ i _ l _. validate_tensor-Decides m i l))
        λ _. fail_unless-Decides (data_start 291) model_bytes _)

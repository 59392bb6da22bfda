-- ===== src/Model/Lookup.antt =====
-- The tensors that `ModelView` of crates/promptboot-core/src/model.rs lends.
use promptboot.Prelude.{
  ap₂, ℕ, ◌+◌, ◌-◌, ◌*◌, ◌/◌, ◌%◌, ◌<◌, ◌≤◌, ◌≡◌, ◌⊎◌, inl, inr, refl, ap, sym, ◌∙◌, not, ◌&&◌, ltb,
  leb, ◌==◌, if-cases, Result, ok, ◌>>=◌, Ends, ends_ok, ends_err, bind-Ends, arith,
}
use promptboot.Model.Errors.{ModelError}
use promptboot.Model.Image.{Image, model_bytes}
use promptboot.Model.Tensors.{Shape, layer_tensor, expected_tensor, tensor_meta_at, scalar_fields}
use promptboot.Model.View.{ModelView, TensorView, tensor_id, tensor}
use promptboot.Model.Layout.{
  data_start, data_start-aligned, data_start_mono, data_start-le, data_start-next, FrozenTensor,
}

-- The layers and roles that name a tensor.
abbrev pub Named : ℕ → ℕ → Type 0
Named layer role =
    ((layer ≡ 0xffff) × ((1 ≤ role) × (role ≤ 3))) ⊎ ((layer < 24) × ((10 ≤ role) × (role ≤ 21)))

abbrev pub Numbers : ℕ → ℕ → ℕ → Type 0
Numbers layer role id =
    (id < 291) × (((expected_tensor id).layer ≡ layer) × ((expected_tensor id).role ≡ role))

layer_tensor-names :
    (layer slot : ℕ)
    → slot < 12
    → ((layer_tensor layer slot).layer ≡ layer) × ((layer_tensor layer slot).role ≡ 10 + slot)
unfolding layer_tensor
layer_tensor-names layer slot l = (ground arith, ground arith)

expected_tensor-Numbers :
    (layer role : ℕ)
    → layer < 24
    → 10 ≤ role
    → role ≤ 21
    → Numbers layer role (1 + layer * 12 + (role - 10))
unfolding expected_tensor
expected_tensor-Numbers layer role l a b =
    let n : ℕ = 1 + layer * 12 + (role - 10) in
    let names = layer_tensor-names ((n - 1) / 12) ((n - 1) % 12) (omega arith) in
    let row : (n - 1) / 12 ≡ layer = omega arith in
    let slot : 10 + (n - 1) % 12 ≡ role = omega arith in
    (omega arith, (ground (arith, names.0), ground (arith, names.1)))

outer-Numbers :
    (layer role id : ℕ)
    → layer ≡ 0xffff
    → ((role ≡ 1) × (id ≡ 0)) ⊎ (((role ≡ 2) × (id ≡ 289)) ⊎ ((role ≡ 3) × (id ≡ 290)))
    → Numbers layer role id
unfolding expected_tensor
outer-Numbers layer role id l h = (ground arith, (ground arith, ground arith))

-- The number that a layer and a role have is that of the tensor whose frozen shape carries them; the
-- others are refused.
pub tensor_id-Numbers :
    (layer role : ℕ) → Ends (λ e. ¬ Named layer role) (Numbers layer role) (tensor_id layer role)
unfolding tensor_id
tensor_id-Numbers layer role =
    let C : Result ModelError ℕ → Type 0 = Ends (λ e. ¬ Named layer role) (Numbers layer role) in
    if-cases C (layer == 0xffff) _ _
      (λ t.
        if-cases C (role == 1) _ _
          (λ r. ends_ok (outer-Numbers layer role 0 (ground arith) (inl (ground arith, refl))))
          (λ n1.
            if-cases C (role == 2) _ _
              (λ r.
                ends_ok
                  (outer-Numbers layer role 289 (ground arith) (inr (inl (ground arith, refl)))))
              (λ n2.
                if-cases C (role == 3) _ _
                  (λ r.
                    ends_ok (
                      outer-Numbers layer role 290 (ground arith) (inr (inr (ground arith, refl)))))
                  (λ n3. ends_err λ n. ground arith))))
      (λ f.
        if-cases C (ltb layer 24) _ _
          (λ t.
            if-cases C (not (leb 10 role && leb role 21)) _ _ (λ o. ends_err λ n. ground arith)
              (λ i.
                ends_ok (
                  expected_tensor-Numbers layer role (ground arith) (ground arith) (ground arith))))
          (λ g. ends_err λ n. ground arith))

tensor_id-inner :
    (layer role : ℕ)
    → layer < 24
    → 10 ≤ role
    → role ≤ 21
    → tensor_id layer role ≡ ok (1 + layer * 12 + (role - 10))
unfolding tensor_id
tensor_id-inner layer role l a b = ground arith

inner-layer_tensor :
    (id : ℕ)
    → 0 < id
    → id < 289
    → tensor_id
        (layer_tensor ((id - 1) / 12) ((id - 1) % 12)).layer
        (layer_tensor ((id - 1) / 12) ((id - 1) % 12)).role
      ≡ ok id
inner-layer_tensor id a b =
    let row : ℕ = (id - 1) / 12 in
    let slot : ℕ = (id - 1) % 12 in
    let names = layer_tensor-names row slot (omega arith) in
    rw (names.0, names.1, tensor_id-inner row (10 + slot) (omega arith) (omega arith) (omega arith))
      (ap ok (omega arith))

-- The layer and the role of the frozen shape of a tensor have its number.
pub tensor_id-expected_tensor :
    (id : ℕ) → id < 291 → tensor_id (expected_tensor id).layer (expected_tensor id).role ≡ ok id
unfolding tensor_id expected_tensor
tensor_id-expected_tensor id l =
    let C : Shape → Type 0 = λ (s : Shape). tensor_id s.layer s.role ≡ ok id in
    if-cases C (id == 0) _ _ (λ t. ap ok (ground arith))
      (λ n0.
        if-cases C (id == 289) _ _ (λ t. ap ok (ground arith))
          (λ n1.
            if-cases C (id == 290) _ _ (λ t. ap ok (ground arith))
              (λ n2. inner-layer_tensor id (ground arith) (ground arith))))

-- What is lent for a tensor.
pub record Lends (m : Image) (id : ℕ) (t : TensorView) : Type 0 where
  pub layer : t.meta.layer ≡ (expected_tensor id).layer
  pub role : t.meta.role ≡ (expected_tensor id).role
  pub from_start : t.bytes.start ≡ data_start id
  pub up_to : t.bytes.stop ≡ data_start (id + 1)
  pub aligned : t.bytes.start % 64 ≡ 0
  pub inside : t.bytes.stop ≤ model_bytes

pub tensor-Lends :
    (v : ModelView) (id : ℕ)
    → id < 291
    → FrozenTensor v.image id
    → Ends (λ (e : ModelError). ⊥) (Lends v.image id) (tensor v id)
unfolding tensor scalar_fields
tensor-Lends v id l f =
    if-cases (Ends (λ (e : ModelError). ⊥) (Lends v.image id)) (leb 291 id) _ _
      (λ t. absurd (ground arith))
      (λ _.
        (let stop : (tensor_meta_at v.image id).data_offset
                + (tensor_meta_at v.image id).data_length
              ≡ data_start (id + 1) =
            ap₂ (λ (a b : ℕ). a + b) f.place f.size ∙ sym (data_start-next id) in
          ends_ok (record {
            layer = f.scalars.1.0;
            role = f.scalars.1.1.0;
            from_start = f.place;
            up_to = stop;
            aligned = ap (λ (n : ℕ). n % 64) f.place ∙ data_start-aligned id;
            inside = rw stop (data_start-le id l);
          })))

-- On frozen entries the data of different tensors never overlap.
pub tensor-Disjoint :
    (v : ModelView) (i j : ℕ)
    → i < j
    → j < 291
    → FrozenTensor v.image i
    → FrozenTensor v.image j
    → Ends
        (λ (e : ModelError). ⊥)
        (λ (p : TensorView × TensorView). p.0.bytes.stop ≤ p.1.bytes.start)
        (tensor v i >>= λ a. tensor v j >>= λ b. ok (a, b))
tensor-Disjoint v i j l k f g = bind-Ends (tensor-Lends v i (omega arith) f) λ a p.
    bind-Ends (tensor-Lends v j k g)
      λ b q. ends_ok (rw (p.up_to, q.from_start) (data_start_mono (i + 1) j (omega arith)))

-- ===== src/Model/Texts.antt =====
-- The texts of the tokens that `ModelView` of crates/promptboot-core/src/model.rs lends.
use promptboot.Prelude.{
  ap, ℕ, zero, suc, ◌+◌, ◌<◌, ◌≤◌, ◌≡◌, refl, leb, if-cases, Within, ok, ◌>>=◌, Ends, ends_ok,
  bind-Ends, arith,
}
use native.Mathlib.Decide.{dec_lt}
use promptboot.Model.Errors.{ModelError}
use promptboot.Model.Image.{Image, Slice, vocab_count}
use promptboot.Model.Accepts.{frozen_sections}
use promptboot.Model.Merges.{token_start}
use promptboot.Model.View.{ModelView, token_bytes}

-- The offsets rise, and stay inside the section of texts.
abbrev pub Rises : Image → ℕ → Type 0
Rises m id =
    (token_start m 704 id < token_start m 704 (id + 1)) × (token_start m 704 (id + 1) ≤ 1372758)

Rises-to :
    (m : Image) (i j : ℕ)
    → Within (Rises m) 0 vocab_count
    → i ≤ j
    → j ≤ vocab_count
    → token_start m 704 i ≤ token_start m 704 j
Rises-to m i zero w l k = let e : i ≡ 0 = omega arith in rw e (omega arith)
Rises-to m i (suc j) w l k = elim (dec_lt i (suc j)) [
  | yes a ↦
      let e : j + 1 ≡ suc j = omega arith in
      omega (
        arith,
        Rises-to m i j w (omega arith) (omega arith),
        (w j (omega arith) k).0,
        ap (token_start m 704) e,
      )
  | no n ↦ let e : i ≡ suc j = omega arith in rw e (omega arith)
]

-- Where a text stands: not empty, and in the section of texts.
pub record Stands (v : ModelView) (id : ℕ) (s : Slice) : Type 0 where
  pub starts : s.start ≡ 608512 + token_start v.image 704 id
  pub stops : s.stop ≡ 608512 + token_start v.image 704 (id + 1)
  pub nonempty : s.start < s.stop
  pub inside : s.stop ≤ 608512 + 1372758

pub token_bytes-Stands :
    (v : ModelView) (id : ℕ)
    → v.sections ≡ frozen_sections
    → id < vocab_count
    → Rises v.image id
    → Ends (λ (e : ModelError). ⊥) (Stands v id) (token_bytes v id)
unfolding token_bytes
token_bytes-Stands v id e l r =
    if-cases (Ends (λ (x : ModelError). ⊥) (Stands v id)) (leb vocab_count id) _ _
      (λ t. absurd (ground arith))
      (λ _. rw e (
        ends_ok (record {
          starts = refl;
          stops = refl;
          nonempty = omega (arith, r.0);
          inside = omega (arith, r.1);
        })))

-- On a model whose offsets rise, every text that token_bytes lends is not empty and inside the section
-- of texts, and the texts of two tokens never overlap: they stand in the order of their numbers.
pub token_bytes-InOrder :
    (v : ModelView) (i j : ℕ)
    → v.sections ≡ frozen_sections
    → Within (Rises v.image) 0 vocab_count
    → i < j
    → j < vocab_count
    → Ends
        (λ (e : ModelError). ⊥)
        (λ (p : Slice × Slice).
          (608512 ≤ p.0.start)
          × ((p.0.start < p.0.stop)
              × ((p.0.stop ≤ p.1.start) × ((p.1.start < p.1.stop) × (p.1.stop ≤ 1981270)))))
        (token_bytes v i >>= λ a. token_bytes v j >>= λ b. ok (a, b))
token_bytes-InOrder v i j e w l k =
    bind-Ends (token_bytes-Stands v i e (omega arith) (w i (omega arith) (omega arith))) λ a p.
      bind-Ends (token_bytes-Stands v j e k (w j (omega arith) k)) λ b q.
        let between = Rises-to v.image (i + 1) j w (omega arith) (omega arith) in
        ends_ok (
          omega (arith, p.starts),
          (p.nonempty, (omega (arith, p.stops, q.starts, between), (q.nonempty, q.inside))),
        )

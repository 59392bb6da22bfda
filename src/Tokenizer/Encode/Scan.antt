-- ===== src/Tokenizer/Encode/Scan.antt =====
-- The search for the best merge of a segment, in crates/promptboot-core/src/tokenizer.rs.
use promptboot.Prelude.{
  sym, ◌∙◌, ap, subst, ℕ, zero, suc, ◌+◌, ◌≤◌, ◌<◌, ◌≡◌, refl, List, [], ◌∷◌, Option, none, some,
  ◌⊎◌, inl, inr, arith,
}
use promptboot.Tokenizer.Table.{Index, lookup}
use promptboot.Tokenizer.Encode.{Best, improve, scan}
use promptboot.Tokenizer.Encode.Spelling.{candidate}

-- What a scan from `at` on leaves of the best merge before it.
pub record Scanned (index : Index) (segment : List ℕ) (at : ℕ) (before after : Best) : Type 0 where
  pub lowest :
      (i result rank : ℕ) → candidate index segment i ≡ some (result, rank) → after.rank ≤ rank
  pub leftmost :
      (i result rank : ℕ)
      → candidate index segment i ≡ some (result, rank)
      → at + i < after.at
      → after.rank < rank
  pub found :
      (after ≡ before)
      ⊎ ((after.rank < before.rank)
          × ((i : ℕ) × (after.at ≡ at + i)
              × (candidate index segment i ≡ some (after.result, after.rank))))

-- The merge at hand, against the best one so far.
improve-found :
    (merged : Option (ℕ × ℕ)) (at : ℕ) (best : Best)
    → (improve merged at best ≡ best)
      ⊎ (((improve merged at best).rank < best.rank)
          × (((improve merged at best).at ≡ at)
              × (merged ≡ some ((improve merged at best).result, (improve merged at best).rank))))
unfolding improve
improve-found none at best = inl refl
improve-found (some (result, rank)) at best = ground arith

improve-lowest :
    (merged : Option (ℕ × ℕ)) (at : ℕ) (best : Best) (result rank : ℕ)
    → merged ≡ some (result, rank)
    → (improve merged at best).rank ≤ rank
unfolding improve
improve-lowest none at best result rank h = cc
improve-lowest (some (r, k)) at best result rank h = ground arith

improve-below :
    (merged : Option (ℕ × ℕ)) (at : ℕ) (best : Best) → (improve merged at best).rank ≤ best.rank
unfolding improve
improve-below none at best = omega arith
improve-below (some (r, k)) at best = ground arith

improve-at :
    (merged : Option (ℕ × ℕ)) (at : ℕ) (best : Best)
    → best.at ≤ at
    → (improve merged at best).at ≤ at
unfolding improve
improve-at none at best l = l
improve-at (some (r, k)) at best l = ground arith

after-improved :
    {index : Index} {segment : List ℕ} {at : ℕ} {before after : Best}
    → Scanned index segment at before after
    → after.rank ≤ before.rank
after-improved s = elim s.found [ inl e ↦ rw e (omega arith) | inr (h, _) ↦ omega arith ]

module _ (index : Index) (left right : ℕ) (rest : List ℕ) (at : ℕ) (best next after : Best)
    (l : best.at ≤ at) (e : improve (lookup index left right).0 at best ≡ next)
    (s : Scanned index (right ∷ rest) (at + 1) next after) where
  cons-lowest :
      (i result rank : ℕ)
      → candidate index (left ∷ right ∷ rest) i ≡ some (result, rank)
      → after.rank ≤ rank
  unfolding candidate
  cons-lowest zero result rank c =
      let a : after.rank ≤ next.rank = after-improved s in
      let b : next.rank ≤ rank =
        subst (λ (x : Best). x.rank ≤ rank) e (improve-lowest _ at best result rank c) in
      omega arith
  cons-lowest (suc i) result rank c = s.lowest i result rank c

  cons-leftmost :
      (i result rank : ℕ)
      → candidate index (left ∷ right ∷ rest) i ≡ some (result, rank)
      → at + i < after.at
      → after.rank < rank
  unfolding candidate
  cons-leftmost zero result rank c f =
      let b : next.rank ≤ rank =
        subst (λ (x : Best). x.rank ≤ rank) e (improve-lowest _ at best result rank c) in
      let a : next.at ≤ at = subst (λ (x : Best). x.at ≤ at) e (improve-at _ at best l) in
      elim s.found [
        | inl g ↦ let d : after.at ≡ next.at = ap (λ (x : Best). x.at) g in absurd (omega arith)
        | inr (h, _) ↦ omega arith
      ]
  cons-leftmost (suc i) result rank c f = s.leftmost i result rank c (omega arith)

  next-found :
      (next ≡ best)
      ⊎ ((next.rank < best.rank)
          × ((next.at ≡ at) × ((lookup index left right).0 ≡ some (next.result, next.rank))))
  next-found =
      subst
        (λ (x : Best).
          (x ≡ best)
          ⊎ ((x.rank < best.rank)
              × ((x.at ≡ at) × ((lookup index left right).0 ≡ some (x.result, x.rank)))))
        e (improve-found (lookup index left right).0 at best)

  cons-found :
      (after ≡ best)
      ⊎ ((after.rank < best.rank)
          × ((i : ℕ) × (after.at ≡ at + i)
              × (candidate index (left ∷ right ∷ rest) i ≡ some (after.result, after.rank))))
  unfolding candidate
  cons-found = elim s.found [
    | inl g ↦ elim next-found [
      | inl n ↦ inl (g ∙ n)
      | inr (h, (a, c)) ↦ inr (
          subst
            (λ (x : Best).
              (x.rank < best.rank)
              × ((i : ℕ) × (x.at ≡ at + i)
                  × (candidate index (left ∷ right ∷ rest) i ≡ some (x.result, x.rank))))
            (sym g) (h, (0, omega arith, c)))
    ]
    | inr (h, (i, a, c)) ↦
        let b : next.rank ≤ best.rank =
          subst (λ (x : Best). x.rank ≤ best.rank) e (improve-below _ at best) in
        inr (omega arith, (suc i, omega arith, c))
  ]

  scan-cons : Scanned index (left ∷ right ∷ rest) at best after
  scan-cons = record { lowest = cons-lowest; leftmost = cons-leftmost; found = cons-found }

-- The scan keeps the lowest rank, and of those the leftmost place.
pub scan-Scanned :
    (index : Index) (segment : List ℕ) (at : ℕ) (best : Best)
    → best.at ≤ at
    → Scanned index segment at best (scan index at best segment)
unfolding scan candidate
scan-Scanned index [] at best l = record {
  lowest = λ i result rank c. cc;
  leftmost = λ i result rank c f. cc;
  found = inl refl;
}
scan-Scanned index (left ∷ []) at best l = record {
  lowest = λ i result rank c. cc;
  leftmost = λ i result rank c f. cc;
  found = inl refl;
}
scan-Scanned index (left ∷ right ∷ rest) at best l =
    let next : Best = improve (lookup index left right).0 at best in
    let a : next.at ≤ at = improve-at _ at best l in
    scan-cons index left right rest at best next (scan index (at + 1) next (right ∷ rest)) l refl
      (scan-Scanned index (right ∷ rest) (at + 1) next (omega arith))

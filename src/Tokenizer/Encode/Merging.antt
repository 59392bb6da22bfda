-- ===== src/Tokenizer/Encode/Merging.antt =====
-- The merges of a segment in `bpe` of crates/promptboot-core/src/tokenizer.rs, one round after the other.
use promptboot.Prelude.{
  false, ℕ, zero, suc, ◌+◌, ◌≤◌, ◌<◌, ◌≡◌, refl, ap, subst, ◌∙◌, List, [], ◌∷◌, ◌++◌, some, inl,
  inr, ◌==◌, if-cases, ==→eq, length, u32_max, arith,
}
use promptboot.Tokenizer.Table.{Index, lookup}
use promptboot.Tokenizer.Encode.{Best, no_best, scan, merge_at, merge_all}
use promptboot.Tokenizer.Encode.Spelling.{candidate, spelled, spelled-merge_at, length-merge_at}
use promptboot.Tokenizer.Encode.Scan.{Scanned, scan-Scanned}

-- The best merge of a whole segment.
abbrev best_of : Index → List ℕ → Best
best_of index segment = scan index 0 no_best segment

best_of-Scanned :
    (index : Index) (segment : List ℕ) → Scanned index segment 0 no_best (best_of index segment)
best_of-Scanned index segment = scan-Scanned index segment 0 no_best (omega arith)

-- A round that merges has a merge to do.
best_of-candidate :
    (index : Index) (segment : List ℕ)
    → ((best_of index segment).rank == u32_max) ≡ false
    → candidate index segment (best_of index segment).at
      ≡ some ((best_of index segment).result, (best_of index segment).rank)
best_of-candidate index segment h = elim (best_of-Scanned index segment).found [
  | inl e ↦
      let r : (best_of index segment).rank ≡ u32_max = ap (λ (b : Best). b.rank) e in
      absurd (ground arith)
  | inr (l, (i, a, c)) ↦
      let e : i ≡ (best_of index segment).at = omega arith in
      subst
        (λ (n : ℕ).
          candidate index segment n
          ≡ some ((best_of index segment).result, (best_of index segment).rank))
        e c
]

-- No two neighbours have a merge.
abbrev pub Merged : Index → List ℕ → Type 0
Merged index segment =
    (at result rank : ℕ) → candidate index segment at ≡ some (result, rank) → u32_max ≤ rank

-- A merge of lowest rank, and of those the leftmost.
pub record BestMerge (index : Index) (segment : List ℕ) (at result rank : ℕ) : Type 0 where
  pub here : candidate index segment at ≡ some (result, rank)
  pub ranked : rank < u32_max
  pub lowest : (i other k : ℕ) → candidate index segment i ≡ some (other, k) → rank ≤ k
  pub leftmost : (i other k : ℕ) → candidate index segment i ≡ some (other, k) → i < at → rank < k

-- Byte pair encoding: the best merge is done, as long as there is one.
pub data Encodes (index : Index) : List ℕ → List ℕ → Type 0 where
  encoded : {segment : List ℕ} → Merged index segment → Encodes index segment segment
  merged :
      {segment after : List ℕ} {at result rank : ℕ}
      → BestMerge index segment at result rank
      → Encodes index (merge_at segment at result) after
      → Encodes index segment after

best_of-BestMerge :
    (index : Index) (segment : List ℕ)
    → ((best_of index segment).rank == u32_max) ≡ false
    → BestMerge index segment
        (best_of index segment).at
        (best_of index segment).result
        (best_of index segment).rank
best_of-BestMerge index segment h =
    let s : Scanned index segment 0 no_best (best_of index segment) =
      best_of-Scanned index segment in
    record {
      here = best_of-candidate index segment h;
      ranked = elim s.found [
        | inl e ↦
            let r : (best_of index segment).rank ≡ u32_max = ap (λ (b : Best). b.rank) e in
            absurd (ground arith)
        | inr (l, _) ↦ l
      ];
      lowest = s.lowest;
      leftmost = λ i other k c l. s.leftmost i other k c (omega arith);
    }

-- With as many rounds as the segment has tokens, or more, the loop does the merge of lowest rank, and of
-- those the leftmost, until no two neighbours have a merge.
pub merge_all-Encodes :
    (index : Index) (fuel : ℕ) (segment : List ℕ)
    → length segment ≤ fuel
    → Encodes index segment (merge_all index fuel segment)
unfolding merge_all candidate
merge_all-Encodes index zero [] l = encoded λ at result rank c. cc
merge_all-Encodes index zero (token ∷ segment) l = absurd (omega arith)
merge_all-Encodes index (suc fuel) segment l =
    if-cases (Encodes index segment) ((best_of index segment).rank == u32_max) _ _
      (λ t. encoded λ at result rank c.
        let r : (best_of index segment).rank ≡ u32_max = ==→eq _ _ t in
        let s : (best_of index segment).rank ≤ rank =
          (best_of-Scanned index segment).lowest at result rank c in
        omega arith)
      (λ f.
        let n : length (merge_at segment (best_of index segment).at (best_of index segment).result)
              + 1
            ≡ length segment =
          length-merge_at index segment _ _ _ (best_of-candidate index segment f) in
        merged (best_of-BestMerge index segment f) (merge_all-Encodes index fuel _ (omega arith)))

pub length-merge_all :
    (index : Index) (fuel : ℕ) (segment : List ℕ)
    → length (merge_all index fuel segment) ≤ length segment
unfolding merge_all
length-merge_all index zero segment = omega arith
length-merge_all index (suc fuel) segment =
    if-cases (λ (xs : List ℕ). length xs ≤ length segment) ((best_of index segment).rank == u32_max)
      _ _ (λ t. omega arith)
      (λ f.
        let best : Best = best_of index segment in
        let n : length (merge_at segment best.at best.result) + 1 ≡ length segment =
          length-merge_at index segment _ _ _ (best_of-candidate index segment f) in
        omega (arith, length-merge_all index fuel (merge_at segment best.at best.result)))

module _ (spelling : ℕ → List ℕ) (index : Index)
    (joins : (left right result rank : ℕ)
      → (lookup index left right).0 ≡ some (result, rank)
      → spelling result ≡ spelling left ++ spelling right) where
  pub merge_all-spelled :
      (fuel : ℕ) (segment : List ℕ)
      → spelled spelling (merge_all index fuel segment) ≡ spelled spelling segment
  unfolding merge_all
  merge_all-spelled zero segment = refl
  merge_all-spelled (suc fuel) segment =
      if-cases (λ (xs : List ℕ). spelled spelling xs ≡ spelled spelling segment)
        ((best_of index segment).rank == u32_max) _ _ (λ t. refl)
        (λ f.
          merge_all-spelled fuel _
          ∙ spelled-merge_at spelling index joins segment _ _ _ (best_of-candidate index segment f))

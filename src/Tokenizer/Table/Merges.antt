-- ===== src/Tokenizer/Table/Merges.antt =====
-- The hash table of crates/promptboot-core/src/tokenizer.rs as the finite map of its merges.
use promptboot.Prelude.{
  inl, inr, Ends-weaken, ◌⊎◌, Ends, ◌≢◌, err, subst, ℕ, ◌+◌, ◌*◌, ◌≤◌, ◌<◌, ◌≡◌, sym, ap, ◌∙◌, some,
  u32_max, ok, loop, arith,
}
use native.Mathlib.Decide.{dec_lt}
use promptboot.Model.Image.{merge_count}
use promptboot.Model.View.{ModelView, Merge, merge}
use promptboot.Tokenizer.Table.{ModelError, Index, table_entries, lookup, insert_merge}
use promptboot.Tokenizer.Table.Entries.{Found, lookup-Placed, lookup-Found}
use promptboot.Tokenizer.Table.Filling.{Filled, empty-Filled, fill-Filled}

-- The searches give the merges before `count`, and nothing else, in a bounded number of probes.
pub record MapsMerges (v : ModelView) (count : ℕ) (index : Index) (most : ℕ) : Type 0 where
  pub finds :
      (rank : ℕ) (m : Merge)
      → rank < count
      → merge v rank ≡ ok m
      → (probes : ℕ) × (probes ≤ most + 1)
        × (lookup index m.left m.right ≡ (some (m.result, m.rank), probes))
  pub only :
      (left right result rank : ℕ)
      → (lookup index left right).0 ≡ some (result, rank)
      → (m : Merge) × (rank < count)
        × (merge v rank ≡ ok m)
        × (m.left ≡ left)
        × (m.right ≡ right)
        × (m.result ≡ result)

merge-rank : (v : ModelView) (rank : ℕ) (m : Merge) → merge v rank ≡ ok m → m.rank ≡ rank
unfolding merge
merge-rank v rank m h = ground arith

module _ (v : ModelView) (start : Index)
    (ordinary : (rank : ℕ) (m : Merge) → merge v rank ≡ ok m → m.left < u32_max) where
  pub Filled-MapsMerges :
      (count : ℕ) (index : Index) (most : ℕ)
      → most < 51
      → Filled v start count index most
      → MapsMerges v count index most
  Filled-MapsMerges count index most l f = record {
    finds = λ rank m b e.
        let (d, c, p) = f.placed rank m b e in
        let h : m.left < u32_max = ordinary rank m e in
        (d + 1, omega arith, lookup-Placed index m d (λ x. absurd (omega arith)) p (omega arith));
    only = λ left right result rank e.
        let h : Found index left right result rank = lookup-Found index left right e in
        let (r, b, m, g, k) = f.known h.slot h.within h.used in
        let same : rank ≡ r = sym h.at_rank ∙ k.rank ∙ merge-rank v r m g in
        (
          m,
          omega arith,
          ap (merge v) same ∙ g,
          sym k.left ∙ h.at_left,
          sym k.right ∙ h.at_right,
          sym k.result ∙ h.at_result,
        );
  }

  no_absent : (rank : ℕ) (e : ModelError) → rank < merge_count → merge v rank ≡ err e → ⊥
  unfolding merge
  no_absent rank e l h = ground arith

  -- If the first side of every merge is a token, the table is empty at the start, and no two of the
  -- merges before `count` have one pair, then the loop over them never fails; and unless a merge is 51
  -- entries or more from its place, a search then gives the result and the rank of each of them in a
  -- bounded number of probes, and nothing else.
  pub fill-MapsMerges :
      ((k : ℕ) → k < 4 * table_entries → start k ≡ u32_max)
      → (count : ℕ) → count ≤ merge_count
      → ((i j : ℕ) (a b : Merge)
          → i < j
          → j < count
          → merge v i ≡ ok a
          → merge v j ≡ ok b
          → a.left ≡ b.left
          → a.right ≢ b.right)
      → Ends
          (λ (_ : ModelError). ⊥)
          (λ (s : Index × ℕ). (51 ≤ s.1) ⊎ MapsMerges v count s.0 s.1)
          (loop (insert_merge v) 0 count (start, 0))
  fill-MapsMerges empty count few distinct =
      let z : 0 + count ≡ count = omega arith in
      Ends-weaken
        (fill-Filled v start ordinary ⊥ count (λ rank e l h. no_absent rank e (omega arith) h)
          distinct (λ l. absurd (omega arith)) count 0 (start, 0) (omega arith)
          (empty-Filled v start empty))
        λ (index, most) f. elim (dec_lt most 51) [
          | yes l ↦ inr (
              Filled-MapsMerges count index most l
                (subst (λ (n : ℕ). Filled v start n index most) z f))
          | no l ↦ inl (omega arith)
        ]

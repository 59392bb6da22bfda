-- ===== src/Tokenizer/Table/Filling.antt =====
-- The loop of crates/promptboot-core/src/tokenizer.rs that enters the merges into the hash table.
use promptboot.Prelude.{
  Ends-weaken, ℕ, zero, suc, ◌+◌, ◌*◌, ◌%◌, ◌≤◌, ◌<◌, ◌≡◌, ◌≢◌, refl, sym, ap, subst, ◌∙◌, ltb,
  if◌then◌else◌, u32_max, Result, ok, err, loop, Ends, ends_ok, ends_err, bind-Ends, ◌⊎◌, inl, inr,
  arith,
}
use native.Mathlib.Decide.{ℕ_discrete, dec_lt}
use promptboot.Model.Errors.{ModelError}
use promptboot.Model.View.{ModelView, Merge, merge}
use promptboot.Tokenizer.Table.{Index, put_entry, table_entries, hash_slot, insert_merge}
use promptboot.Tokenizer.Table.Entries.{Holds, Way, FirstFree, Placed, place-FirstFree}
use promptboot.Tokenizer.Table.Load.{used, used-empty, used-put_entry, used-Way}
use promptboot.Tokenizer.Table.Writing.{
  put_entry-Holds, put_entry-other, apart, kept-Holds, kept-Placed, new-Placed,
}

-- The table after the merges before `count`: each of them can be reached within `max_displacement`
-- entries, and no entry holds anything else. What is behind the table is as it was at the start,
-- and as many entries are in use as there are merges.
pub record Filled (v : ModelView) (start : Index) (count : ℕ) (index : Index) (max_displacement : ℕ)
    : Type 0 where
  pub placed :
      (rank : ℕ) (m : Merge)
      → rank < count
      → merge v rank ≡ ok m
      → (d : ℕ) × (d ≤ max_displacement) × Placed index m d
  pub known :
      (slot : ℕ)
      → slot < table_entries
      → index (4 * slot) ≢ u32_max
      → (rank : ℕ) × (rank < count) × (m : Merge) × (merge v rank ≡ ok m) × Holds index (4 * slot) m
  pub behind : (k : ℕ) → 4 * table_entries ≤ k → index k ≡ start k
  pub load : used index table_entries ≡ count

mod_lt : (n : ℕ) → n % table_entries < table_entries
mod_lt n = omega arith

enter-load :
    {load count slot : ℕ}
    → load ≡ count
    → slot < table_entries
    → load + (if ltb slot table_entries then 1 else 0) ≡ count + 1
enter-load e l = ground arith

pub ok_injective : {A : Type 0} {a b : A} → ◌≡◌ {A = Result ModelError A} (ok a) (ok b) → a ≡ b
ok_injective h = cc

pub got : {A : Type 0} (r : Result ModelError A) → Ends (λ _. Unit {0}) (λ a. r ≡ ok a) r
got (ok a) = ends_ok refl
got (err e) = ends_err tt

Result-cases :
    {A : Type 0} (r : Result ModelError A)
    → ((a : A) × (r ≡ ok a)) ⊎ ((e : ModelError) × (r ≡ err e))
Result-cases (ok a) = inl (a, refl)
Result-cases (err e) = inr (e, refl)

-- A table without entries.
pub empty-Filled :
    (v : ModelView) (index : Index)
    → ((k : ℕ) → k < 4 * table_entries → index k ≡ u32_max)
    → Filled v index 0 index 0
empty-Filled v index h = record {
  placed = λ rank m l e. absurd (omega arith);
  known = λ slot l used. absurd (used (h (4 * slot) (omega arith)));
  behind = λ k l. refl;
  load = used-empty index table_entries (λ slot l. h (4 * slot) (omega arith));
}

module _ (v : ModelView) (start : Index)
    (ordinary : (rank : ℕ) (m : Merge) → merge v rank ≡ ok m → m.left < u32_max) where
  left-used : (rank : ℕ) (m : Merge) → merge v rank ≡ ok m → m.left ≢ u32_max
  left-used rank m g e = let l : m.left < u32_max = ordinary rank m g in absurd (omega arith)

  -- A merge is entered.
  module _ (count : ℕ) (index : Index) (most displacement : ℕ) (new : Merge)
      (e : merge v count ≡ ok new) (f : Filled v start count index most) (slot : ℕ)
      (s : slot ≡ (hash_slot new.left new.right + displacement) % table_entries)
      (free : index (4 * slot) ≡ u32_max) (way : Way index new.left new.right displacement) where
    enter-Placed :
        (rank : ℕ) (m : Merge)
        → rank < count + 1
        → merge v rank ≡ ok m
        → (d : ℕ) × (d ≤ (if ltb most displacement then displacement else most))
          × Placed (put_entry index (4 * slot) new) m d
    enter-Placed rank m l g = elim (dec_lt rank count) [
      | yes b ↦
          let (d, c, p) = f.placed rank m b g in
          (d, ground arith, kept-Placed index new slot free m d (left-used rank m g) p)
      | no b ↦
          let r : rank ≡ count = omega arith in
          let same : new ≡ m = ok_injective (sym e ∙ ap (merge v) (sym r) ∙ g) in
          subst
            (λ (n : Merge).
              (d : ℕ) × (d ≤ (if ltb most displacement then displacement else most))
              × Placed (put_entry index (4 * slot) new) n d)
            same
            (
              displacement,
              ground arith,
              new-Placed index new slot free displacement (ap (λ (n : ℕ). 4 * n) (sym s)) way,
            )
    ]

    enter-Known :
        (other : ℕ)
        → other < table_entries
        → put_entry index (4 * slot) new (4 * other) ≢ u32_max
        → (rank : ℕ) × (rank < count + 1)
          × (m : Merge) × (merge v rank ≡ ok m)
          × Holds (put_entry index (4 * slot) new) (4 * other) m
    enter-Known other l used = elim (ℕ_discrete other slot) [
      | yes b ↦ (
        count,
        omega arith,
        new,
        e,
        subst (λ (x : ℕ). Holds (put_entry index (4 * slot) new) (4 * x) new) (sym b)
            (put_entry-Holds index (4 * slot) new),
      )
      | no b ↦
          let same : put_entry index (4 * slot) new (4 * other + 0) ≡ index (4 * other + 0) =
            put_entry-other index (4 * slot) new (4 * other + 0)
              (apart other slot 0 b (omega arith)) in
          let z : 4 * other + 0 ≡ 4 * other = omega arith in
          let before : index (4 * other) ≢ u32_max =
            λ x. used (subst (λ (k : ℕ). put_entry index (4 * slot) new k ≡ index k) z same ∙ x) in
          let (rank, r, m, g, h) = f.known other l before in
          (rank, omega arith, m, g, kept-Holds index new slot free other m before h)
    ]

  enter-Filled :
      (count : ℕ) (index after : Index) (most displacement : ℕ) (new : Merge)
      → merge v count ≡ ok new
      → Filled v start count index most
      → FirstFree index new after displacement
      → Filled v start (count + 1) after (if ltb most displacement then displacement else most)
  enter-Filled count index after most displacement new e f h =
      let slot : ℕ = (hash_slot new.left new.right + displacement) % table_entries in
      subst
        (λ (a : Index).
          Filled v start (count + 1) a (if ltb most displacement then displacement else most))
        (sym h.written)
        (record {
          placed = enter-Placed count index most displacement new e f slot refl h.free h.way;
          known = enter-Known count index most displacement new e f slot refl h.free h.way;
          behind = λ k l.
              put_entry-other index (4 * slot) new k
                (inr (omega (arith, mod_lt (hash_slot new.left new.right + displacement))))
              ∙ f.behind k l;
          load =
              used-put_entry index slot new table_entries h.free (left-used count new e)
              ∙ enter-load f.load (mod_lt (hash_slot new.left new.right + displacement));
        })

  -- What the table and the largest displacement are after some turns.
  abbrev pub State : ℕ → Index × ℕ → Type 0
  State count (index, most) = Filled v start count index most

  -- `P` is what the errors mean: a merge is missing, two merges have one pair, or there are more
  -- merges than entries.
  module _ (P : Type 0) (limit : ℕ)
      (absent : (rank : ℕ) (e : ModelError) → rank < limit → merge v rank ≡ err e → P)
      (twice : (i j : ℕ) (a b : Merge)
        → i < j
        → j < limit
        → merge v i ≡ ok a
        → merge v j ≡ ok b
        → a.left ≡ b.left
        → a.right ≡ b.right
        → P)
      (crowded : table_entries < limit → P) where
    found :
        (rank : ℕ)
        → rank < limit
        → Ends (λ (_ : ModelError). P) (λ m. merge v rank ≡ ok m) (merge v rank)
    found rank l = elim (Result-cases (merge v rank)) [
      | inl (m, e) ↦
          subst (Ends (λ (_ : ModelError). P) (λ n. merge v rank ≡ ok n)) (sym e) (ends_ok e)
      | inr (e, h) ↦
          subst (Ends (λ (_ : ModelError). P) (λ n. merge v rank ≡ ok n)) (sym h)
            (ends_err (absent rank e l h))
    ]

    insert_merge-Filled :
        (count : ℕ) (s : Index × ℕ)
        → count < limit
        → State count s
        → Ends (λ (_ : ModelError). P) (State (count + 1)) (insert_merge v s count)
    unfolding insert_merge
    insert_merge-Filled count (index, most) l f = bind-Ends (found count l) λ m e.
        bind-Ends
          (place-FirstFree P index m
            (λ slot b u x y.
              let (i, c, n, g, h) = f.known slot b u in
              twice i count n m c l g e (sym h.left ∙ x) (sym h.right ∙ y))
            (λ w.
              let a : used index table_entries ≡ table_entries = used-Way index m.left m.right w in
              let c : used index table_entries ≡ count = f.load in crowded (omega arith))
            table_entries 0 (omega arith) (λ d k. absurd (omega arith)))
          λ (after, displacement) h.
            ends_ok (enter-Filled count index after most displacement m e f h)

    pub fill-Filled :
        (todo count : ℕ) (s : Index × ℕ)
        → count + todo ≤ limit
        → State count s
        → Ends (λ (_ : ModelError). P) (State (count + todo)) (loop (insert_merge v) count todo s)
    unfolding loop
    fill-Filled zero count s l f =
        let e : count ≡ count + 0 = omega arith in ends_ok (subst (λ (n : ℕ). State n s) e f)
    fill-Filled (suc todo) count s l f =
        let e : count + 1 + todo ≡ count + suc todo = omega arith in
        bind-Ends (insert_merge-Filled count s (omega arith) f) λ next g.
          Ends-weaken (fill-Filled todo (count + 1) next (omega arith) g)
            λ last h. subst (λ (n : ℕ). State n last) e h

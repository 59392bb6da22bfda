-- ===== src/Tokenizer/Table/Entries.antt =====
-- The entries of the hash table of crates/promptboot-core/src/tokenizer.rs, and the search for one.
use promptboot.Prelude.{
  eq→==, ne→==, ℕ, zero, suc, ◌+◌, ◌*◌, ◌%◌, ◌≤◌, ◌<◌, ◌≡◌, ◌≢◌, refl, sym, subst, true, false,
  ◌&&◌, Option, some, ◌==◌, ==→eq, if-cases, u32_max, Ends, ends_ok, ends_err, arith,
}
use native.Mathlib.Decide.{dec_lt}
use promptboot.Model.Errors.{ModelError}
use promptboot.Model.View.{Merge}
use promptboot.Tokenizer.Table.{
  Index, put_entry, table_entries, entry_word, hash_slot, probe, lookup, place,
}

-- An entry that holds a merge.
pub record Holds (index : Index) (at : ℕ) (m : Merge) : Type 0 where
  pub left : index at ≡ m.left
  pub right : index (at + 1) ≡ m.right
  pub result : index (at + 2) ≡ m.result
  pub rank : index (at + 3) ≡ m.rank

-- An entry that is in use, for another pair than this.
pub record Passed (index : Index) (at left right : ℕ) : Type 0 where
  pub used : index at ≢ u32_max
  pub other : (index at == left && index (at + 1) == right) ≡ false

-- The entries on the way to the one at `displacement` are passed.
abbrev pub Way : Index → ℕ → ℕ → ℕ → Type 0
Way index left right displacement =
    (d : ℕ) → d < displacement → Passed index (entry_word (hash_slot left right) d) left right

pub Way-suc :
    (index : Index) (left right displacement : ℕ)
    → Way index left right displacement
    → Passed index (entry_word (hash_slot left right) displacement) left right
    → Way index left right (displacement + 1)
Way-suc index left right displacement w p d l = elim (dec_lt d displacement) [
  | yes h ↦ w d h
  | no h ↦
      let e : displacement ≡ d = omega arith in
      subst (λ (n : ℕ). Passed index (entry_word (hash_slot left right) n) left right) e p
]

-- Where `place` puts a merge: in the first free entry behind entries of other pairs.
pub record FirstFree (index : Index) (m : Merge) (after : Index) (displacement : ℕ) : Type 0 where
  pub way : Way index m.left m.right displacement
  pub free : index (entry_word (hash_slot m.left m.right) displacement) ≡ u32_max
  pub written : after ≡ put_entry index (entry_word (hash_slot m.left m.right) displacement) m

-- `P` is what the errors mean: the pair stands in an entry, or all entries are passed.
module _ (P : Type 0) (index : Index) (m : Merge)
    (twice : (slot : ℕ)
      → slot < table_entries
      → index (4 * slot) ≢ u32_max
      → index (4 * slot) ≡ m.left
      → index (4 * slot + 1) ≡ m.right
      → P)
    (crowded : Way index m.left m.right table_entries → P) where
  pub place-FirstFree :
      (rounds displacement : ℕ)
      → displacement + rounds ≡ table_entries
      → Way index m.left m.right displacement
      → Ends
          (λ (_ : ModelError). P)
          (λ (p : Index × ℕ). FirstFree index m p.0 p.1)
          (place index m displacement rounds)
  unfolding place
  place-FirstFree zero displacement s w =
      let e : displacement ≡ table_entries = omega arith in
      ends_err (crowded (subst (λ (n : ℕ). Way index m.left m.right n) e w))
  place-FirstFree (suc rounds) displacement s w =
      let at : ℕ = entry_word (hash_slot m.left m.right) displacement in
      if-cases (Ends (λ (_ : ModelError). P) (λ (p : Index × ℕ). FirstFree index m p.0 p.1))
        (index at == u32_max) _ _
        (λ t. ends_ok (record { way = w; free = ==→eq _ _ t; written = refl }))
        λ f.
          if-cases (Ends (λ (_ : ModelError). P) (λ (p : Index × ℕ). FirstFree index m p.0 p.1))
            (index at == m.left && index (at + 1) == m.right) _ _
            (λ t. ends_err (
              twice ((hash_slot m.left m.right + displacement) % table_entries) (omega arith)
                (λ e. ground arith) (ground arith) (ground arith)))
            λ g. place-FirstFree rounds (displacement + 1) (omega arith) (
              Way-suc index m.left m.right displacement w
                (record { used = λ e. ground arith; other = g }))

-- A merge that a search can reach.
pub record Placed (index : Index) (m : Merge) (displacement : ℕ) : Type 0 where
  pub way : Way index m.left m.right displacement
  pub holds : Holds index (entry_word (hash_slot m.left m.right) displacement) m

probe-here :
    (index : Index) (m : Merge) (displacement rounds : ℕ)
    → m.left ≢ u32_max
    → Holds index (entry_word (hash_slot m.left m.right) displacement) m
    → probe index m.left m.right (hash_slot m.left m.right) displacement (suc rounds)
      ≡ (some (m.result, m.rank), displacement + 1)
unfolding probe
probe-here index m displacement rounds n h =
    let f : (m.left == u32_max) ≡ false = ne→== _ _ n in
    let l : (m.left == m.left) ≡ true = eq→== _ _ refl in
    let r : (m.right == m.right) ≡ true = eq→== _ _ refl in
    rw (h.left, h.right, h.result, h.rank, f, l, r) refl

probe-Placed :
    (index : Index) (m : Merge) (target : ℕ)
    → m.left ≢ u32_max
    → Placed index m target
    → (displacement rounds : ℕ) → displacement ≤ target
    → target < displacement + rounds
    → probe index m.left m.right (hash_slot m.left m.right) displacement rounds
      ≡ (some (m.result, m.rank), target + 1)
unfolding probe
probe-Placed index m target n p displacement zero a b = absurd (omega arith)
probe-Placed index m target n p displacement (suc rounds) a b = elim (dec_lt displacement target) [
  | yes l ↦
      let s : Passed index (entry_word (hash_slot m.left m.right) displacement) m.left m.right =
        p.way displacement l in
      let f : (index (entry_word (hash_slot m.left m.right) displacement) == u32_max) ≡ false =
        ne→== _ _ s.used in
      rw (f, s.other)
        (probe-Placed index m target n p (displacement + 1) rounds (omega arith) (omega arith))
  | no l ↦
      let e : displacement ≡ target = omega arith in
      subst
        (λ (n : ℕ).
          probe index m.left m.right (hash_slot m.left m.right) displacement (suc rounds)
          ≡ (some (m.result, m.rank), n + 1))
        e
        (probe-here index m displacement rounds n (
          subst (λ (n : ℕ). Holds index (entry_word (hash_slot m.left m.right) n) m) (sym e)
            p.holds))
]

-- A merge placed less than 51 entries away is found there.
pub lookup-Placed :
    (index : Index) (m : Merge) (displacement : ℕ)
    → m.left ≢ u32_max
    → Placed index m displacement
    → displacement < 51
    → lookup index m.left m.right ≡ (some (m.result, m.rank), displacement + 1)
unfolding lookup
lookup-Placed index m displacement n p l =
    probe-Placed index m displacement n p 0 51 (omega arith) (omega arith)

-- What a search finds stands in an entry in use.
pub record Found (index : Index) (left right result rank : ℕ) : Type 0 where
  pub slot : ℕ
  pub within : slot < table_entries
  pub used : index (4 * slot) ≢ u32_max
  pub at_left : index (4 * slot) ≡ left
  pub at_right : index (4 * slot + 1) ≡ right
  pub at_result : index (4 * slot + 2) ≡ result
  pub at_rank : index (4 * slot + 3) ≡ rank

probe-Found :
    (index : Index) (left right initial displacement rounds : ℕ) {result rank : ℕ}
    → (probe index left right initial displacement rounds).0 ≡ some (result, rank)
    → Found index left right result rank
unfolding probe
probe-Found index left right initial displacement zero = λ h. cc
probe-Found index left right initial displacement (suc rounds) {result} {rank} =
    let at : ℕ = entry_word initial displacement in
    if-cases
      (λ (r : Option (ℕ × ℕ) × ℕ). r.0 ≡ some (result, rank) → Found index left right result rank)
      (index at == u32_max) _ _ (λ t h. cc)
      λ f.
        if-cases
          (λ (r : Option (ℕ × ℕ) × ℕ).
            r.0 ≡ some (result, rank) → Found index left right result rank)
          (index at == left && index (at + 1) == right) _ _
          (λ t h. record {
            slot = (initial + displacement) % table_entries;
            within = omega arith;
            used = λ e. ground arith;
            at_left = ground arith;
            at_right = ground arith;
            at_result = ground arith;
            at_rank = ground arith;
          })
          λ g. probe-Found index left right initial (displacement + 1) rounds

pub lookup-Found :
    (index : Index) (left right : ℕ) {result rank : ℕ}
    → (lookup index left right).0 ≡ some (result, rank)
    → Found index left right result rank
unfolding lookup
lookup-Found index left right = probe-Found index left right (hash_slot left right) 0 51

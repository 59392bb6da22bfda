-- ===== src/Tokenizer/Table/Load.antt =====
-- How many entries of the hash table of crates/promptboot-core/src/tokenizer.rs are in use.
use promptboot.Prelude.{
  ℕ, zero, suc, ◌+◌, ◌-◌, ◌*◌, ◌%◌, ◌<◌, ◌≡◌, ◌≢◌, refl, sym, ap, subst, ◌∙◌, true, false, ◌==◌,
  ltb, if◌then◌else◌, eq→==, ne→==, u32_max, arith,
}
use native.Mathlib.Decide.{ℕ_discrete, dec_lt}
use promptboot.Model.View.{Merge}
use promptboot.Tokenizer.Table.{Index, put_entry, table_entries, hash_slot}
use promptboot.Tokenizer.Table.Entries.{Way}
use promptboot.Tokenizer.Table.Writing.{put_entry-other, apart}

-- The entries in use before a slot.
unfoldable pub used : Index → ℕ → ℕ
used index zero = 0
used index (suc slot) = used index slot + (if index (4 * slot) == u32_max then 0 else 1)

pub used-empty :
    (index : Index) (n : ℕ)
    → ((slot : ℕ) → slot < n → index (4 * slot) ≡ u32_max)
    → used index n ≡ 0
unfolding used
used-empty index zero h = refl
used-empty index (suc n) h =
    let e : (index (4 * n) == u32_max) ≡ true = eq→== _ _ (h n (omega arith)) in
    rw e (omega (arith, used-empty index n (λ slot l. h slot (omega arith))))

used-full :
    (index : Index) (n : ℕ)
    → ((slot : ℕ) → slot < n → index (4 * slot) ≢ u32_max)
    → used index n ≡ n
unfolding used
used-full index zero h = refl
used-full index (suc n) h =
    let e : (index (4 * n) == u32_max) ≡ false = ne→== _ _ (h n (omega arith)) in
    rw e (omega (arith, used-full index n (λ slot l. h slot (omega arith))))

-- The first word of an entry after a write to another one, and to it.
first_word :
    (index : Index) (slot n : ℕ) (m : Merge)
    → n ≢ slot
    → put_entry index (4 * slot) m (4 * n) ≡ index (4 * n)
first_word index slot n m h =
    let z : 4 * n + 0 ≡ 4 * n = omega arith in
    subst (λ (k : ℕ). put_entry index (4 * slot) m k ≡ index k) z
      (put_entry-other index (4 * slot) m (4 * n + 0) (apart n slot 0 h (omega arith)))

own_word : (index : Index) (slot : ℕ) (m : Merge) → put_entry index (4 * slot) m (4 * slot) ≡ m.left
own_word index slot m = ground arith

-- A write to a free entry takes one more into use.
pub used-put_entry :
    (index : Index) (slot : ℕ) (m : Merge) (n : ℕ)
    → index (4 * slot) ≡ u32_max
    → m.left ≢ u32_max
    → used (put_entry index (4 * slot) m) n ≡ used index n + (if ltb slot n then 1 else 0)
unfolding used
used-put_entry index slot m zero free l = ground arith
used-put_entry index slot m (suc n) free l =
    let i : used (put_entry index (4 * slot) m) n ≡ used index n + (if ltb slot n then 1 else 0) =
      used-put_entry index slot m n free l in
    elim (ℕ_discrete n slot) [
      | yes e ↦
          let a : put_entry index (4 * slot) m (4 * n) ≡ m.left =
            ap (λ (k : ℕ). put_entry index (4 * slot) m (4 * k)) e ∙ own_word index slot m in
          let b : index (4 * n) ≡ u32_max = ap (λ (k : ℕ). index (4 * k)) e ∙ free in
          let c : (put_entry index (4 * slot) m (4 * n) == u32_max) ≡ false =
            ne→== _ _ (λ x. l (sym a ∙ x)) in
          let d : (index (4 * n) == u32_max) ≡ true = eq→== _ _ b in
          let f : ltb slot n ≡ false = ground arith in
          let g : ltb slot (suc n) ≡ true = ground arith in
          let z : ◌≡◌ {A = ℕ} (if ltb slot n then 1 else 0) 0 = rw f refl in
          rw (c, d, g) (omega (arith, i, z))
      | no e ↦
          let a : put_entry index (4 * slot) m (4 * n) ≡ index (4 * n) =
            first_word index slot n m e in
          let f : ltb slot (suc n) ≡ ltb slot n = ground arith in rw (a, f) (omega (arith, i))
    ]

hash_slot-small : (left right : ℕ) → hash_slot left right < table_entries
unfolding hash_slot
hash_slot-small left right = omega arith

-- A way past every entry meets every slot, so all are in use.
pub used-Way :
    (index : Index) (left right : ℕ)
    → Way index left right table_entries
    → used index table_entries ≡ table_entries
used-Way index left right w = used-full index table_entries λ slot l.
    let h : hash_slot left right < table_entries = hash_slot-small left right in
    elim (dec_lt slot (hash_slot left right)) [
      | yes b ↦
          let d : ℕ = slot + table_entries - hash_slot left right in
          let e : (hash_slot left right + d) % table_entries ≡ slot = omega arith in
          subst (λ (k : ℕ). index (4 * k) ≢ u32_max) e (w d (omega arith)).used
      | no b ↦
          let d : ℕ = slot - hash_slot left right in
          let e : (hash_slot left right + d) % table_entries ≡ slot = omega arith in
          subst (λ (k : ℕ). index (4 * k) ≢ u32_max) e (w d (omega arith)).used
    ]

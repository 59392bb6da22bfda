-- ===== src/Tokenizer/Table/Writing.antt =====
-- The writes to the hash table of crates/promptboot-core/src/tokenizer.rs.
use promptboot.Prelude.{
  ℕ, ◌+◌, ◌*◌, ◌<◌, ◌≡◌, ◌≢◌, sym, ap, subst, ◌∙◌, u32_max, ◌⊎◌, inl, inr, arith,
}
use native.Mathlib.Decide.{dec_lt}
use promptboot.Model.View.{Merge}
use promptboot.Tokenizer.Table.{Index, put_entry, entry_word, hash_slot}
use promptboot.Tokenizer.Table.Entries.{Holds, Passed, Way, Placed}

-- A new entry holds its merge, and no other word changes.
pub put_entry-Holds : (index : Index) (at : ℕ) (m : Merge) → Holds (put_entry index at m) at m
put_entry-Holds index at m = record {
  left = ground arith;
  right = ground arith;
  result = ground arith;
  rank = ground arith;
}

pub put_entry-other :
    (index : Index) (at : ℕ) (m : Merge) (k : ℕ)
    → (k < at) ⊎ (at + 3 < k)
    → put_entry index at m k ≡ index k
put_entry-other index at m k h = ground arith

-- Two entries are one, or their words do not meet.
pub apart : (x y j : ℕ) → x ≢ y → j < 4 → (4 * x + j < 4 * y) ⊎ (4 * y + 3 < 4 * x + j)
apart x y j n l = elim (dec_lt x y) [ yes h ↦ inl (omega arith) | no h ↦ inr (ground arith) ]

module _ (index : Index) (new : Merge) (slot : ℕ) (free : index (4 * slot) ≡ u32_max) where
  -- The words of an entry in use are kept.
  kept :
      (other j : ℕ)
      → index (4 * other) ≢ u32_max
      → j < 4
      → put_entry index (4 * slot) new (4 * other + j) ≡ index (4 * other + j)
  kept other j used l =
      put_entry-other index (4 * slot) new (4 * other + j)
        (apart other slot j (λ e. used (ap (λ (n : ℕ). index (4 * n)) e ∙ free)) l)

  kept_first :
      (other : ℕ)
      → index (4 * other) ≢ u32_max
      → put_entry index (4 * slot) new (4 * other) ≡ index (4 * other)
  kept_first other used =
      let e : 4 * other + 0 ≡ 4 * other = omega arith in
      subst (λ (k : ℕ). put_entry index (4 * slot) new k ≡ index k) e
        (kept other 0 used (omega arith))

  pub kept-Holds :
      (other : ℕ) (m : Merge)
      → index (4 * other) ≢ u32_max
      → Holds index (4 * other) m
      → Holds (put_entry index (4 * slot) new) (4 * other) m
  kept-Holds other m used h = record {
    left = kept_first other used ∙ h.left;
    right = kept other 1 used (omega arith) ∙ h.right;
    result = kept other 2 used (omega arith) ∙ h.result;
    rank = kept other 3 used (omega arith) ∙ h.rank;
  }

  kept-Passed :
      (other left right : ℕ)
      → Passed index (4 * other) left right
      → Passed (put_entry index (4 * slot) new) (4 * other) left right
  kept-Passed other left right p = record {
    used = λ e. p.used (sym (kept_first other p.used) ∙ e);
    other = rw (kept_first other p.used, kept other 1 p.used (omega arith)) p.other;
  }

  pub kept-Placed :
      (m : Merge) (displacement : ℕ)
      → m.left ≢ u32_max
      → Placed index m displacement
      → Placed (put_entry index (4 * slot) new) m displacement
  kept-Placed m displacement n p = record {
    way = λ d l. kept-Passed _ m.left m.right (p.way d l);
    holds = kept-Holds _ m (λ e. n (sym p.holds.left ∙ e)) p.holds;
  }

  pub new-Placed :
      (displacement : ℕ)
      → entry_word (hash_slot new.left new.right) displacement ≡ 4 * slot
      → Way index new.left new.right displacement
      → Placed (put_entry index (4 * slot) new) new displacement
  new-Placed displacement e w = record {
    way = λ d l. kept-Passed _ new.left new.right (w d l);
    holds =
        subst (λ (at : ℕ). Holds (put_entry index (4 * slot) new) at new) (sym e)
          (put_entry-Holds index (4 * slot) new);
  }

-- ===== src/MpInference/Counts.antt =====
-- Sums over the processors of src/mp_inference.rs.
use native.Mathlib.Decide.{dec_lt}
use promptboot.Prelude.{
  ℕ, zero, suc, ◌+◌, ◌*◌, ◌<◌, ◌≤◌, ◌≡◌, refl, ap, List, [], ◌∷◌, ◌++◌, replicate, ◌==◌,
  if◌then◌else◌, arith,
}
use promptboot.MpInference.{
  Processor, outside, refused, claimed, published, loaded, spinning, resetting, raising, through,
}

abbrev pub sum : (Processor → ℕ) → List Processor → ℕ
sum w [] = 0
sum w (p ∷ ps) = w p + sum w ps

pub sum-append :
    (w : Processor → ℕ) (xs ys : List Processor) → sum w (xs ++ ys) ≡ sum w xs + sum w ys
sum-append w [] ys = omega arith
sum-append w (x ∷ xs) ys = omega (arith, sum-append w xs ys)

pub sum_mono :
    (w v : Processor → ℕ)
    → ((p : Processor) → w p ≤ v p)
    → (ps : List Processor) → sum w ps ≤ sum v ps
sum_mono w v h [] = omega arith
sum_mono w v h (p ∷ ps) = omega (arith, h p, sum_mono w v h ps)

pub sum-replicate : (w : Processor → ℕ) (n : ℕ) (p : Processor) → sum w (replicate n p) ≡ n * w p
sum-replicate w zero p = omega arith
sum-replicate w (suc n) p = grind (arith, sum-replicate w n p)

-- A processor for which the first sum falls short of the second.
pub sum-Short :
    (w v : Processor → ℕ) (ps : List Processor)
    → sum w ps < sum v ps
    → (xs : List Processor) × (p : Processor) × (ys : List Processor) × (ps ≡ xs ++ p ∷ ys)
      × (w p < v p)
sum-Short w v [] l = absurd (omega arith)
sum-Short w v (p ∷ ps) l = elim (dec_lt (w p) (v p)) [
  | yes a ↦ ([], p, ps, refl, a)
  | no n ↦ let (xs, q, ys, e, a) = sum-Short w v ps (omega arith) in (p ∷ xs, q, ys, ap (p ∷◌) e, a)
]

abbrev pub one : Processor → ℕ
one p = 1

abbrev pub is_outside : Processor → ℕ
is_outside outside = 1
is_outside _ = 0

abbrev pub is_refused : Processor → ℕ
is_refused refused = 1
is_refused _ = 0

-- Counted by `arrivals`, sooner or later.
abbrev pub is_arrived : Processor → ℕ
is_arrived (spinning _ _) = 1
is_arrived (resetting _) = 1
is_arrived (raising _) = 1
is_arrived (through _) = 1
is_arrived _ = 0

abbrev pub is_resetting : Processor → ℕ
is_resetting (resetting _) = 1
is_resetting _ = 0

abbrev pub is_raising : Processor → ℕ
is_raising (raising _) = 1
is_raising _ = 0

abbrev pub is_through : Processor → ℕ
is_through (through _) = 1
is_through _ = 0

-- The generation loaded.
abbrev pub generation_of : Processor → ℕ
generation_of (loaded _ g) = g
generation_of (spinning _ g) = g
generation_of _ = 0

-- One where the processor has the slot.
abbrev pub has_slot : ℕ → Processor → ℕ
has_slot k outside = 0
has_slot k refused = 0
has_slot k (claimed slot) = if slot == k then 1 else 0
has_slot k (published slot) = if slot == k then 1 else 0
has_slot k (loaded slot _) = if slot == k then 1 else 0
has_slot k (spinning slot _) = if slot == k then 1 else 0
has_slot k (resetting slot) = if slot == k then 1 else 0
has_slot k (raising slot) = if slot == k then 1 else 0
has_slot k (through slot) = if slot == k then 1 else 0

-- A bound of the turns that a processor still takes.
abbrev pub turns_left : Processor → ℕ
turns_left outside = 6
turns_left refused = 0
turns_left (claimed _) = 5
turns_left (published _) = 4
turns_left (loaded _ _) = 3
turns_left (spinning _ _) = 1
turns_left (resetting _) = 2
turns_left (raising _) = 1
turns_left (through _) = 0

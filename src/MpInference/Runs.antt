-- ===== src/MpInference/Runs.antt =====
-- Every order of turns in the entry of src/mp_inference.rs.
use promptboot.Prelude.{
  ℕ, ◌+◌, ◌<◌, ◌≤◌, ◌≡◌, inl, refl, sym, ◌∙◌, subst, List, [], ◌∷◌, ◌++◌, Option, none, some, leb,
  ◌==◌, if-cases, arith,
}
use mathlib.Core.Path.{fun_ext}
use promptboot.MpInference.{
  MpCall, Processor, outside, refused, claimed, published, loaded, spinning, resetting, raising,
  through, claim, arrive, spin, turn, prepared, State, dispatched, Step, takes_turn, Run, begins,
  goes_on,
}
use promptboot.MpInference.Counts.{
  sum, sum-append, sum-replicate, one, is_outside, is_refused, is_arrived, is_resetting, is_raising,
  is_through, generation_of, has_slot, turns_left,
}
use promptboot.MpInference.Entry.{Keeps, Rest, plus, KeepsNext, turn-Keeps}

-- The sums over the processors of a list.
abbrev pub sums : List Processor → (Processor → ℕ) → ℕ
sums ps v = sum v ps

abbrev around : List Processor → List Processor → (Processor → ℕ) → ℕ
around xs ys v = sum v xs + sum v ys

sums-plus :
    (xs ys : List Processor) (p : Processor)
    → Path ((Processor → ℕ) → ℕ) (sums (xs ++ p ∷ ys)) (plus (around xs ys) p)
sums-plus xs ys p = fun_ext λ v. omega (arith, sum-append v xs (p ∷ ys))

pub arrived_or_outside : (p : Processor) → is_arrived p + is_outside p ≤ 1
arrived_or_outside outside = omega arith
arrived_or_outside refused = omega arith
arrived_or_outside (claimed _) = omega arith
arrived_or_outside (published _) = omega arith
arrived_or_outside (loaded _ _) = omega arith
arrived_or_outside (spinning _ _) = omega arith
arrived_or_outside (resetting _) = omega arith
arrived_or_outside (raising _) = omega arith
arrived_or_outside (through _) = omega arith

pub through_is_arrived :
    (p : Processor) → is_through p + is_raising p + is_resetting p ≤ is_arrived p
through_is_arrived outside = omega arith
through_is_arrived refused = omega arith
through_is_arrived (claimed _) = omega arith
through_is_arrived (published _) = omega arith
through_is_arrived (loaded _ _) = omega arith
through_is_arrived (spinning _ _) = omega arith
through_is_arrived (resetting _) = omega arith
through_is_arrived (raising _) = omega arith
through_is_arrived (through _) = omega arith

pub sums-Rest : (ps : List Processor) → Rest (sums ps)
sums-Rest [] = record { arrived_le = omega arith; through_le = omega arith }
sums-Rest (p ∷ ps) =
    let h = sums-Rest ps in
    record {
      arrived_le = omega (arith, h.arrived_le, arrived_or_outside p);
      through_le = omega (arith, h.through_le, through_is_arrived p);
    }

around-Rest : (xs ys : List Processor) → Rest (around xs ys)
around-Rest xs ys =
    let h = sums-Rest xs in
    let k = sums-Rest ys in
    record {
      arrived_le = omega (arith, h.arrived_le, k.arrived_le);
      through_le = omega (arith, h.through_le, k.through_le);
    }

abbrev pub Kept : State → Type 0
Kept s = Keeps s.call (sums s.processors)

Step-Kept : {s t : State} → Step s t → Kept s → Kept t
Step-Kept (takes_turn xs ys c p next e) h = subst (Keeps next.0) (sym (sums-plus xs ys next.1)) (
    subst (KeepsNext (around xs ys)) e
      (turn-Keeps c (around xs ys) p (around-Rest xs ys) (subst (Keeps c) (sums-plus xs ys p) h)))

pub dispatched-Kept : (n : ℕ) → 0 < n → Kept (dispatched n)
unfolding dispatched prepared
dispatched-Kept n l = record {
  size = sum-replicate one n outside ∙ omega arith;
  slots = omega (arith, sum-replicate is_outside n outside);
  none_refused = (omega (arith, sum-replicate is_refused n outside), refl);
  fresh = omega (arith, sum-replicate generation_of n outside);
  held = λ k. (let g = sum-replicate (has_slot k) n outside in ground arith);
  stage =
      let a = sum-replicate is_arrived n outside in
      let s = sum-replicate is_resetting n outside in
      let r = sum-replicate is_raising n outside in
      let t = sum-replicate is_through n outside in
      inl (refl, (omega arith, (omega arith, (omega arith, (omega arith, omega arith)))));
}

pub Run-Kept : {k : ℕ} {s t : State} → Run k s t → Kept s → Kept t
Run-Kept begins h = h
Run-Kept (goes_on r e) h = Step-Kept e (Run-Kept r h)

-- A turn takes from the turns that are left, and keeps the number of workers.
abbrev Fewer : MpCall → Processor → Option (MpCall × Processor) → Type 0
Fewer c p none = Unit {0}
Fewer c p (some next) = (turns_left next.1 + 1 ≤ turns_left p) × (next.0.workers ≡ c.workers)

turn-Fewer : (c : MpCall) (p : Processor) → Fewer c p (turn c p)
unfolding turn claim arrive spin
turn-Fewer c outside =
    if-cases (λ (n : MpCall × Processor). Fewer c outside (some n)) (leb c.workers c.next_slot) _ _
      (λ _. (omega arith, refl)) (λ _. (omega arith, refl))
turn-Fewer c refused = tt
turn-Fewer c (claimed slot) = (omega arith, refl)
turn-Fewer c (published slot) = (omega arith, refl)
turn-Fewer c (loaded slot g) =
    if-cases (λ (n : MpCall × Processor). Fewer c (loaded slot g) (some n))
      (c.arrivals + 1 == c.workers) _ _ (λ _. (omega arith, refl)) (λ _. (omega arith, refl))
turn-Fewer c (spinning slot g) =
    if-cases (Fewer c (spinning slot g)) (c.generation == g) _ _ (λ _. tt)
      (λ _. (omega arith, refl))
turn-Fewer c (resetting slot) = (omega arith, refl)
turn-Fewer c (raising slot) = (omega arith, refl)
turn-Fewer c (through slot) = tt

abbrev pub left : State → ℕ
left s = sum turns_left s.processors

Step-left : {s t : State} → Step s t → left t + 1 ≤ left s
Step-left (takes_turn xs ys c p next e) = omega (
  arith,
  sum-append turns_left xs (p ∷ ys),
  sum-append turns_left xs (next.1 ∷ ys),
  (subst (Fewer c p) e (turn-Fewer c p)).0,
)

pub Run-left : {k : ℕ} {s t : State} → Run k s t → k + left t ≤ left s
Run-left begins = omega arith
Run-left (goes_on r e) = omega (arith, Run-left r, Step-left e)

Step-workers : {s t : State} → Step s t → t.call.workers ≡ s.call.workers
Step-workers (takes_turn xs ys c p next e) = (subst (Fewer c p) e (turn-Fewer c p)).1

pub Run-workers : {k : ℕ} {s t : State} → Run k s t → t.call.workers ≡ s.call.workers
Run-workers begins = refl
Run-workers (goes_on r e) = Step-workers e ∙ Run-workers r

-- What every processor of a list has at least.
pub sum-part :
    (w : Processor → ℕ) (xs ys : List Processor) (p : Processor) → w p ≤ sum w (xs ++ p ∷ ys)
sum-part w xs ys p = omega (arith, sum-append w xs (p ∷ ys))

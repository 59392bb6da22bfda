-- ===== src/MpInference/Completion.antt =====
-- Where the runs of the entry in src/mp_inference.rs end.
use promptboot.Prelude.{
  ℕ, ◌+◌, ◌*◌, ◌<◌, ◌≤◌, ◌≡◌, ◌⊎◌, inl, inr, refl, ap, sym, subst, List, ◌∷◌, ◌++◌, some, arith,
}
use native.Mathlib.Decide.{dec_lt}
use promptboot.MpInference.{
  reject, entry_status, MpCall, Processor, outside, refused, claimed, published, loaded, spinning,
  resetting, raising, through, claim, arrive, spin, turn, prepared, State, dispatched, Step,
  takes_turn, Run,
}
use promptboot.MpInference.Counts.{
  sum, sum-replicate, sum-Short, one, is_refused, is_arrived, is_resetting, is_raising, is_through,
  generation_of, has_slot, turns_left,
}
use promptboot.MpInference.Runs.{
  Kept, dispatched-Kept, Run-Kept, Run-workers, sum-part, through_is_arrived, arrived_or_outside,
  sums-Rest, Run-left,
}

-- A processor that is not through, and that the barrier does not hold, has a turn.
has_turn :
    (c : MpCall) (p : Processor)
    → is_refused p ≡ 0
    → is_through p ≡ 0
    → ((is_arrived p ≡ 0)
        ⊎ ((is_resetting p ≡ 1)
            ⊎ ((is_raising p ≡ 1) ⊎ ((c.generation ≡ 1) × (generation_of p ≡ 0)))))
    → (next : MpCall × Processor) × (turn c p ≡ some next)
unfolding turn spin
has_turn c outside r t h = (claim c, refl)
has_turn c refused r t h = absurd (omega arith)
has_turn c (claimed slot) r t h = ((c, published slot), refl)
has_turn c (published slot) r t h = ((c, loaded slot c.generation), refl)
has_turn c (loaded slot g) r t h = (arrive c slot g, refl)
has_turn c (spinning slot g) r t h = ((c, through slot), ground arith)
has_turn c (resetting slot) r t h = ((record c { arrivals = 0 }, raising slot), refl)
has_turn c (raising slot) r t h = ((record c { generation = c.generation + 1 }, through slot), refl)
has_turn c (through slot) r t h = absurd (omega arith)

-- The first test of `dispatch_token` passes once every callback has returned.
passes :
    (c : MpCall)
    → c.generation ≡ 1
    → c.arrivals ≡ 0
    → c.next_slot ≡ c.workers
    → c.rejection ≡ 0
    → entry_status c c.workers ≡ 0
unfolding entry_status reject
passes c g a n r = ground arith

-- Every processor is behind the barrier, which is as it was but for its generation, each slot has its
-- processor, and none was refused.
pub record Entered (n : ℕ) (s : State) : Type 0 where
  pub all_through : sum is_through s.processors ≡ n
  pub empty : s.call.arrivals ≡ 0
  pub opened_once : s.call.generation ≡ 1
  pub all_claimed : s.call.next_slot ≡ n
  pub no_rejection : s.call.rejection ≡ 0
  pub accepted : entry_status s.call n ≡ 0
  pub each_slot : (k : ℕ) → k < n → sum (has_slot k) s.processors ≡ 1

Step-at :
    (s : State) (xs ys : List Processor) (p : Processor)
    → s.processors ≡ xs ++ p ∷ ys
    → (next : MpCall × Processor) × (turn s.call p ≡ some next)
    → (t : State) × Step s t
Step-at s xs ys p e (next, f) = (
  record { call = next.0; processors = xs ++ next.1 ∷ ys },
  subst
      (λ (ps : List Processor).
        Step (record { call = s.call; processors = ps })
          (record { call = next.0; processors = xs ++ next.1 ∷ ys }))
      (sym e) (takes_turn xs ys s.call p next f),
)

-- What lets a processor have a turn.
abbrev May : MpCall → Processor → Type 0
May c p =
    (is_arrived p ≡ 0)
    ⊎ ((is_resetting p ≡ 1) ⊎ ((is_raising p ≡ 1) ⊎ ((c.generation ≡ 1) × (generation_of p ≡ 0))))

-- A processor that one sum misses, and that may have a turn, takes it.
Short-Step :
    (s : State) (w v : Processor → ℕ)
    → Kept s
    → sum w s.processors < sum v s.processors
    → ((p : Processor) → w p < v p → generation_of p ≡ 0 → (is_through p ≡ 0) × May s.call p)
    → (t : State) × Step s t
Short-Step s w v h l k =
    let (xs, p, ys, e, a) = sum-Short w v s.processors l in
    let fresh : generation_of p ≡ 0 =
      omega (arith, sum-part generation_of xs ys p, ap (sum generation_of) e, h.fresh) in
    let kept : is_refused p ≡ 0 =
      omega (arith, sum-part is_refused xs ys p, ap (sum is_refused) e, h.none_refused.0) in
    let may = k p a fresh in Step-at s xs ys p e (has_turn s.call p kept may.0 may.1)

-- While a processor is missing behind the barrier, some processor has a turn.
goes_on_or_Entered : (s : State) → Kept s → ((t : State) × Step s t) ⊎ Entered s.call.workers s
goes_on_or_Entered s h =
    let bounds = sums-Rest s.processors in
    elim h.stage [
      | inl (g, (a, (l, _))) ↦ inl (
          Short-Step s is_arrived one h (omega (arith, h.size))
            λ p b _. (omega (arith, through_is_arrived p), inl (omega arith)))
      | inr (inl (g, (a, (r, (x, _))))) ↦ inl (
          Short-Step s is_raising is_resetting h (omega arith) λ p b _. (
            omega (arith, through_is_arrived p, arrived_or_outside p),
            inr (inl (omega (arith, through_is_arrived p, arrived_or_outside p))),
          ))
      | inr (inr (inl (g, (a, (b, (r, (x, _))))))) ↦ inl (
          Short-Step s is_resetting is_raising h (omega arith) λ p b _. (
            omega (arith, through_is_arrived p, arrived_or_outside p),
            inr (inr (inl (omega (arith, through_is_arrived p, arrived_or_outside p)))),
          ))
      | inr (inr (inr (g, (a, (b, _))))) ↦
          elim (dec_lt (sum is_through s.processors) s.call.workers) [
            | yes l ↦ inl (
                Short-Step s is_through one h (omega (arith, h.size))
                  λ p b f. (omega arith, inr (inr (inr (g, f)))))
            | no n ↦
                let claimed_all : s.call.next_slot ≡ s.call.workers =
                  omega (arith, h.slots, h.size, bounds.arrived_le) in
                inr (record {
                  all_through = omega (arith, bounds.through_le);
                  empty = a;
                  opened_once = g;
                  all_claimed = claimed_all;
                  no_rejection = h.none_refused.1;
                  accepted = passes s.call g a claimed_all h.none_refused.1;
                  each_slot = λ k l. (let q = h.held k in ground arith);
                })
          ]
    ]

-- Whatever the order of turns of n > 0 processors, the entry ends: no run has more than 6 n turns, and
-- where no processor has a turn left, all are behind the barrier, each with its own slot, `arrivals`
-- is 0, `generation` is 1 and `next_slot` is n, so that the test of `dispatch_token` passes.
pub Run-Entered :
    (n k : ℕ) (s : State)
    → 0 < n
    → Run k (dispatched n) s
    → (k ≤ 6 * n) × (((t : State) × Step s t) ⊎ Entered n s)
unfolding dispatched prepared
Run-Entered n k s l r = (
  omega (arith, Run-left r, sum-replicate turns_left n outside),
  subst (λ (w : ℕ). ((t : State) × Step s t) ⊎ Entered w s) (Run-workers r)
      (goes_on_or_Entered s (Run-Kept r (dispatched-Kept n l))),
)

-- Before every processor has stored its `ready`, none is behind the barrier, where they are read.
pub through-arrived :
    (n k : ℕ) (s : State)
    → 0 < n
    → Run k (dispatched n) s
    → 0 < sum is_through s.processors
    → sum is_arrived s.processors ≡ n
unfolding dispatched prepared
through-arrived n k s l r t =
    let h = Run-Kept r (dispatched-Kept n l) in let w = Run-workers r in grind arith

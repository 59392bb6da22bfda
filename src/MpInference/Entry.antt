-- ===== src/MpInference/Entry.antt =====
-- What the entry in src/mp_inference.rs keeps whatever the order of the processors' turns.
use promptboot.Prelude.{
  ℕ, ◌+◌, ◌<◌, ◌≤◌, ◌≡◌, ◌⊎◌, inl, inr, Option, none, some, leb, ◌==◌, if◌then◌else◌, if-cases,
  arith,
}
use promptboot.MpInference.{
  raising, resetting, spinning, loaded, published, outside, claimed, MpCall, Processor, claim,
  arrive, spin, turn, outside, refused, through,
}
use promptboot.MpInference.Counts.{
  one, is_outside, is_refused, is_arrived, is_resetting, is_raising, is_through, generation_of,
  has_slot,
}

-- How far the barrier is: processors still come; the last one has come; it has reset the arrivals; it
-- has opened the barrier. `a`, `s`, `r`, `t` count the processors that have come, those about to reset,
-- about to raise, and through.
abbrev pub Stage : MpCall → ℕ → ℕ → ℕ → ℕ → Type 0
Stage c a s r t =
    ((c.generation ≡ 0) × ((c.arrivals ≡ a) × ((a < c.workers) × ((s ≡ 0) × ((r ≡ 0) × (t ≡ 0))))))
    ⊎ (((c.generation ≡ 0) × ((a ≡ c.workers) × ((s ≡ 1) × ((r ≡ 0) × (t ≡ 0)))))
        ⊎ (((c.generation ≡ 0)
              × ((c.arrivals ≡ 0) × ((a ≡ c.workers) × ((s ≡ 0) × ((r ≡ 1) × (t ≡ 0))))))
            ⊎ ((c.generation ≡ 1) × ((c.arrivals ≡ 0) × ((a ≡ c.workers) × ((s ≡ 0) × (r ≡ 0)))))))

-- The invariant, on the sums.
pub record Keeps (c : MpCall) (w : (Processor → ℕ) → ℕ) : Type 0 where
  pub size : w one ≡ c.workers
  pub slots : c.next_slot + w is_outside ≡ c.workers
  pub none_refused : (w is_refused ≡ 0) × (c.rejection ≡ 0)
  pub fresh : w generation_of ≡ 0
  pub held : (k : ℕ) → w (has_slot k) ≡ (if leb c.next_slot k then 0 else 1)
  pub stage : Stage c (w is_arrived) (w is_resetting) (w is_raising) (w is_through)

-- The sums with one processor apart, and how they are bounded.
pub record Rest (w : (Processor → ℕ) → ℕ) : Type 0 where
  pub arrived_le : w is_arrived + w is_outside ≤ w one
  pub through_le : w is_through + w is_raising + w is_resetting ≤ w is_arrived

-- One processor more.
abbrev pub plus : ((Processor → ℕ) → ℕ) → Processor → (Processor → ℕ) → ℕ
plus w p v = w v + v p

-- The same of a next state, where there is one.
abbrev pub KeepsNext : ((Processor → ℕ) → ℕ) → Option (MpCall × Processor) → Type 0
KeepsNext w none = Unit {0}
KeepsNext w (some next) = Keeps next.0 (plus w next.1)

claim-Keeps :
    (c : MpCall) (w : (Processor → ℕ) → ℕ)
    → Rest w
    → Keeps c (plus w outside)
    → KeepsNext w (some (claim c))
unfolding claim
claim-Keeps c w b h =
    if-cases (λ (n : MpCall × Processor). Keeps n.0 (plus w n.1)) (leb c.workers c.next_slot) _ _
      (λ t. absurd (ground arith))
      (λ _. record {
        size = h.size;
        slots = omega arith;
        none_refused = h.none_refused;
        fresh = h.fresh;
        held = λ k. (let g = h.held k in ground arith);
        stage = h.stage;
      })

load-Keeps :
    (c : MpCall) (w : (Processor → ℕ) → ℕ) (slot : ℕ)
    → Rest w
    → Keeps c (plus w (published slot))
    → KeepsNext w (some (c, loaded slot c.generation))
load-Keeps c w slot b h = record {
  size = h.size;
  slots = h.slots;
  none_refused = h.none_refused;
  fresh = grind arith;
  held = h.held;
  stage = h.stage;
}

arrive-Keeps :
    (c : MpCall) (w : (Processor → ℕ) → ℕ) (slot g : ℕ)
    → Rest w
    → Keeps c (plus w (loaded slot g))
    → KeepsNext w (some (arrive c slot g))
unfolding arrive
arrive-Keeps c w slot g b h =
    if-cases (λ (n : MpCall × Processor). Keeps n.0 (plus w n.1)) (c.arrivals + 1 == c.workers) _ _
      (λ t. record {
        size = h.size;
        slots = h.slots;
        none_refused = h.none_refused;
        fresh = omega arith;
        held = h.held;
        stage = inr (inl (grind arith, (grind arith, (grind arith, (grind arith, grind arith)))));
      })
      (λ f. record {
        size = h.size;
        slots = h.slots;
        none_refused = h.none_refused;
        fresh = h.fresh;
        held = h.held;
        stage =
            inl (
              grind arith,
              (grind arith, (grind arith, (grind arith, (grind arith, grind arith)))),
            );
      })

spin-Keeps :
    (c : MpCall) (w : (Processor → ℕ) → ℕ) (slot g : ℕ)
    → Rest w
    → Keeps c (plus w (spinning slot g))
    → KeepsNext w (spin c slot g)
unfolding spin
spin-Keeps c w slot g b h =
    if-cases (KeepsNext w) (c.generation == g) _ _ (λ _. tt)
      (λ f. record {
        size = h.size;
        slots = h.slots;
        none_refused = h.none_refused;
        fresh = omega arith;
        held = h.held;
        stage =
            inr (inr (inr (grind arith, (grind arith, (grind arith, (grind arith, grind arith))))));
      })

reset-Keeps :
    (c : MpCall) (w : (Processor → ℕ) → ℕ) (slot : ℕ)
    → Rest w
    → Keeps c (plus w (resetting slot))
    → KeepsNext w (some (record c { arrivals = 0 }, raising slot))
reset-Keeps c w slot b h = record {
  size = h.size;
  slots = h.slots;
  none_refused = h.none_refused;
  fresh = h.fresh;
  held = h.held;
  stage = inr (
      inr (
        inl
          (grind arith, (grind arith, (grind arith, (grind arith, (grind arith, grind arith)))))));
}

raise-Keeps :
    (c : MpCall) (w : (Processor → ℕ) → ℕ) (slot : ℕ)
    → Rest w
    → Keeps c (plus w (raising slot))
    → KeepsNext w (some (record c { generation = c.generation + 1 }, through slot))
raise-Keeps c w slot b h = record {
  size = h.size;
  slots = h.slots;
  none_refused = h.none_refused;
  fresh = h.fresh;
  held = h.held;
  stage = inr (inr (inr (grind arith, (grind arith, (grind arith, (grind arith, grind arith))))));
}

pub turn-Keeps :
    (c : MpCall) (w : (Processor → ℕ) → ℕ) (p : Processor)
    → Rest w
    → Keeps c (plus w p)
    → KeepsNext w (turn c p)
unfolding turn
turn-Keeps c w outside b h = claim-Keeps c w b h
turn-Keeps c w refused b h = tt
turn-Keeps c w (claimed slot) b h = record {
  size = h.size;
  slots = h.slots;
  none_refused = h.none_refused;
  fresh = h.fresh;
  held = h.held;
  stage = h.stage;
}
turn-Keeps c w (published slot) b h = load-Keeps c w slot b h
turn-Keeps c w (loaded slot g) b h = arrive-Keeps c w slot g b h
turn-Keeps c w (spinning slot g) b h = spin-Keeps c w slot g b h
turn-Keeps c w (resetting slot) b h = reset-Keeps c w slot b h
turn-Keeps c w (raising slot) b h = raise-Keeps c w slot b h
turn-Keeps c w (through slot) b h = tt

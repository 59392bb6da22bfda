-- ===== src/MpInference.antt =====
-- The entry of the application processors in src/mp_inference.rs: the claim of a slot in `ap_entry` and
-- the barrier of `EntryBarrier::wait`, one atomic access at a time.
pub mod Counts
pub mod Entry
pub mod Runs
pub mod Completion
mod Tests
use promptboot.Prelude.{
  ℕ, zero, suc, ◌+◌, ◌≡◌, List, [], ◌∷◌, ◌++◌, replicate, Option, none, some, leb, Bool, not, ◌&&◌,
  ◌||◌, ◌==◌, if◌then◌else◌,
}

-- The fields of `MpCall` and of its `EntryBarrier` that processors share.
pub record MpCall : Type 0 where
  pub workers : ℕ
  pub next_slot : ℕ
  pub rejection : ℕ
  pub arrivals : ℕ
  pub generation : ℕ

-- Where a processor stands, with its slot and the generation that it has loaded: before its call;
-- refused for want of a slot; with a slot; with its `ready` stored; with the generation loaded; in the
-- spin loop; about to store 0 in `arrivals`; about to raise the generation; behind the barrier.
pub data Processor : Type 0 where
  outside refused : Processor
  claimed published : ℕ → Processor
  loaded spinning : ℕ → ℕ → Processor
  resetting raising through : ℕ → Processor

-- `let slot = call.next_slot.fetch_add(1)` with its guard
unfoldable pub claim : MpCall → MpCall × Processor
claim c =
    let counted = record c { next_slot = c.next_slot + 1 } in
    if leb c.workers c.next_slot
    then (record counted { rejection = 40 }, refused)
    else (counted, claimed c.next_slot)

-- `self.arrivals.fetch_add(1) + 1 == self.workers`
unfoldable pub arrive : MpCall → ℕ → ℕ → MpCall × Processor
arrive c slot generation =
    let counted = record c { arrivals = c.arrivals + 1 } in
    if c.arrivals + 1 == c.workers
    then (counted, resetting slot)
    else (counted, spinning slot generation)

-- One load of the spin loop; nothing changes while the generation is the one loaded.
unfoldable pub spin : MpCall → ℕ → ℕ → Option (MpCall × Processor)
spin c slot generation = if c.generation == generation then none else some (c, through slot)

-- The next access of a processor, where it has one that changes something.
unfoldable pub turn : MpCall → Processor → Option (MpCall × Processor)
turn c outside = some (claim c)
turn c refused = none
turn c (claimed slot) = some (c, published slot)
turn c (published slot) = some (c, loaded slot c.generation)
turn c (loaded slot generation) = some (arrive c slot generation)
turn c (spinning slot generation) = spin c slot generation
turn c (resetting slot) = some (record c { arrivals = 0 }, raising slot)
turn c (raising slot) = some (record c { generation = c.generation + 1 }, through slot)
turn c (through slot) = none

unfoldable pub reject : ℕ → ℕ → ℕ
reject shared status = if (shared == 0) && not (status == 0) then status else shared

-- The first test of `dispatch_token` behind the firmware's call, on the number of callbacks that have
-- returned.
unfoldable pub entry_status : MpCall → ℕ → ℕ
entry_status c callbacks_returned =
    if not (c.next_slot == c.workers)
      || (not (callbacks_returned == c.workers)
          || (not (c.arrivals == 0) || not (c.generation == 1)))
    then reject c.rejection 30
    else c.rejection

-- What `dispatch_token` prepares, with every processor before its call.
unfoldable pub prepared : ℕ → MpCall
prepared n = record { workers = n; next_slot = 0; rejection = 0; arrivals = 0; generation = 0 }

pub record State : Type 0 where
  pub call : MpCall
  pub processors : List Processor

unfoldable pub dispatched : ℕ → State
dispatched n = record { call = prepared n; processors = replicate n outside }

-- Some processor takes its turn.
pub data Step : State → State → Type 0 where
  takes_turn :
      (xs ys : List Processor) (c : MpCall) (p : Processor) (next : MpCall × Processor)
      → turn c p ≡ some next
      → Step
          (record { call = c; processors = xs ++ p ∷ ys })
          (record { call = next.0; processors = xs ++ next.1 ∷ ys })

-- Runs of a number of steps.
pub data Run : ℕ → State → State → Type 0 where
  begins : {s : State} → Run zero s s
  goes_on : {n : ℕ} {s t u : State} → Run n s t → Step t u → Run (suc n) s u

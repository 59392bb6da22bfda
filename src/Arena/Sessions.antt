-- ===== src/Arena/Sessions.antt =====
-- Sequences of calls on an arena of crates/promptboot-core/src/arena.rs.
use promptboot.Prelude.{
  drop-replicate_append, take-replicate_append, take, sym, subst, ◌>>=◌, bind-ok, bind-ok,
  length-drop, length-replicate, length-append, ◌∙◌, ap, drop, ◌++◌, [], ◌∷◌, replicate, ℕ, ◌+◌,
  ◌≤◌, ◌<◌, ◌≡◌, refl, true, false, arith, List, length, Result, ok, err,
}
use promptboot.Arena.{
  PrimitiveStatus, Arena, Region, ArenaError, arena_error, new, allocate, seal, reset, capacity,
  region_mut,
}
use promptboot.Arena.Allocate.{IsValid, Grants, allocate-Grants, slice_max}
use promptboot.Arena.Regions.{region_mut-Written, with_written-IsValid, length-written}

-- One call that succeeds.
pub data Step (a : Arena) : Arena → Type 0 where
  allocates :
      {a' : Arena} (bytes alignment : ℕ) (r : Region)
      → allocate a bytes alignment ≡ ok (r, a')
      → Step a a'
  seals : {a' : Arena} → seal a ≡ ok a' → Step a a'
  resets : {a' : Arena} → reset a ≡ ok a' → Step a a'
  writes :
      {a' : Arena} (r : Region) (bytes : List ℕ)
      → length bytes ≡ r.length
      → region_mut a r bytes ≡ ok a'
      → Step a a'

pub data Reach (a : Arena) : Arena → Type 0 where
  here : Reach a a
  next : {b c : Arena} → Reach a b → Step b c → Reach a c

-- Fresh arenas are valid.
pub new-IsValid :
    (address : ℕ) (storage : List ℕ) {a : Arena}
    → length storage ≤ slice_max
    → new address storage ≡ ok a
    → IsValid a × (a.storage ≡ storage) × (a.sealed ≡ false)
unfolding new ◌>>=◌
new-IsValid address storage h e = ground arith

length-zeroed :
    (a : Arena)
    → IsValid a
    → length (replicate a.committed 0 ++ drop a.committed a.storage) ≡ length a.storage
length-zeroed a v = omega (
  arith,
  length-append (replicate a.committed 0) (drop a.committed a.storage),
  length-replicate {A = ℕ} a.committed 0,
  length-drop a.committed a.storage,
)

-- What no call takes away: validity, the size of the storage, and the high-water mark.
pub record Keeps (a a' : Arena) : Type 0 where
  pub valid : IsValid a'
  pub sized : capacity a' ≡ capacity a
  pub grows : a.high_water ≤ a'.high_water

allocate-Keeps :
    (a : Arena) (bytes alignment : ℕ) {r : Region} {a' : Arena}
    → IsValid a
    → allocate a bytes alignment ≡ ok (r, a')
    → Keeps a a'
allocate-Keeps a bytes alignment {r} {a'} v e =
    let g = allocate-Grants a bytes alignment v e in
    record { valid = g.valid; sized = ap length g.untouched; grows = omega (arith, g.high_mark) }

seal-Keeps : (a : Arena) {a' : Arena} → IsValid a → seal a ≡ ok a' → Keeps a a'
unfolding seal
seal-Keeps a v e = ground arith

reset-Keeps : (a : Arena) {a' : Arena} → IsValid a → reset a ≡ ok a' → Keeps a a'
unfolding reset
reset-Keeps a v e = ground (arith, length-zeroed a v)

region_mut-Keeps :
    (a : Arena) (r : Region) (bytes : List ℕ) {a' : Arena}
    → IsValid a
    → length bytes ≡ r.length
    → region_mut a r bytes ≡ ok a'
    → Keeps a a'
region_mut-Keeps a r bytes {a'} v n e =
    let (s, h, w) = region_mut-Written a r bytes v e in
    subst (Keeps a) (sym w) (record {
      valid = with_written-IsValid a r bytes v s h n;
      sized = length-written a r bytes v s h n;
      grows = omega arith;
    })

Step-Keeps : {a a' : Arena} → IsValid a → Step a a' → Keeps a a'
Step-Keeps v (allocates bytes alignment r e) = allocate-Keeps _ bytes alignment v e
Step-Keeps {a} v (seals e) = seal-Keeps a v e
Step-Keeps {a} v (resets e) = reset-Keeps a v e
Step-Keeps {a} v (writes r bytes n e) = region_mut-Keeps a r bytes v n e

-- Any sequence of successful calls of `allocate`, `seal`, `reset` and `region_mut`, the last with any
-- bytes written to the slice that it lends, on a valid arena leaves it valid, its capacity as it was, and its
-- high-water mark no lower than it was.
pub Reach-Keeps : {a a' : Arena} → IsValid a → Reach a a' → Keeps a a'
Reach-Keeps {a} v here = record { valid = v; sized = refl; grows = omega arith }
Reach-Keeps {a} v (next r st) =
    let k = Reach-Keeps v r in
    let k' = Step-Keeps k.valid st in
    record { valid = k'.valid; sized = k'.sized ∙ k.sized; grows = omega arith }

-- Regions asked for one after the other, each with its size and alignment.
unfoldable pub allocate_all : Arena → List (ℕ × ℕ) → Result ArenaError (List Region × Arena)
unfolding ◌>>=◌
allocate_all a [] = ok ([], a)
allocate_all a ((bytes, alignment) ∷ more) = allocate a bytes alignment >>= λ first.
    allocate_all first.1 more >>= λ rest. ok (first.0 ∷ rest.0, rest.1)

-- Regions within `lo..hi`, each behind the one before it.
abbrev pub Stacked : ℕ → ℕ → List Region → Type 0
Stacked lo hi [] = lo ≤ hi
Stacked lo hi (r ∷ rs) = (lo ≤ r.offset) × (0 < r.length) × Stacked (r.offset + r.length) hi rs

-- Behind `a`, a valid arena and regions stacked in the part committed since.
abbrev pub HandsOut : Arena → List Region × Arena → Type 0
HandsOut a (rs, a') = IsValid a' × Stacked a.committed a'.committed rs × (a'.sealed ≡ a.sealed)

cons-HandsOut :
    (a : Arena) (bytes alignment : ℕ) (r : Region) (a' : Arena) (out : List Region × Arena)
    → Grants a bytes alignment r a'
    → HandsOut a' out
    → HandsOut a (r ∷ out.0, out.1)
cons-HandsOut a bytes alignment r a' (rs, b) g (v, st, s) = (
  v,
  (
    g.after,
    omega (arith, g.size, g.positive),
    subst (λ (t : ℕ). Stacked t b.committed rs) (sym g.up_to) st,
  ),
  s ∙ g.still_open ∙ sym g.was_open,
)

-- All the regions that an arena hands out, whatever their sizes and alignments, are stacked in
-- its storage: each lies behind the one before it, so no two overlap, and the last ends within
-- the committed part. The arena stays valid and open.
pub allocate_all-HandsOut :
    (a : Arena) (requests : List (ℕ × ℕ)) {out : List Region × Arena}
    → IsValid a
    → allocate_all a requests ≡ ok out
    → HandsOut a out
unfolding allocate_all
allocate_all-HandsOut a [] {out} v e =
    let same : ◌≡◌ {A = List Region × Arena} ([], a) out = cc e in
    subst (HandsOut a) same (v, omega arith, refl)
allocate_all-HandsOut a ((bytes, alignment) ∷ more) {out} v e =
    let (first, e₁, rest_of) = bind-ok (allocate a bytes alignment) _ e in
    let (rest, e₂, done) = bind-ok (allocate_all first.1 more) _ rest_of in
    let g = allocate-Grants a bytes alignment v e₁ in
    let same : ◌≡◌ {A = List Region × Arena} (first.0 ∷ rest.0, rest.1) out = cc done in
    subst (HandsOut a) same (
      cons-HandsOut a bytes alignment first.0 first.1 rest g
        (allocate_all-HandsOut first.1 more g.valid e₂))

-- What `reset` leaves: every committed byte is zero, all others are as they were, nothing is
-- allocated, the arena is open again, and the high-water mark stays.
pub record Cleared (a a' : Arena) : Type 0 where
  pub zeroed : take a.committed a'.storage ≡ replicate a.committed 0
  pub rest : drop a.committed a'.storage ≡ drop a.committed a.storage
  pub counters : (a'.requested ≡ 0) × (a'.committed ≡ 0) × (a'.current ≡ 0)
  pub open_again : a'.sealed ≡ false
  pub high : a'.high_water ≡ a.high_water

-- On a sealed arena `reset` zeroes the committed bytes, keeps the other bytes and the high-water
-- mark, sets the counters to zero and opens the arena again; on an arena that is not sealed it fails
-- with a state error.
pub reset_clears :
    (a : Arena)
    → (a.sealed ≡ true → (a' : Arena) × (reset a ≡ ok a') × Cleared a a')
      × (a.sealed ≡ false → reset a ≡ err (arena_error PrimitiveStatus.state 0 0))
unfolding reset
reset_clears a = (λ s. (cleared, simp s, shows), λ s. simp s)
  where
    cleared : Arena
    cleared = record a {
      storage = replicate a.committed 0 ++ drop a.committed a.storage;
      requested = 0;
      committed = 0;
      current = 0;
      sealed = false;
    }

    shows : Cleared a cleared
    shows = record {
      zeroed = take-replicate_append a.committed 0 (drop a.committed a.storage);
      rest = drop-replicate_append a.committed 0 (drop a.committed a.storage);
      counters = (refl, refl, refl);
      open_again = refl;
      high = refl;
    }

-- ===== src/Arena/Regions.antt =====
-- `region_bounds`, `region`, `region_mut` and `reset` of crates/promptboot-core/src/arena.rs.
use promptboot.Prelude.{
  not, fail_if, bind-ok, not, fail_if, bind-ok, ◌>>=◌, sym, take, ◌∙◌, ap, ◌⊎◌, ◌↔◌, ℕ, ◌+◌, ◌-◌,
  ◌≤◌, ◌<◌, ◌≡◌, refl, true, false, inl, inr, arith, List, length, ok, err,
}
use promptboot.Prelude.Slices.{
  length-splice, slice, splice, slice-splice_self, slice-append_before, drop-splice_past,
}
use promptboot.Status.{PrimitiveStatus}
use promptboot.Arena.{Arena, Region, arena_error, region_bounds, region, region_mut}
use promptboot.Arena.Allocate.{IsValid}

-- A region that the arena holds.
pub record Holds (a : Arena) (r : Region) : Type 0 where
  pub nonempty : 0 < r.length
  pub inside : r.offset + r.length ≤ a.committed

-- On a valid arena the bounds of a region are given exactly if the arena holds it, whatever the
-- offset and the length of the request: nothing wraps.
pub region_bounds_iff :
    (a : Arena) (r : Region) (s e : ℕ)
    → IsValid a
    → (region_bounds a r ≡ ok (s, e)) ↔ (Holds a r × (s ≡ r.offset) × (e ≡ r.offset + r.length))
unfolding region_bounds ◌>>=◌
region_bounds_iff a r s e v = (λ h. ground arith, λ h. ground arith)

region_bounds_held :
    (a : Arena) (r : Region)
    → IsValid a
    → Holds a r
    → region_bounds a r ≡ ok (r.offset, r.offset + r.length)
region_bounds_held a r v h = (region_bounds_iff a r _ _ v).1 (h, refl, refl)

-- A sealed arena lends a held region as its bytes,
pub region_held :
    (a : Arena) (r : Region)
    → IsValid a
    → a.sealed ≡ true
    → Holds a r
    → region a r ≡ ok (slice r.offset r.length a.storage)
unfolding region ◌>>=◌
region_held a r v s h =
    let n : r.offset + r.length - r.offset ≡ r.length = omega arith in
    simp (s, region_bounds_held a r v h) (rw n)

-- and for writing, where the bytes written take their place.
pub region_mut_held :
    (a : Arena) (r : Region) (bytes : List ℕ)
    → IsValid a
    → a.sealed ≡ true
    → Holds a r
    → region_mut a r bytes
      ≡ ok (record a { storage = splice r.offset (r.offset + r.length) bytes a.storage })
unfolding region_mut ◌>>=◌
region_mut_held a r bytes v s h = simp (s, region_bounds_held a r v h)

-- A write that succeeds is one of a sealed arena to a region that it holds.
pub region_mut-Written :
    (a : Arena) (r : Region) (bytes : List ℕ) {a' : Arena}
    → IsValid a
    → region_mut a r bytes ≡ ok a'
    → (a.sealed ≡ true)
      × Holds a r
      × (a' ≡ record a { storage = splice r.offset (r.offset + r.length) bytes a.storage })
unfolding region_mut
region_mut-Written a r bytes v e =
    let (u, e₁, rest) =
      bind-ok (fail_if (not a.sealed) (arena_error PrimitiveStatus.state 0 0)) _ e in
    let (bounds, e₂, done) = bind-ok (region_bounds a r) _ rest in
    let sealed : a.sealed ≡ true = ground arith in
    let h = ((region_bounds_iff a r bounds.0 bounds.1 v).0 e₂).0 in
    (sealed, h, cc (e, region_mut_held a r bytes v sealed h))

-- Before `seal` and after `reset` no region is lent.
pub region_unsealed :
    (a : Arena) (r : Region) (bytes : List ℕ)
    → a.sealed ≡ false
    → (region a r ≡ err (arena_error PrimitiveStatus.state 0 0))
      × (region_mut a r bytes ≡ err (arena_error PrimitiveStatus.state 0 0))
unfolding region region_mut ◌>>=◌
region_unsealed a r bytes s = (simp s, simp s)

abbrev pub Disjoint : Region → Region → Type 0
Disjoint r q = (r.offset + r.length ≤ q.offset) ⊎ (q.offset + q.length ≤ r.offset)

module _ (a : Arena) (r : Region) (bytes : List ℕ) (v : IsValid a) (s : a.sealed ≡ true)
    (h : Holds a r) (n : length bytes ≡ r.length) where
  -- the storage that the client leaves
  abbrev pub written : List ℕ
  written = splice r.offset (r.offset + r.length) bytes a.storage

  abbrev pub with_written : Arena
  with_written = record a { storage = written }

  pub length-written : length written ≡ length a.storage
  length-written =
      length-splice a.storage bytes r.offset (r.offset + r.length) (omega arith) (omega arith)

  pub with_written-IsValid : IsValid with_written
  with_written-IsValid = ground (arith, length-written)

  -- On a valid sealed arena, bytes of a held region's length that are written to it through
  -- `region_mut` are what `region` then gives back.
  pub region-region_mut_self :
      (region_mut a r bytes ≡ ok with_written) × (region with_written r ≡ ok bytes)
  region-region_mut_self = (
    region_mut_held a r bytes v s h,
    region_held with_written r with_written-IsValid s still
        ∙ ap ok (
            rw (← n)
              (slice-splice_self a.storage bytes r.offset (r.offset + length bytes) (omega arith))),
  )
    where
      still : Holds with_written r
      still = record { nonempty = h.nonempty; inside = h.inside }

  -- On a valid sealed arena, writing as many bytes as a held region has through `region_mut` succeeds,
  -- and leaves what `region` gives for every held region that is disjoint from it.
  pub region-region_mut-Disjoint :
      (q : Region)
      → Holds a q
      → Disjoint r q
      → (region_mut a r bytes ≡ ok with_written) × (region with_written q ≡ region a q)
  region-region_mut-Disjoint q k d = (
    region_mut_held a r bytes v s h,
    region_held with_written q with_written-IsValid s k'
        ∙ ap ok (kept d)
        ∙ sym (region_held a q v s k),
  )
    where
      k' : Holds with_written q
      k' = record { nonempty = k.nonempty; inside = k.inside }

      kept : Disjoint r q → slice q.offset q.length written ≡ slice q.offset q.length a.storage
      kept (inl before) = ap (take q.length) (
          drop-splice_past a.storage bytes q.offset r.offset (r.offset + r.length) (omega arith)
            before (omega arith))
      kept (inr behind) =
          slice-append_before a.storage _ q.offset q.length r.offset behind (omega arith)

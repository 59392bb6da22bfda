-- ===== src/Primitive/Staging.antt =====
-- The errors of the arena that `promptboot_run_primitive` of crates/promptboot-core/src/lib.rs
-- stages in: each is an error of the primitive ABI.
use promptboot.Prelude.{
  ◌>>=◌, ◌≤◌, length, ok, ◌+◌, checked_add, ends_err, ends_ok, if-cases, ok_or-Ends, fail_if-Ends,
  bind-Ends, Ends, ℕ, ◌≡◌, ◌≢◌, Bool, false, List, Result, fail_if, arith,
}
use promptboot.Status.{PrimitiveStatus, code}
use promptboot.Primitive.Sizes.{arithmetic_overflow-IsError, IsError}
use promptboot.Arena.{
  capacity, arena_error, Arena, ArenaError, Region, new, allocate, seal, region_bounds,
  sum_or_overflow,
}

abbrev pub Errs {μ} : {A : Type μ} → Result ArenaError A → Type μ
Errs m = Ends (λ (e : ArenaError). IsError e.status) (λ a. Unit {0}) m

pub weaken_arena {μ} :
    {A : Type μ} {Q : A → Type 0} {m : Result ArenaError A}
    → Ends (λ (e : ArenaError). IsError e.status) Q m
    → Errs m
weaken_arena (ends_ok h) = ends_ok tt
weaken_arena (ends_err h) = ends_err h

pub stops_arena :
    (b : Bool) (s : PrimitiveStatus) (n m : ℕ)
    → code s ≢ 0
    → Ends (λ (e : ArenaError). IsError e.status) (λ t. b ≡ false) (fail_if b (arena_error s n m))
stops_arena b s n m h = fail_if-Ends b (arena_error s n m) h

pub new-Errs : (address : ℕ) (storage : List ℕ) → Errs (new address storage)
unfolding new code
new-Errs address storage =
    bind-Ends (stops_arena _ PrimitiveStatus.arena_capacity _ _ (omega arith))
      λ _ _. bind-Ends (stops_arena _ PrimitiveStatus.alignment _ _ (omega arith)) λ _ _. ends_ok tt

sum-Errs : (available bytes x y : ℕ) → Errs (sum_or_overflow available bytes x y)
unfolding sum_or_overflow
sum-Errs available bytes x y = weaken_arena (
    ok_or-Ends (checked_add x y) (arena_error PrimitiveStatus.arithmetic_overflow bytes available)
      arithmetic_overflow-IsError)

pub allocate-Errs : (a : Arena) (bytes alignment : ℕ) → Errs (allocate a bytes alignment)
unfolding allocate code
allocate-Errs a bytes alignment =
    bind-Ends (stops_arena _ PrimitiveStatus.arena_sealed _ _ (omega arith)) λ _ _.
      bind-Ends (stops_arena _ PrimitiveStatus.length _ _ (omega arith)) λ _ _.
        bind-Ends (stops_arena _ PrimitiveStatus.alignment _ _ (omega arith)) λ _ _.
          bind-Ends (sum-Errs (capacity a) bytes _ _) λ _ _.
            bind-Ends (sum-Errs (capacity a) bytes _ _) λ _ _.
              bind-Ends (sum-Errs (capacity a) bytes _ _) λ _ _.
                bind-Ends (sum-Errs (capacity a) bytes _ _) λ _ _.
                  bind-Ends (stops_arena _ PrimitiveStatus.arena_capacity _ _ (omega arith))
                    λ _ _. ends_ok tt

pub seal-Errs : (a : Arena) → Errs (seal a)
unfolding seal code
seal-Errs a = if-cases Errs a.sealed _ _ (λ _. ends_err (omega arith)) (λ _. ends_ok tt)

pub region_bounds-Errs : (a : Arena) (r : Region) → Errs (region_bounds a r)
unfolding region_bounds code
region_bounds-Errs a r = bind-Ends (stops_arena _ PrimitiveStatus.length _ _ (omega arith)) λ _ _.
    bind-Ends
      (ok_or-Ends _ (arena_error PrimitiveStatus.arithmetic_overflow r.length a.committed)
        arithmetic_overflow-IsError)
      λ _ _. bind-Ends (stops_arena _ PrimitiveStatus.length _ _ (omega arith)) λ _ _. ends_ok tt

-- What an arena over the scratch buffer is, and where its region lies.
pub new-storage :
    (address : ℕ) (storage : List ℕ) {a : Arena} → new address storage ≡ ok a → a.storage ≡ storage
unfolding new ◌>>=◌
new-storage address storage e = ground arith

pub allocate-Within :
    (a : Arena) (bytes alignment : ℕ) {given : Region × Arena}
    → allocate a bytes alignment ≡ ok given
    → given.0.offset + bytes ≤ length a.storage
unfolding allocate sum_or_overflow ◌>>=◌
allocate-Within a bytes alignment e = ground arith

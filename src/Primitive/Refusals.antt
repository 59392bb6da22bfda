-- ===== src/Primitive/Refusals.antt =====
-- The checks of `promptboot_run_primitive` in crates/promptboot-core/src/lib.rs: what each of them
-- reports where it fails, and what is known where it does not.
use promptboot.Prelude.{
  subst, checked_mul-eq, Ends-weaken, ◌*◌, ◌+◌, ◌≤◌, u32_max, length, not, ◌&&◌, ◌||◌, ends_err,
  ◌==◌, ends_ok, if-cases, ok_or-Ends, fail_if-Ends, bind-Ends, Ends, ℕ, ◌≡◌, ◌≢◌, ◌⊎◌, inl, inr,
  refl, Bool, false, List, Option, none, some, Result, ok, err, fail_if, arith,
}
use promptboot.Status.{PrimitiveStatus, code}
use promptboot.Primitive.{
  primitive_scratch, invalid_empty, no_arena, declared_range, fixed_range, ArenaUsage, ArenaKind,
  PrimitiveRequest, PrimitiveResult, failure,
}
use promptboot.Primitive.Schema.{Schema, schema}
use promptboot.Primitive.Sizes.{arithmetic_overflow-IsError, IsError, schema-Ends}
use promptboot.Arena.{Region, Arena, ArenaError}
use promptboot.Primitive.Run.{
  Ranges, both_overlap, or_arena, or_failed, fail_empty, request_size, result_size, or_bare,
  Response, bare, failed, addresses, header, lengths, alignments, staged,
}
use promptboot.Primitive.Staging.{
  new-storage, allocate-Within, Errs, weaken_arena, stops_arena, new-Errs, allocate-Errs, seal-Errs,
  region_bounds-Errs,
}

-- The call returned an error code, and the result either is untouched or tells the same code and no
-- words.
pub record Refused (r : Response) : Type 0 where
  pub nonzero : r.returned ≢ 0
  pub told :
      (r.result ≡ none)
      ⊎ ((q : PrimitiveResult) × (r.result ≡ some q)
          × (q.status ≡ r.returned)
          × (q.output_words ≡ 0))

bare-Refused : (s : PrimitiveStatus) → code s ≢ 0 → Refused (bare s)
bare-Refused s h = record { nonzero = h; told = inl refl }

pub failed-Refused :
    (r : PrimitiveRequest) (s : PrimitiveStatus) (k : ArenaKind) (i n a : ℕ) (u : Option ArenaUsage)
    → code s ≢ 0
    → Refused (failed r s k i n a u)
unfolding failure
failed-Refused r s k i n a none h = record { nonzero = h; told = inr (_, refl, refl, refl) }
failed-Refused r s k i n a (some u) h = record { nonzero = h; told = inr (_, refl, refl, refl) }

abbrev Only {μ} : {A : Type μ} → Result Response A → Type μ
Only m = Ends Refused (λ a. Unit {0}) m

weaken {μ} : {A : Type μ} {Q : A → Type 0} {m : Result Response A} → Ends Refused Q m → Only m
weaken (ends_ok h) = ends_ok tt
weaken (ends_err h) = ends_err h

-- `return Err` before anything is written, with a status that is no success.
stops :
    (b : Bool) (s : PrimitiveStatus)
    → code s ≢ 0
    → Ends Refused (λ t. b ≡ false) (fail_if b (bare s))
stops b s h = fail_if-Ends b (bare s) (bare-Refused s h)

or_bare-Value :
    {A : Type 0} (m : Result PrimitiveStatus A)
    → Ends (λ s. code s ≢ 0) (λ a. Unit {0}) m
    → Ends Refused (λ a. m ≡ ok a) (or_bare m)
or_bare-Value (ok a) h = ends_ok refl
or_bare-Value (err s) (ends_err h) = ends_err (bare-Refused s h)

fixed_range-Ends : (a n : ℕ) → Ends (λ s. code s ≢ 0) (λ r. Unit {0}) (fixed_range a n)
unfolding fixed_range
fixed_range-Ends a n = bind-Ends (ok_or-Ends _ _ arithmetic_overflow-IsError) (λ e _. ends_ok tt)

declared_range-Ends : (a n : ℕ) → Ends (λ s. code s ≢ 0) (λ r. Unit {0}) (declared_range a n)
unfolding declared_range
declared_range-Ends a n =
    if-cases (Ends (λ s. code s ≢ 0) (λ r. Unit {0})) (a == 0 || n == 0) _ _ (λ _. ends_ok tt)
      (λ _. bind-Ends (fixed_range-Ends a n) (λ e _. ends_ok tt))

-- The ranges that the checks of the addresses give, the result apart from those that are written.
pub record Declared (request result : ℕ) (r : PrimitiveRequest) (s : Ranges) : Type 0 where
  pub result_range : fixed_range result result_size ≡ ok s.result_range
  pub request_range : fixed_range request request_size ≡ ok s.request_range
  pub input_range : declared_range r.input r.input_bytes ≡ ok s.input_range
  pub aux_range : declared_range r.aux r.aux_bytes ≡ ok s.aux_range
  pub output_range : declared_range r.output (r.output_capacity_words * 4) ≡ ok s.output_range
  pub scratch_range : declared_range r.scratch r.scratch_bytes ≡ ok s.scratch_range
  pub result_output : both_overlap (some s.result_range) s.output_range ≡ false
  pub result_scratch : both_overlap (some s.result_range) s.scratch_range ≡ false

pub addresses-Ends :
    (request result : ℕ) (local : PrimitiveRequest)
    → Ends Refused (Declared request result local) (addresses request result local)
unfolding addresses code
addresses-Ends request result local = bind-Ends (stops _ PrimitiveStatus.null (omega arith)) λ _ _.
    bind-Ends (stops _ PrimitiveStatus.alignment (omega arith)) λ _ _.
      bind-Ends (or_bare-Value _ (fixed_range-Ends result result_size)) λ _ e₁.
        bind-Ends (stops _ PrimitiveStatus.null (omega arith)) λ _ _.
          bind-Ends (stops _ PrimitiveStatus.alignment (omega arith)) λ _ _.
            bind-Ends (or_bare-Value _ (fixed_range-Ends request request_size)) λ _ e₂.
              bind-Ends (stops _ PrimitiveStatus.overlap (omega arith)) λ _ _.
                bind-Ends
                  (ok_or-Ends _ _ (bare-Refused PrimitiveStatus.arithmetic_overflow (omega arith)))
                  λ size c. bind-Ends (or_bare-Value _ (declared_range-Ends _ _)) λ _ e₃.
                    bind-Ends (or_bare-Value _ (declared_range-Ends _ _)) λ _ e₄.
                      bind-Ends (or_bare-Value _ (declared_range-Ends local.output size))
                        λ given e₅. bind-Ends (or_bare-Value _ (declared_range-Ends _ _)) λ _ e₆.
                          bind-Ends (stops _ PrimitiveStatus.overlap (omega arith)) λ _ _.
                            bind-Ends (stops _ PrimitiveStatus.overlap (omega arith)) λ _ _.
                              bind-Ends (stops _ PrimitiveStatus.overlap (omega arith)) λ _ o₁.
                                bind-Ends (stops _ PrimitiveStatus.overlap (omega arith)) λ _ o₂.
                                  ends_ok (record {
                                    result_range = e₁;
                                    request_range = e₂;
                                    input_range = e₃;
                                    aux_range = e₄;
                                    output_range =
                                        subst (λ (n : ℕ). declared_range local.output n ≡ ok given)
                                          (checked_mul-eq local.output_capacity_words 4 c).0 e₅;
                                    scratch_range = e₆;
                                    result_output = o₁;
                                    result_scratch = o₂;
                                  })

-- `return write_failure(..)` with a status that is no success.
pub refuses :
    (b : Bool) (r : PrimitiveRequest) (s : PrimitiveStatus) (k : ArenaKind) (i n a : ℕ)
    → code s ≢ 0
    → Ends Refused (λ t. b ≡ false) (fail_if b (failed r s k i n a none))
refuses b r s k i n a h = fail_if-Ends b _ (failed-Refused r s k i n a none h)

or_failed-Value :
    {A : Type 0} {Q : A → Type 0} (r : PrimitiveRequest) (m : Result PrimitiveStatus A)
    → Ends IsError Q m
    → Ends Refused (λ a. m ≡ ok a) (or_failed r m)
or_failed-Value r (ok s) h = ends_ok refl
or_failed-Value r (err s) (ends_err h) = ends_err (failed-Refused r s no_arena 0 0 0 none h)

-- The schema of a request, and the bytes of its output.
pub record Sized (r : PrimitiveRequest) (sized : Schema × ℕ) : Type 0 where
  pub chosen : schema r ≡ ok sized.0
  pub bytes : sized.1 ≡ sized.0.output_words * 4
  pub small : sized.0.output_words ≤ u32_max

pub header-Ends : (r : PrimitiveRequest) → Ends Refused (Sized r) (header r)
unfolding header code
header-Ends r = bind-Ends (refuses _ r PrimitiveStatus.state no_arena _ _ _ (omega arith)) λ _ _.
    bind-Ends (refuses _ r PrimitiveStatus.index no_arena _ _ _ (omega arith)) λ _ _.
      bind-Ends (or_failed-Value r (schema r) (schema-Ends r)) λ s e.
        bind-Ends (refuses _ r PrimitiveStatus.arithmetic_overflow no_arena _ _ _ (omega arith))
          λ _ f.
            bind-Ends
              (ok_or-Ends _ _ (
                failed-Refused r PrimitiveStatus.arithmetic_overflow no_arena _ _ _ none
                  (omega arith)))
              λ _ c. ends_ok (record {
                chosen = e;
                bytes = (checked_mul-eq s.output_words 4 c).0;
                small = ground arith;
              })

fail_empty-Ends :
    (r : PrimitiveRequest) (p n : ℕ)
    → Ends Refused (λ t. p ≡ 0 → n ≡ 0) (fail_empty r (invalid_empty p n))
unfolding invalid_empty code
fail_empty-Ends r p n =
    if-cases (λ o. Ends Refused (λ t. p ≡ 0 → n ≡ 0) (fail_empty r o)) (p == 0 && not (n == 0)) _ _
      (λ _. ends_err (failed-Refused r PrimitiveStatus.null no_arena 0 0 0 none (omega arith)))
      (λ f.
        if-cases (λ o. Ends Refused (λ t. p ≡ 0 → n ≡ 0) (fail_empty r o)) (not (p == 0) && n == 0)
          _ _
          (λ _.
            ends_err (failed-Refused r PrimitiveStatus.length no_arena 0 0 0 none (omega arith)))
          (λ _. ends_ok λ z. ground arith))

-- What is known of a request whose lengths are those of the schema.
pub record Fits (r : PrimitiveRequest) (s : Schema) (output_bytes : ℕ) : Type 0 where
  pub no_input : r.input ≡ 0 → r.input_bytes ≡ 0
  pub no_aux : r.aux ≡ 0 → r.aux_bytes ≡ 0
  pub some_output : r.output ≢ 0
  pub some_scratch : r.scratch ≢ 0
  pub output_room : s.output_words ≤ r.output_capacity_words
  pub scratch_room : output_bytes ≤ r.scratch_bytes

pub lengths-Ends :
    (r : PrimitiveRequest) (s : Schema) (n : ℕ) → Ends Refused (λ t. Fits r s n) (lengths r s n)
unfolding lengths code
lengths-Ends r s n = bind-Ends (fail_empty-Ends r _ _) λ _ i.
    bind-Ends (fail_empty-Ends r _ _) λ _ a. bind-Ends (fail_empty-Ends r _ _) λ _ _.
      bind-Ends (fail_empty-Ends r _ _) λ _ _.
        bind-Ends (refuses _ r PrimitiveStatus.length no_arena _ _ _ (omega arith)) λ _ _.
          bind-Ends (refuses _ r PrimitiveStatus.length no_arena _ _ _ (omega arith)) λ _ _.
            bind-Ends (refuses _ r PrimitiveStatus.length no_arena _ _ _ (omega arith)) λ _ o.
              bind-Ends (refuses _ r PrimitiveStatus.length no_arena _ _ _ (omega arith)) λ _ c.
                bind-Ends
                  (refuses _ r PrimitiveStatus.arena_capacity primitive_scratch _ _ _ (omega arith))
                  λ _ z.
                    Ends-weaken
                      (refuses _ r PrimitiveStatus.arena_capacity primitive_scratch _ _ _
                        (omega arith))
                      λ _ l. record {
                        no_input = i;
                        no_aux = a;
                        some_output = ground arith;
                        some_scratch = ground arith;
                        output_room = ground arith;
                        scratch_room = ground arith;
                      }

pub alignments-Only : (r : PrimitiveRequest) (s : Schema) → Only (alignments r s)
unfolding alignments code
alignments-Only r s =
    bind-Ends (refuses _ r PrimitiveStatus.alignment no_arena _ _ _ (omega arith)) λ _ _.
      bind-Ends (refuses _ r PrimitiveStatus.alignment no_arena _ _ _ (omega arith)) λ _ _.
        bind-Ends (refuses _ r PrimitiveStatus.alignment no_arena _ _ _ (omega arith)) λ _ _.
          weaken (refuses _ r PrimitiveStatus.alignment primitive_scratch _ _ _ (omega arith))

or_arena-Value :
    {A : Type 0} (r : PrimitiveRequest) (u : Option ArenaUsage) (m : Result ArenaError A)
    → Errs m
    → Ends Refused (λ a. m ≡ ok a) (or_arena r u m)
or_arena-Value r u (ok a) h = ends_ok refl
or_arena-Value r u (err e) (ends_err h) =
    ends_err (failed-Refused r e.status primitive_scratch 0 _ _ u h)

-- The region that is staged lies within the scratch buffer.
pub staged-Ends :
    (r : PrimitiveRequest) (scratch : List ℕ) (n : ℕ)
    → Ends Refused
        (λ (out : Region × Arena). out.0.offset + n ≤ length scratch)
        (staged r scratch n)
unfolding staged code
staged-Ends r scratch n = bind-Ends (or_arena-Value r _ _ (new-Errs _ _)) λ fresh e₁.
    bind-Ends (or_arena-Value r _ _ (allocate-Errs _ _ _)) λ given e₂.
      bind-Ends (or_arena-Value r _ _ (seal-Errs _)) λ sealed _.
        bind-Ends
          (or_arena-Value r _ _ (
            weaken_arena (stops_arena (not sealed.sealed) PrimitiveStatus.state 0 0 (omega arith))))
          λ _ _. bind-Ends (or_arena-Value r _ _ (region_bounds-Errs _ _)) λ bounds _. ends_ok (
            subst (λ (xs : List ℕ). given.0.offset + n ≤ length xs)
              (new-storage r.scratch scratch e₁) (allocate-Within fresh n 64 e₂))

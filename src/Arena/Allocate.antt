-- ===== src/Arena/Allocate.antt =====
-- The invariant of `Arena` in crates/promptboot-core/src/arena.rs, and `allocate`.
use promptboot.Prelude.{
  ◌>>=◌, max, leb→le, subst, ◌∙◌, sym, leb, lt→ltb, inr, inl, ◌%◌, ◌<◌, Bool-cases, true, le→ltb, ℕ,
  ◌+◌, ◌-◌, ◌^◌, ◌≤◌, ◌≡◌, false, ltb, ◌==◌, if◌then◌else◌, arith, length, ok,
}
use promptboot.Arena.{
  PrimitiveStatus, arena_error, err, Region, u64_max, sum_or_overflow, Arena, capacity,
  bad_alignment, allocate,
}
use promptboot.Arena.Align.{bad_alignment-lt, bad_alignment-IsAlignment, align_up, align_up_lem}

-- A Rust slice holds at most `isize::MAX` bytes.
abbrev pub slice_max : ℕ
slice_max = 2 ^ 63 - 1

pub record IsValid (a : Arena) : Type 0 where
  pub small : length a.storage ≤ slice_max
  pub within : a.committed ≤ length a.storage
  pub requested_le : a.requested ≤ a.committed
  pub same : a.current ≡ a.requested
  pub high : a.current ≤ a.high_water
  pub high_within : a.high_water ≤ length a.storage

-- The end of the region that `allocate` would hand out.
abbrev pub end_of : Arena → ℕ → ℕ → ℕ
end_of a bytes alignment = align_up a.committed alignment + bytes

-- The arena behind a request that fits.
abbrev pub grown : Arena → ℕ → ℕ → Arena
grown a bytes alignment = record a {
  requested = a.requested + bytes;
  committed = end_of a bytes alignment;
  current = a.current + bytes;
  high_water = if ltb a.high_water (a.current + bytes) then a.current + bytes else a.high_water;
}

sum_or_overflow-ok : (n bytes x y : ℕ) → x + y ≤ u64_max → sum_or_overflow n bytes x y ≡ ok (x + y)
unfolding sum_or_overflow
sum_or_overflow-ok n bytes x y h = rw (le→ltb u64_max (x + y) h)

sum_or_overflow-err :
    (n bytes x y : ℕ)
    → ltb u64_max (x + y) ≡ true
    → sum_or_overflow n bytes x y ≡ err (arena_error PrimitiveStatus.arithmetic_overflow bytes n)
unfolding sum_or_overflow
sum_or_overflow-err n bytes x y h = rw h

-- The three guards at the head of `allocate`, in their order.
pub allocate_guards :
    (a : Arena) (bytes alignment : ℕ)
    → ((a.sealed ≡ true)
        → allocate a bytes alignment
          ≡ err (arena_error PrimitiveStatus.arena_sealed bytes (capacity a)))
      × (a.sealed ≡ false
          → (bytes == 0) ≡ true
          → allocate a bytes alignment ≡ err (arena_error PrimitiveStatus.length 1 0))
      × (a.sealed ≡ false
          → (bytes == 0) ≡ false
          → bad_alignment alignment ≡ true
          → allocate a bytes alignment ≡ err (arena_error PrimitiveStatus.alignment alignment 64))
unfolding allocate ◌>>=◌
allocate_guards a bytes alignment = (λ s. simp s, λ s b. simp (s, b), λ s b g. simp (s, b, g))

-- On a valid arena the first three additions cannot overflow.
module _ (a : Arena) (bytes alignment : ℕ) (v : IsValid a) (s : a.sealed ≡ false)
    (b : (bytes == 0) ≡ false) (g : bad_alignment alignment ≡ false) where
  padded-le : a.committed + (alignment - 1) ≤ u64_max
  padded-le = omega (arith, bad_alignment-lt alignment g)

  -- A request that fits is granted, at the next aligned offset.
  pub allocate_fits :
      end_of a bytes alignment ≤ capacity a
      → allocate a bytes alignment
        ≡ ok (
          record { offset = align_up a.committed alignment; length = bytes },
          grown a bytes alignment,
        )
  unfolding allocate ◌>>=◌
  allocate_fits h =
      simp (s, b, g)
        (rw (
          sum_or_overflow-ok (capacity a) bytes a.committed (alignment - 1) padded-le,
          sum_or_overflow-ok (capacity a) bytes (align_up a.committed alignment) bytes
              (omega arith),
          sum_or_overflow-ok (capacity a) bytes a.requested bytes (omega (arith, up)),
          sum_or_overflow-ok (capacity a) bytes a.current bytes (omega (arith, up)),
          le→ltb (capacity a) (end_of a bytes alignment) h,
        ))
    where
      up : a.committed ≤ align_up a.committed alignment
      up = (align_up_lem alignment a.committed (bad_alignment-IsAlignment alignment g) padded-le).1

  -- A request that does not fit is refused: for an overflow, or with the size that it needs.
  pub allocate_full :
      capacity a < end_of a bytes alignment
      → allocate a bytes alignment
        ≡ err (
            if ltb u64_max (end_of a bytes alignment)
            then arena_error PrimitiveStatus.arithmetic_overflow bytes (capacity a)
            else arena_error PrimitiveStatus.arena_capacity (end_of a bytes alignment) (capacity a))
  unfolding allocate ◌>>=◌
  allocate_full h = elim (Bool-cases (ltb u64_max (end_of a bytes alignment))) [
    | inl over ↦
        simp (s, b, g)
          (rw (
            sum_or_overflow-ok (capacity a) bytes a.committed (alignment - 1) padded-le,
            sum_or_overflow-err (capacity a) bytes (align_up a.committed alignment) bytes over,
            over,
          ))
    | inr fine ↦
        simp (s, b, g)
          (rw (
            sum_or_overflow-ok (capacity a) bytes a.committed (alignment - 1) padded-le,
            sum_or_overflow-ok (capacity a) bytes (align_up a.committed alignment) bytes
                (ground arith),
            sum_or_overflow-ok (capacity a) bytes a.requested bytes (ground (arith, up)),
            sum_or_overflow-ok (capacity a) bytes a.current bytes (ground (arith, up)),
            lt→ltb (capacity a) (end_of a bytes alignment) h,
            fine,
          ))
  ]
    where
      up : a.committed ≤ align_up a.committed alignment
      up = (align_up_lem alignment a.committed (bad_alignment-IsAlignment alignment g) padded-le).1

-- What `allocate` promises of the region and of the arena behind it.
pub record Grants (a : Arena) (bytes alignment : ℕ) (r : Region) (a' : Arena) : Type 0 where
  pub valid : IsValid a'
  pub aligned : r.offset % alignment ≡ 0
  pub after : a.committed ≤ r.offset
  pub close : r.offset < a.committed + alignment
  pub size : r.length ≡ bytes
  pub up_to : r.offset + r.length ≡ a'.committed
  pub positive : 0 < bytes
  pub was_open : a.sealed ≡ false
  pub still_open : a'.sealed ≡ false
  pub high_mark : a'.high_water ≡ max a.high_water a'.current
  pub untouched : a'.storage ≡ a.storage

grown-Grants :
    (a : Arena) (bytes alignment : ℕ)
    → IsValid a
    → a.sealed ≡ false
    → (bytes == 0) ≡ false
    → bad_alignment alignment ≡ false
    → end_of a bytes alignment ≤ capacity a
    → Grants a bytes alignment
        (record { offset = align_up a.committed alignment; length = bytes })
        (grown a bytes alignment)
grown-Grants a bytes alignment v s b g h = ground (
  arith,
  align_up_lem alignment a.committed (bad_alignment-IsAlignment alignment g)
      (omega (arith, bad_alignment-lt alignment g)),
)

-- Whatever a valid arena hands out is aligned, lies behind all earlier regions with less than an
-- alignment's gap, ends where the arena's committed part now ends, and leaves the arena valid.
pub allocate-Grants :
    (a : Arena) (bytes alignment : ℕ) {r : Region} {a' : Arena}
    → IsValid a
    → allocate a bytes alignment ≡ ok (r, a')
    → Grants a bytes alignment r a'
allocate-Grants a bytes alignment {r} {a'} v e = elim (Bool-cases a.sealed) [
  | inl s ↦ cc ((allocate_guards a bytes alignment).0 s)
  | inr s ↦ elim (Bool-cases (bytes == 0)) [
    | inl b ↦ cc ((allocate_guards a bytes alignment).1 s b)
    | inr b ↦ elim (Bool-cases (bad_alignment alignment)) [
      | inl g ↦ cc ((allocate_guards a bytes alignment).2 s b g)
      | inr g ↦ elim (Bool-cases (leb (end_of a bytes alignment) (capacity a))) [
        | inl h ↦ granted s b g (leb→le _ _ h)
        | inr h ↦ cc (allocate_full a bytes alignment v s b g (ground arith))
      ]
    ]
  ]
]
  where
    granted :
        a.sealed ≡ false
        → (bytes == 0) ≡ false
        → bad_alignment alignment ≡ false
        → end_of a bytes alignment ≤ capacity a
        → Grants a bytes alignment r a'
    granted s b g h =
        let d = sym (allocate_fits a bytes alignment v s b g h) ∙ e in
        subst (λ (t : Region × Arena). Grants a bytes alignment t.0 t.1) (cc d)
          (grown-Grants a bytes alignment v s b g h)

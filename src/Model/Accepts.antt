-- ===== src/Model/Accepts.antt =====
-- What the checks of `open_authenticated` in crates/promptboot-core/src/model.rs ask of the header and
-- of the section table.
use promptboot.Prelude.{
  zero, suc, le→ltb, ◌∙◌, suc, subst, ap, some, ℕ, ◌+◌, ◌-◌, ◌*◌, ◌<◌, ◌≤◌, ◌≡◌, refl, List, [],
  ◌∷◌, ◌++◌, bit_and, ltb, get_or, take, All, ◌>>=◌, checked_add, loop, Decides, decides_ok,
  Decides-iff, Within, fail_if-Decides, fail_unless-Decides, bind-Decides, each-Decides,
  loop-Decides, checks-Decides, arith,
}
use promptboot.Model.Errors.{FieldKind, ModelStatus}
use promptboot.Model.Image.{
  Image, u32_at, u64_at, Section, model_bytes, section_offsets, section_lengths, source_hash,
}
use promptboot.Model.Header.{
  magic, expected32, expected64, check_length, check_alignment, check_magic, check32, check64,
  check_source, check_reserved, check_header,
}
use promptboot.Model.Sections.{
  entry_fields, check_entry, check_start, check_gap, read_section, check_end, read_sections,
}

-- The header of the frozen file.
pub record FrozenHeader (m : Image) : Type 0 where
  pub whole : m.byte_count ≡ model_bytes
  pub aligned : bit_and m.address 63 ≡ 0
  pub names : Within (λ at. m.byte at ≡ get_or magic at 0) 0 8
  pub words : All (λ (t : ℕ × (ℕ × (FieldKind × ModelStatus))). u32_at m t.0 ≡ t.1.0) expected32
  pub longs : All (λ (t : ℕ × ℕ). u64_at m t.0 ≡ t.1) expected64
  pub source : Within (λ at. m.byte (128 + at) ≡ get_or source_hash at 0) 0 32
  pub zeros : Within (λ at. m.byte at ≡ 0) 192 256

-- The header check succeeds exactly on the frozen header.
pub check_header-Decides : (m : Image) → Decides (FrozenHeader m) tt (check_header m)
unfolding check_header check_length check_alignment check_magic check32 check64 check_source
    check_reserved
check_header-Decides m =
    Decides-iff
      (λ h.
        let (a, (b, (c, (d, (e, (f, g)))))) = h in
        record { whole = a; aligned = b; names = c; words = d; longs = e; source = f; zeros = g })
      (λ f. (f.whole, (f.aligned, (f.names, (f.words, (f.longs, (f.source, f.zeros)))))))
      (bind-Decides _ (fail_unless-Decides m.byte_count model_bytes _) λ _.
        bind-Decides _ (fail_unless-Decides (bit_and m.address 63) 0 _) λ _.
          bind-Decides _ (checks-Decides _ (check_magic m) 0 8 (λ at. fail_unless-Decides _ _ _))
            λ _.
              bind-Decides _
                (each-Decides _ (check32 m) expected32 (λ t. fail_unless-Decides _ _ _))
                λ _.
                  bind-Decides _
                    (each-Decides _ (check64 m) expected64 (λ t. fail_unless-Decides _ _ _))
                    λ _.
                      bind-Decides _
                        (checks-Decides _ (check_source m) 0 32 (λ at. fail_unless-Decides _ _ _))
                        λ _.
                          checks-Decides _ (check_reserved m) 192 64
                            (λ at. fail_unless-Decides _ _ _))

-- The entry of a section in the table, and the zeros before the section.
pub record FrozenSection (m : Image) (previous_end ordinal : ℕ) : Type 0 where
  pub fields : All (λ (t : ℕ × (ℕ × (FieldKind × ℕ))). t.1.0 ≡ t.0) (entry_fields m ordinal)
  pub starts : u64_at m (256 + ordinal * 64 + 16) ≡ get_or section_offsets ordinal 0
  pub gap : Within (λ at. m.byte at ≡ 0) previous_end (u64_at m (256 + ordinal * 64 + 16))

-- The end of the section before; the first one follows the table.
abbrev pub end_before : ℕ → ℕ
end_before ordinal =
    get_or (704 ∷ 608452 ∷ 1981270 ∷ 2133248 ∷ 3949892 ∷ 3952461 ∷ 3980448 ∷ 426762944 ∷ []) ordinal
      0

abbrev pub frozen_sections : List Section
frozen_sections =
    record { offset = 704; length = 607748 }
    ∷ record { offset = 608512; length = 1372758 }
    ∷ record { offset = 1981312; length = 151936 }
    ∷ record { offset = 2133248; length = 1816644 }
    ∷ record { offset = 3949952; length = 2509 }
    ∷ record { offset = 3952512; length = 27936 }
    ∷ record { offset = 3980480; length = 422782464 }
    ∷ []

-- What the tests after the table look at, at the frozen values of an entry.
abbrev Fits : ℕ → Type 0
Fits i =
    (bit_and (get_or section_offsets i 0) 63 ≡ 0)
    × ((end_before i ≤ get_or section_offsets i 0)
        × ((checked_add (get_or section_offsets i 0) (get_or section_lengths i 0)
              ≡ some (end_before (i + 1)))
            × (take i frozen_sections
                  ++ record {
                    offset = get_or section_offsets i 0;
                    length = get_or section_lengths i 0;
                  }
                    ∷ []
                ≡ take (i + 1) frozen_sections)))

frozen-Fits : (i : ℕ) → i < 7 → Fits i
frozen-Fits zero l = (refl, (omega arith, (refl, refl)))
frozen-Fits (suc zero) l = (refl, (omega arith, (refl, refl)))
frozen-Fits (suc (suc zero)) l = (refl, (omega arith, (refl, refl)))
frozen-Fits (suc (suc (suc zero))) l = (refl, (omega arith, (refl, refl)))
frozen-Fits (suc (suc (suc (suc zero)))) l = (refl, (omega arith, (refl, refl)))
frozen-Fits (suc (suc (suc (suc (suc zero))))) l = (refl, (omega arith, (refl, refl)))
frozen-Fits (suc (suc (suc (suc (suc (suc zero)))))) l = (refl, (omega arith, (refl, refl)))
frozen-Fits (suc (suc (suc (suc (suc (suc (suc i))))))) l = absurd (omega arith)

check_start-Decides :
    (m : Image) (i : ℕ)
    → Fits i
    → Decides
        (u64_at m (256 + i * 64 + 16) ≡ get_or section_offsets i 0)
        tt
        (check_start m i (end_before i))
unfolding check_start
check_start-Decides m i (a, (b, _)) =
    let start : ℕ = u64_at m (256 + i * 64 + 16) in
    Decides-iff (λ h. h.1.1)
      (λ e. (ap (λ (n : ℕ). bit_and n 63) e ∙ a, (le→ltb start (end_before i) (rw e b), e)))
      (bind-Decides _ (fail_unless-Decides (bit_and start 63) 0 _) λ _.
        bind-Decides _ (fail_if-Decides (ltb start (end_before i)) _)
          λ _. fail_unless-Decides start _ _)

check_gap-Decides :
    (m : Image) (i start : ℕ)
    → end_before i ≤ start
    → Decides
        (Within (λ at. m.byte at ≡ 0) (end_before i) start)
        tt
        (loop (λ _ at. check_gap m i (end_before i) at) (end_before i) (start - end_before i) tt)
unfolding check_gap
check_gap-Decides m i start l =
    let e : end_before i + (start - end_before i) ≡ start = omega arith in
    subst
      (λ (stop : ℕ).
        Decides (Within (λ at. m.byte at ≡ 0) (end_before i) stop) tt
          (loop (λ _ at. check_gap m i (end_before i) at) (end_before i) (start - end_before i) tt))
      e
      (checks-Decides _ (check_gap m i (end_before i)) (end_before i) (start - end_before i)
        (λ at. fail_unless-Decides _ _ _))

read_section-Decides :
    (m : Image) (i : ℕ)
    → i < 7
    → Decides
        (FrozenSection m (end_before i) i)
        (take (i + 1) frozen_sections, end_before (i + 1))
        (read_section m (take i frozen_sections, end_before i) i)
unfolding read_section check_entry entry_fields ◌>>=◌
read_section-Decides m i l =
    let fits : Fits i = frozen-Fits i l in
    Decides-iff (λ h. let (a, (b, (c, _))) = h in record { fields = a; starts = b; gap = c })
      (λ f. (f.fields, (f.starts, (f.gap, tt))))
      (bind-Decides _
        (each-Decides _ (check_entry i) (entry_fields m i) (λ t. fail_unless-Decides _ _ _))
        λ h. bind-Decides _ (check_start-Decides m i fits) λ e.
          bind-Decides _ (check_gap-Decides m i (u64_at m (256 + i * 64 + 16)) (rw e fits.1.0))
            λ _. rw (e, h.1.1.1.0, fits.1.1.0, fits.1.1.1) (decides_ok tt))

check_end-Decides : (end : ℕ) → Decides (end ≡ model_bytes) tt (check_end end)
unfolding check_end
check_end-Decides end = fail_unless-Decides end model_bytes _

-- Every section of the frozen table.
abbrev pub FrozenSections : Image → Type 0
FrozenSections m = Within (λ i. FrozenSection m (end_before i) i) 0 7

-- Reading the table succeeds exactly on the frozen one, and gives the frozen sections.
pub read_sections-Decides :
    (m : Image) → Decides (FrozenSections m) frozen_sections (read_sections m)
unfolding read_sections
read_sections-Decides m =
    Decides-iff (λ h. h.0) (λ h. (h, (refl, tt)))
      (bind-Decides _
        (loop-Decides (λ i. FrozenSection m (end_before i) i)
          (λ i. (take i frozen_sections, end_before i)) (read_section m) 0 7
          (λ i _ l _. read_section-Decides m i l))
        λ _. bind-Decides _ (check_end-Decides (end_before 7)) λ _. decides_ok tt)

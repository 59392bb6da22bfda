-- ===== src/Model/Sections.antt =====
-- The section table in `open_authenticated` of crates/promptboot-core/src/model.rs.
use promptboot.Prelude.{
  ℕ, ◌+◌, ◌-◌, ◌*◌, not, List, [], ◌∷◌, ◌++◌, bit_and, ltb, ◌==◌, get_or, Result, ok, ◌>>=◌, ◌>>◌,
  fail_if, ok_or, checked_add, u64_max, loop, each,
}
use promptboot.Model.Errors.{
  field_op_add, status_overlap, status_arithmetic_overflow, status_alignment, field_range_length,
  field_gap_byte, field_range_start, field_element_type, status_padding, domain_section,
  status_section_schema, field_section_id, ModelStatus, FieldKind, ModelError, model_error,
}
use promptboot.Model.Image.{
  Image, u32_at, u64_at, Section, model_bytes, section_offsets, section_lengths, section_counts,
  section_types,
}

-- The fields 0, 1, 2 and 4 of an entry: the one expected, the one there, its kind and its offset.
unfoldable pub entry_fields : Image → ℕ → List (ℕ × (ℕ × (FieldKind × ℕ)))
entry_fields m ordinal =
    let base = 256 + ordinal * 64 in
    (ordinal + 1, (u32_at m base, (field_section_id, 0)))
    ∷ (get_or section_types ordinal 0, (u32_at m (base + 4), (field_element_type, 4)))
    ∷ (get_or section_counts ordinal 0, (u64_at m (base + 8), (field_range_length, 8)))
    ∷ (get_or section_lengths ordinal 0, (u64_at m (base + 24), (field_range_length, 24)))
    ∷ []

unfoldable pub check_entry : ℕ → ℕ × (ℕ × (FieldKind × ℕ)) → Result ModelError (Unit {0})
check_entry ordinal (expected, (actual, (kind, field_offset))) =
    fail_if (not (actual == expected)) (
      model_error status_section_schema domain_section ordinal (256 + ordinal * 64 + field_offset)
        expected actual kind field_offset)

-- The three tests on the start of a section.
unfoldable pub check_start : Image → ℕ → ℕ → Result ModelError (Unit {0})
check_start m ordinal previous_end = do
  let start = u64_at m (256 + ordinal * 64 + 16)
  let error : ModelStatus → ℕ → ℕ → ModelError = λ status needed available.
      model_error status domain_section ordinal (256 + ordinal * 64 + 16) needed available
        field_range_start 16
  fail_if (not (bit_and start 63 == 0)) (error status_alignment 64 (bit_and start 63))
  fail_if (ltb start previous_end) (error status_overlap previous_end start)
  fail_if (not (start == get_or section_offsets ordinal 0))
      (error status_section_schema (get_or section_offsets ordinal 0) start)

unfoldable pub check_gap : Image → ℕ → ℕ → ℕ → Result ModelError (Unit {0})
check_gap m ordinal previous_end at = fail_if (not (m.byte at == 0)) (
    model_error status_padding domain_section ordinal at 0 (m.byte at) field_gap_byte
      (at - previous_end))

-- A turn of the loop: the sections so far, and the end of the last one.
unfoldable pub read_section : Image → List Section × ℕ → ℕ → Result ModelError (List Section × ℕ)
read_section m (sections, previous_end) ordinal = do
  let start = u64_at m (256 + ordinal * 64 + 16)
  let size = u64_at m (256 + ordinal * 64 + 24)
  each (check_entry ordinal) (entry_fields m ordinal)
  check_start m ordinal previous_end
  loop (λ _ at. check_gap m ordinal previous_end at) previous_end (start - previous_end) tt
  end ← ok_or (checked_add start size) (
      model_error status_arithmetic_overflow domain_section ordinal (256 + ordinal * 64 + 24)
        (u64_max - start) size field_op_add 0)
  ok (sections ++ record { offset = start; length = size } ∷ [], end)

unfoldable pub check_end : ℕ → Result ModelError (Unit {0})
check_end previous_end = fail_if (not (previous_end == model_bytes)) (
    model_error status_section_schema domain_section 6 previous_end model_bytes previous_end
      field_range_length 0)

unfoldable pub read_sections : Image → Result ModelError (List Section)
read_sections m = do table ← loop (read_section m) 0 7 ([], 704); check_end table.1; ok table.0

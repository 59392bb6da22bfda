-- ===== src/Model/Header.antt =====
-- The checks of `open_authenticated` in crates/promptboot-core/src/model.rs up to the sections.
use promptboot.Prelude.{
  ℕ, ◌+◌, ◌-◌, not, List, [], ◌∷◌, bit_and, ◌==◌, get_or, Result, ◌>>◌, fail_if, loop, each,
}
use promptboot.Model.Errors.{
  status_endian, field_reserved_byte, field_digest_byte, field_magic_byte, field_base_alignment,
  field_file_bytes, field_endian, field_header, domain_header, status_version, status_reserved,
  status_identity, status_magic, status_alignment, status_length, field_version, ModelStatus,
  FieldKind, ModelError, model_error, scalar_error,
}
use promptboot.Model.Image.{Image, u32_at, u64_at, model_bytes, context_limit, source_hash}

abbrev pub magic : List ℕ
magic = 80 ∷ 66 ∷ 84 ∷ 81 ∷ 87 ∷ 50 ∷ 53 ∷ 0 ∷ []

-- Offset, value, and what a mismatch reports.
abbrev pub expected32 : List (ℕ × (ℕ × (FieldKind × ModelStatus)))
expected32 =
    (8, (1, (field_version, status_version)))
    ∷ (12, (256, (field_header, status_identity)))
    ∷ (16, (0x01020304, (field_endian, status_endian)))
    ∷ (20, (7, (field_header, status_identity)))
    ∷ (24, (291, (field_header, status_identity)))
    ∷ (28, (151936, (field_header, status_identity)))
    ∷ (32, (151387, (field_header, status_identity)))
    ∷ (36, (context_limit, (field_header, status_identity)))
    ∷ (40, (24, (field_header, status_identity)))
    ∷ (44, (896, (field_header, status_identity)))
    ∷ (48, (4864, (field_header, status_identity)))
    ∷ (52, (14, (field_header, status_identity)))
    ∷ (56, (2, (field_header, status_identity)))
    ∷ (60, (64, (field_header, status_identity)))
    ∷ (64, (151645, (field_header, status_identity)))
    ∷ (68, (151643, (field_header, status_identity)))
    ∷ (72, (151643, (field_header, status_identity)))
    ∷ (76, (0, (field_header, status_identity)))
    ∷ []

abbrev pub expected64 : List (ℕ × ℕ)
expected64 =
    (80, 428730208)
    ∷ (88, model_bytes)
    ∷ (96, 256)
    ∷ (104, 448)
    ∷ (112, 5947744)
    ∷ (120, 422782464)
    ∷ []

unfoldable pub check_length : Image → Result ModelError (Unit {0})
check_length m =
    fail_if (not (m.byte_count == model_bytes))
      (model_error status_length domain_header 0 0 model_bytes m.byte_count field_file_bytes 0)

-- `bytes.as_ptr() as usize & 63`
unfoldable pub check_alignment : Image → Result ModelError (Unit {0})
check_alignment m = fail_if (not (bit_and m.address 63 == 0)) (
    model_error status_alignment domain_header 0 0 64 (bit_and m.address 63) field_base_alignment 0)

unfoldable pub check_magic : Image → ℕ → Result ModelError (Unit {0})
check_magic m at = fail_if (not (m.byte at == get_or magic at 0)) (
    model_error status_magic domain_header at at (get_or magic at 0) (m.byte at) field_magic_byte
      at)

unfoldable pub check32 : Image → ℕ × (ℕ × (FieldKind × ModelStatus)) → Result ModelError (Unit {0})
check32 m (offset, (expected, (kind, status))) =
    fail_if (not (u32_at m offset == expected))
      (scalar_error status offset expected (u32_at m offset) kind)

unfoldable pub check64 : Image → ℕ × ℕ → Result ModelError (Unit {0})
check64 m (offset, expected) =
    fail_if (not (u64_at m offset == expected))
      (scalar_error status_identity offset expected (u64_at m offset) field_header)

unfoldable pub check_source : Image → ℕ → Result ModelError (Unit {0})
check_source m at = fail_if (not (m.byte (128 + at) == get_or source_hash at 0)) (
    model_error status_identity domain_header (128 + at) (128 + at) (get_or source_hash at 0)
      (m.byte (128 + at)) field_digest_byte at)

unfoldable pub check_reserved : Image → ℕ → Result ModelError (Unit {0})
check_reserved m at =
    fail_if (not (m.byte at == 0))
      (model_error status_reserved domain_header at at 0 (m.byte at) field_reserved_byte (at - 192))

unfoldable pub check_header : Image → Result ModelError (Unit {0})
check_header m = do
  check_length m
  check_alignment m
  loop (λ _ at. check_magic m at) 0 8 tt
  each (check32 m) expected32
  each (check64 m) expected64
  loop (λ _ at. check_source m at) 0 32 tt
  loop (λ _ at. check_reserved m at) 192 64 tt

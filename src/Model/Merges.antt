-- ===== src/Model/Merges.antt =====
-- The merges and the template in `validate_tokenizer` of crates/promptboot-core/src/model.rs.
use promptboot.Prelude.{
  ℕ, ◌+◌, ◌-◌, ◌*◌, zero, suc, Bool, not, ◌&&◌, List, [], ◌∷◌, ◌++◌, Option, none, some, leb, ◌==◌,
  if◌then◌else◌, length, get_or, Result, ok, err, ◌>>=◌, ◌>>◌, fail_if, loop, each,
}
use promptboot.Sha256.{Sha256, new, update, finish}
use promptboot.Sha256.Compress.{Chain}
use promptboot.Model.Errors.{
  field_concat_byte, field_utf8_byte, field_template_byte, field_digest_byte, field_range_length,
  field_merge_result, field_merge_duplicate, domain_chat, field_merge_right, domain_merge,
  status_utf8, field_merge_left, status_tokenizer_schema, FieldKind, ModelError, model_error,
}
use promptboot.Model.Image.{Image, Section, u32_at, read, vocab_count, merge_count, merge_digest}
use promptboot.Model.Digests.{digest_mismatch}
use promptboot.Model.Tokens.{le_bytes, check_text, validate_tokens}

-- The first of the merges before `rank` with the same two sides, with the rounds that are left.
unfoldable pub duplicate_from : Image → ℕ → ℕ → ℕ → ℕ → ℕ → Option ℕ
duplicate_from m merge_base left right first_rank zero = none
duplicate_from m merge_base left right first_rank (suc rounds) =
    let first = merge_base + first_rank * 12 in
    let rest = duplicate_from m merge_base left right (first_rank + 1) rounds in
    if (u32_at m first == left) && (u32_at m (first + 4) == right) then some first_rank else rest

unfoldable pub prior_duplicate_merge : Image → ℕ → ℕ → ℕ → ℕ → Option ℕ
prior_duplicate_merge m merge_base rank left right = duplicate_from m merge_base left right 0 rank

unfoldable pub duplicate_merge_error : ℕ → ℕ → ℕ → ModelError
duplicate_merge_error rank at first_rank =
    model_error status_tokenizer_schema domain_merge rank at first_rank rank field_merge_duplicate 0

-- A merge that does not fit is reported as a duplicate where it is one.
unfoldable pub blame : Image → ℕ → ℕ → ℕ → ℕ → ModelError → ModelError
blame m merge_base rank left right error =
    elim (prior_duplicate_merge m merge_base rank left right) [
      | none ↦ error
      | some first_rank ↦ duplicate_merge_error rank (merge_base + rank * 12) first_rank
    ]

unfoldable pub check_member : ℕ → ℕ × (FieldKind × ℕ) → Result ModelError (Unit {0})
check_member rank (value, (kind, off)) =
    fail_if (leb vocab_count value)
      (model_error status_tokenizer_schema domain_merge rank off vocab_count value kind 0)

unfoldable pub check_members : Image → ℕ → ℕ → Result ModelError (Unit {0})
check_members m at rank = each (check_member rank) (
    (u32_at m at, (field_merge_left, at))
    ∷ (u32_at m (at + 4), (field_merge_right, at + 4))
    ∷ (u32_at m (at + 8), (field_merge_result, at + 8))
    ∷ [])

-- The loop along the bytes of the two sides; `error` makes the error at a place of them.
unfoldable pub check_concat :
    (ℕ → ℕ → ModelError) → Image → ℕ → ℕ → List ℕ → Result ModelError (Unit {0})
check_concat error m start concat [] = ok tt
check_concat error m start concat (byte ∷ bytes) =
    fail_if (not (m.byte (start + concat) == byte)) (error concat byte)
    >> check_concat error m start (concat + 1) bytes

-- The text of a token by the offsets.
abbrev pub token_start : Image → ℕ → ℕ → ℕ
token_start m offsets id = u32_at m (offsets + id * 4)

abbrev pub token_length : Image → ℕ → ℕ → ℕ
token_length m offsets id = u32_at m (offsets + (id + 1) * 4) - u32_at m (offsets + id * 4)

abbrev pub token_text : Image → ℕ → ℕ → ℕ → List ℕ
token_text m offsets token_base id =
    read m (token_base + token_start m offsets id) (token_length m offsets id)

-- The result of a merge is as long as its two sides, and is the one behind the other.
unfoldable pub check_result : Image → ℕ → ℕ → ℕ → ℕ → Result ModelError (Unit {0})
check_result m offsets token_base merge_base rank = do
  let at = merge_base + rank * 12
  let left = u32_at m at
  let right = u32_at m (at + 4)
  let result = u32_at m (at + 8)
  let start = token_base + token_start m offsets result
  let expected_len = token_length m offsets left + token_length m offsets right
  fail_if (not (token_length m offsets result == expected_len)) (
      blame m merge_base rank left right (
        model_error status_tokenizer_schema domain_merge rank start expected_len
          (token_length m offsets result) field_range_length 0))
  check_concat
      (λ concat byte. blame m merge_base rank left right (
        model_error status_tokenizer_schema domain_merge rank (start + concat) byte
          (m.byte (start + concat)) field_concat_byte concat))
      m start 0 (token_text m offsets token_base left ++ token_text m offsets token_base right)

-- The scan of a table whose hash is wrong.
unfoldable pub check_duplicate : Image → ℕ → ℕ → Result ModelError (Unit {0})
check_duplicate m merge_base rank =
    let at = merge_base + rank * 12 in
    elim (prior_duplicate_merge m merge_base rank (u32_at m at) (u32_at m (at + 4))) [
      | none ↦ ok tt
      | some first_rank ↦ err (duplicate_merge_error rank at first_rank)
    ]

-- The error of the hash, behind that scan.
abbrev pub scan_first : Image → ℕ → Option ModelError → Result ModelError (Unit {0})
scan_first m merge_base none = ok tt
scan_first m merge_base (some error) =
    loop (λ _ rank. check_duplicate m merge_base rank) 1 (merge_count - 1) tt >> err error

unfoldable pub check_merge_digest : Image → ℕ → List ℕ → Result ModelError (Unit {0})
check_merge_digest m merge_base digest = scan_first m merge_base (
    digest_mismatch status_tokenizer_schema domain_merge 0 merge_base merge_digest digest
      field_digest_byte)

unfoldable pub check_brace : Image → Section → Result ModelError (Unit {0})
check_brace m s = fail_if (not (m.byte s.offset == 123)) (
    model_error status_tokenizer_schema domain_chat 0 s.offset 123 (m.byte s.offset)
      field_template_byte 0)

unfoldable pub check_template : Image → Section → Result ModelError (Unit {0})
check_template m s = do
  let template = read m s.offset s.length
  check_brace m s
  check_text
      (λ valid.
        model_error status_utf8 domain_chat 0 (s.offset + valid) 0 (get_or template valid 0)
          field_utf8_byte 1)
      template

module _ (available : Bool) (rounds_ni : Chain → List ℕ → Chain) where
  -- The bytes of a merge, as they are hashed.
  unfoldable pub hash_merge : Image → ℕ → ℕ → ℕ → Sha256 → ℕ → Sha256
  hash_merge m offsets token_base merge_base hash rank =
      let left = token_text m offsets token_base (u32_at m (merge_base + rank * 12)) in
      let right = token_text m offsets token_base (u32_at m (merge_base + rank * 12 + 4)) in
      let sized = update available rounds_ni hash (le_bytes 8 (length left + 1 + length right)) in
      update available rounds_ni
        (update available rounds_ni (update available rounds_ni sized left) (32 ∷ [])) right

  -- A turn of the loop.
  unfoldable pub validate_merge : Image → ℕ → ℕ → ℕ → Sha256 → ℕ → Result ModelError Sha256
  validate_merge m offsets token_base merge_base hash rank = do
    let at = merge_base + rank * 12
    check_members m at rank
    fail_if (leb 151643 (u32_at m (at + 8))) (
        model_error status_tokenizer_schema domain_merge rank (at + 8) 151643 (u32_at m (at + 8))
          field_merge_result 1)
    check_result m offsets token_base merge_base rank
    ok (hash_merge m offsets token_base merge_base hash rank)

  unfoldable pub validate_tokenizer : Image → List Section → Result ModelError (Unit {0})
  validate_tokenizer m sections = do
    let none_there : Section = record { offset = 0; length = 0 }
    let offsets = (get_or sections 0 none_there).offset
    let token_base = (get_or sections 1 none_there).offset
    let type_base = (get_or sections 2 none_there).offset
    let merge_base = (get_or sections 3 none_there).offset
    validate_tokens available rounds_ni m offsets token_base type_base
    hash ← loop (validate_merge m offsets token_base merge_base) 0 merge_count new
    check_merge_digest m merge_base (finish available rounds_ni hash)
    check_template m (get_or sections 4 none_there)

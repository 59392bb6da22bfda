-- ===== src/Model/Errors.antt =====
-- The errors of crates/promptboot-core/src/model.rs: codes, the record that carries them, and the
-- comparison of two hashes.
use promptboot.Prelude.{ℕ, ◌+◌, ◌*◌, ◌^◌}

pub data ModelStatus : Type 0 where
  status_ok status_length status_full_hash status_magic status_version : ModelStatus
  status_endian status_identity status_reserved status_arithmetic_overflow : ModelStatus
  status_alignment status_order status_overlap status_padding status_section_hash : ModelStatus
  status_tensor_hash status_content_hash status_section_schema status_tensor_schema : ModelStatus
  status_tokenizer_schema status_utf8 status_token_id status_input : ModelStatus
  status_output_capacity status_scratch_capacity status_index_capacity : ModelStatus
  status_index_alignment status_index_corrupt status_state : ModelStatus

-- `as u32`
unfoldable pub status_code : ModelStatus → ℕ
status_code status_ok = 0
status_code status_length = 1
status_code status_full_hash = 2
status_code status_magic = 3
status_code status_version = 4
status_code status_endian = 5
status_code status_identity = 6
status_code status_reserved = 7
status_code status_arithmetic_overflow = 8
status_code status_alignment = 9
status_code status_order = 10
status_code status_overlap = 11
status_code status_padding = 12
status_code status_section_hash = 13
status_code status_tensor_hash = 14
status_code status_content_hash = 15
status_code status_section_schema = 16
status_code status_tensor_schema = 17
status_code status_tokenizer_schema = 18
status_code status_utf8 = 19
status_code status_token_id = 20
status_code status_input = 21
status_code status_output_capacity = 22
status_code status_scratch_capacity = 23
status_code status_index_capacity = 24
status_code status_index_alignment = 25
status_code status_index_corrupt = 26
status_code status_state = 27

pub data ErrorDomain : Type 0 where
  domain_none domain_header domain_section domain_tensor domain_token domain_merge : ErrorDomain
  domain_chat domain_index domain_user domain_rendered_output domain_token_output : ErrorDomain
  domain_piece_output domain_scratch : ErrorDomain

-- `as u32`
unfoldable pub domain_code : ErrorDomain → ℕ
domain_code domain_none = 0
domain_code domain_header = 1
domain_code domain_section = 2
domain_code domain_tensor = 3
domain_code domain_token = 4
domain_code domain_merge = 5
domain_code domain_chat = 6
domain_code domain_index = 7
domain_code domain_user = 8
domain_code domain_rendered_output = 9
domain_code domain_token_output = 10
domain_code domain_piece_output = 11
domain_code domain_scratch = 12

pub data FieldKind : Type 0 where
  field_none field_file_bytes field_base_alignment field_digest_byte : FieldKind
  field_magic_byte field_version field_endian field_header field_reserved_byte : FieldKind
  field_section_id field_element_type field_range_start field_range_length : FieldKind
  field_order field_gap_byte field_tensor_id field_layer field_role field_dtype : FieldKind
  field_rank field_dimension field_block_length field_token_offset field_token_type : FieldKind
  field_utf8_byte field_merge_left field_merge_right field_merge_result : FieldKind
  field_merge_duplicate field_concat_byte field_template_byte field_index_hash_byte : FieldKind
  field_index_max_displacement field_index_max_cluster field_index_hit_bound : FieldKind
  field_index_miss_bound field_user_byte field_token_id field_capacity field_state : FieldKind
  field_op_add field_op_mul field_op_usize : FieldKind

-- `as u32`
unfoldable pub field_code : FieldKind → ℕ
field_code field_none = 0
field_code field_file_bytes = 1
field_code field_base_alignment = 2
field_code field_digest_byte = 3
field_code field_magic_byte = 4
field_code field_version = 5
field_code field_endian = 6
field_code field_header = 7
field_code field_reserved_byte = 8
field_code field_section_id = 9
field_code field_element_type = 10
field_code field_range_start = 11
field_code field_range_length = 12
field_code field_order = 13
field_code field_gap_byte = 14
field_code field_tensor_id = 15
field_code field_layer = 16
field_code field_role = 17
field_code field_dtype = 18
field_code field_rank = 19
field_code field_dimension = 20
field_code field_block_length = 21
field_code field_token_offset = 22
field_code field_token_type = 23
field_code field_utf8_byte = 24
field_code field_merge_left = 25
field_code field_merge_right = 26
field_code field_merge_result = 27
field_code field_merge_duplicate = 28
field_code field_concat_byte = 29
field_code field_template_byte = 30
field_code field_index_hash_byte = 31
field_code field_index_max_displacement = 32
field_code field_index_max_cluster = 33
field_code field_index_hit_bound = 34
field_code field_index_miss_bound = 35
field_code field_user_byte = 36
field_code field_token_id = 37
field_code field_capacity = 38
field_code field_state = 39
field_code field_op_add = 40
field_code field_op_mul = 41
field_code field_op_usize = 42

unfoldable pub detail : FieldKind → ℕ → ℕ
detail kind sub = field_code kind * 2 ^ 32 + sub

pub record ModelError : Type 0 where
  pub status : ℕ
  pub domain : ℕ
  pub index : ℕ
  pub reserved : ℕ
  pub offset : ℕ
  pub needed : ℕ
  pub available : ℕ
  pub detail_word : ℕ

unfoldable pub model_error : ModelStatus → ErrorDomain → ℕ → ℕ → ℕ → ℕ → FieldKind → ℕ → ModelError
model_error failed part at from wanted found kind sub = record {
  status = status_code failed;
  domain = domain_code part;
  index = at;
  reserved = 0;
  offset = from;
  needed = wanted;
  available = found;
  detail_word = detail kind sub;
}

abbrev pub scalar_error : ModelStatus → ℕ → ℕ → ℕ → FieldKind → ModelError
scalar_error failed from wanted found kind =
    model_error failed domain_header from from wanted found kind 0

-- ===== src/Model/Tokens.antt =====
-- The tokens in `validate_tokenizer` of crates/promptboot-core/src/model.rs: offsets, texts, types and
-- their hashes. The parameters are those of the hash.
use promptboot.Prelude.{
  ℕ, ◌+◌, ◌-◌, ◌*◌, ◌/◌, ◌%◌, zero, suc, Bool, not, List, [], ◌∷◌, Option, none, some, ltb, leb,
  ◌==◌, if◌then◌else◌, length, get_or, set, Result, ok, err, ◌>>=◌, ◌>>◌, fail_if, ok_or, loop,
}
use promptboot.Sha256.{Sha256, new, update, finish}
use promptboot.Sha256.Compress.{Chain}
use promptboot.Model.Errors.{
  field_utf8_byte, status_utf8, field_range_length, field_digest_byte, field_token_type,
  field_token_offset, domain_token, status_tokenizer_schema, ModelError, model_error,
}
use promptboot.Model.Image.{Image, u32_at, read, vocab_count, token_digest, type_digest}
use promptboot.Model.Text.{from_utf8}
use promptboot.Model.Digests.{digest_mismatch, reject}

-- `to_le_bytes`
unfoldable pub le_bytes : ℕ → ℕ → List ℕ
le_bytes zero n = []
le_bytes (suc k) n = n % 256 ∷ le_bytes k (n / 256)

-- What the loop over the tokens keeps.
pub record TokenScan : Type 0 where
  pub prior : ℕ
  pub counts : List ℕ
  pub token_canonical : Sha256
  pub type_canonical : Sha256

unfoldable pub scan_start : TokenScan
scan_start = record {
  prior = 0;
  counts = 0 ∷ 0 ∷ 0 ∷ 0 ∷ [];
  token_canonical = new;
  type_canonical = new;
}

-- The place of a token type among the counts.
unfoldable pub count_index : ℕ → Option ℕ
count_index token_type =
    if token_type == 1
    then some 0
    else if token_type == 3
    then some 1
    else if token_type == 4
    then some 2
    else if token_type == 5
    then some 3
    else none

-- `if let Err(error) = ...`, with the error made by `error`.
abbrev pub or_error : (ℕ → ModelError) → Option ℕ → Result ModelError (Unit {0})
or_error error none = ok tt
or_error error (some at) = err (error at)

-- A text in UTF-8.
unfoldable pub check_text : (ℕ → ModelError) → List ℕ → Result ModelError (Unit {0})
check_text error text = or_error error (from_utf8 text)

-- The first entry of the offsets.
unfoldable pub check_first : Image → ℕ → Result ModelError (Unit {0})
check_first m offsets = fail_if (not (u32_at m offsets == 0)) (
    model_error status_tokenizer_schema domain_token 0 offsets 0 (u32_at m offsets)
      field_token_offset 0)

-- The last entry of the offsets.
unfoldable pub check_last : ℕ → ℕ → Result ModelError (Unit {0})
check_last offsets prior = fail_if (not (prior == 1372758)) (
    model_error status_tokenizer_schema domain_token vocab_count (offsets + vocab_count * 4) 1372758
      prior field_token_offset 2)

abbrev pub expected_counts : List ℕ
expected_counts = 151643 ∷ 20 ∷ 2 ∷ 271 ∷ []

unfoldable pub check_count : ℕ → List ℕ → ℕ → Result ModelError (Unit {0})
check_count type_base counts at =
    fail_if (not (get_or counts at 0 == get_or expected_counts at 0)) (
      model_error status_tokenizer_schema domain_token 0 type_base (get_or expected_counts at 0)
        (get_or counts at 0) field_token_type (at + 1))

module _ (available : Bool) (rounds_ni : Chain → List ℕ → Chain) where
  -- What a token that passes leaves behind.
  unfoldable pub count_token : TokenScan → ℕ → List ℕ → ℕ → ℕ → TokenScan
  count_token scan current token token_type index = record {
    prior = current;
    counts = set scan.counts index (get_or scan.counts index 0 + 1);
    token_canonical =
        update available rounds_ni
          (update available rounds_ni scan.token_canonical (le_bytes 8 (length token))) token;
    type_canonical = update available rounds_ni scan.type_canonical (le_bytes 8 token_type);
  }

  -- A turn of the loop.
  unfoldable pub validate_token : Image → ℕ → ℕ → ℕ → TokenScan → ℕ → Result ModelError TokenScan
  validate_token m offsets token_base type_base scan id = do
    let at = offsets + (id + 1) * 4
    let current = u32_at m at
    let token = read m (token_base + scan.prior) (current - scan.prior)
    let token_type = m.byte (type_base + id)
    fail_if (leb current scan.prior) (
        model_error status_tokenizer_schema domain_token id at (scan.prior + 1) current
          field_token_offset 1)
    fail_if (ltb 1372758 current) (
        model_error status_tokenizer_schema domain_token id at 1372758 current field_range_length 0)
    check_text
        (λ valid.
          model_error status_utf8 domain_token id (token_base + scan.prior + valid) 0
            (get_or token valid 0) field_utf8_byte valid)
        token
    index ← ok_or (count_index token_type) (
        model_error status_tokenizer_schema domain_token id (type_base + id) 58 token_type
          field_token_type 0)
    ok (count_token scan current token token_type index)

  unfoldable pub validate_tokens : Image → ℕ → ℕ → ℕ → Result ModelError (Unit {0})
  validate_tokens m offsets token_base type_base = do
    check_first m offsets
    scan ← loop (validate_token m offsets token_base type_base) 0 vocab_count scan_start
    check_last offsets scan.prior
    loop (λ _ at. check_count type_base scan.counts at) 0 4 tt
    reject (
        digest_mismatch status_tokenizer_schema domain_token 0 token_base token_digest
          (finish available rounds_ni scan.token_canonical) field_digest_byte)
    reject (
        digest_mismatch status_tokenizer_schema domain_token 0 type_base type_digest
          (finish available rounds_ni scan.type_canonical) field_digest_byte)

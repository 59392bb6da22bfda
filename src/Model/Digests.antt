-- ===== src/Model/Digests.antt =====
-- `digest_mismatch` of crates/promptboot-core/src/model.rs.
use promptboot.Prelude.{
  ℕ, zero, suc, ◌+◌, not, List, Option, none, some, ◌==◌, if◌then◌else◌, get_or, Result, ok, err,
}
use promptboot.Model.Errors.{
  field_digest_byte, domain_header, status_full_hash, ModelStatus, ErrorDomain, FieldKind,
  ModelError, model_error,
}

module _ (status : ModelStatus) (domain : ErrorDomain) (index offset : ℕ) (expected actual : List ℕ)
    (kind : FieldKind) where
  -- The loop, with the rounds that are left.
  unfoldable pub mismatch_from : ℕ → ℕ → Option ModelError
  mismatch_from at zero = none
  mismatch_from at (suc rounds) =
      let rest = mismatch_from (at + 1) rounds in
      if not (get_or expected at 0 == get_or actual at 0)
      then some (
          model_error status domain index offset (get_or expected at 0) (get_or actual at 0) kind
            at)
      else rest

  unfoldable pub digest_mismatch : Option ModelError
  digest_mismatch = mismatch_from 0 32

-- `ModelError::full_hash_mismatch`
unfoldable pub full_hash_mismatch : List ℕ → List ℕ → Option ModelError
full_hash_mismatch expected actual =
    digest_mismatch status_full_hash domain_header 0 0 expected actual field_digest_byte

-- `if let Some(error) = ... { return Err(error) }`
abbrev pub reject : Option ModelError → Result ModelError (Unit {0})
reject none = ok tt
reject (some e) = err e

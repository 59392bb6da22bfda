-- ===== src/Tokenizer/Construct.antt =====
-- `construct` and `build` of crates/promptboot-core/src/tokenizer.rs. The parameters are those of the
-- hash.
pub mod Built
pub mod Storage
use promptboot.Prelude.{
  ℕ, ◌+◌, ◌*◌, ◌/◌, ◌%◌, ◌^◌, Bool, not, ◌||◌, List, [], ◌∷◌, Option, bit_and, ltb, ◌==◌,
  if◌then◌else◌, u32_max, Result, ok, err, ◌>>=◌, ◌>>◌, fail_if, loop,
}
use promptboot.Sha256.{digest}
use promptboot.Sha256.Compress.{Chain}
use promptboot.Model.Errors.{
  field_state, status_state, field_base_alignment, status_index_alignment, field_capacity,
  field_index_hash_byte, domain_index, status_index_capacity, field_index_miss_bound,
  status_index_corrupt, ModelError, model_error, field_index_max_displacement,
  field_index_max_cluster, field_index_hit_bound,
}
use promptboot.Model.Image.{Image, vocab_count, merge_count, hex32}
use promptboot.Model.Digests.{digest_mismatch, reject}
use promptboot.Model.View.{ModelView}
use promptboot.Tokenizer.Table.{
  Index, table_entries, byte_map, index_error, insert_merge, read_byte_token, copy_byte_token,
  cluster_from, probe_merge, word_bytes, empty_index,
}

abbrev pub index_bytes : ℕ
index_bytes = 4195328

unfoldable pub index_hash : List ℕ
index_hash = hex32 (
    51 ∷ 57 ∷ 51 ∷ 100 ∷ 54 ∷ 57 ∷ 55 ∷ 101 ∷ 99 ∷ 99 ∷ 53 ∷ 51 ∷ 97 ∷ 49 ∷ 50 ∷ 99 ∷ 98 ∷ 52 ∷ 101
    ∷ 97 ∷ 54 ∷ 57 ∷ 52 ∷ 48 ∷ 102 ∷ 48 ∷ 56 ∷ 98 ∷ 102 ∷ 98 ∷ 101 ∷ 56 ∷ 98 ∷ 97 ∷ 52 ∷ 102 ∷ 53
    ∷ 54 ∷ 98 ∷ 99 ∷ 48 ∷ 56 ∷ 48 ∷ 57 ∷ 97 ∷ 54 ∷ 56 ∷ 102 ∷ 98 ∷ 50 ∷ 56 ∷ 97 ∷ 102 ∷ 51 ∷ 99 ∷ 98
    ∷ 99 ∷ 56 ∷ 55 ∷ 99 ∷ 99 ∷ 51 ∷ 50 ∷ 97 ∷ [])

unfoldable pub byte_map_hash : List ℕ
byte_map_hash = hex32 (
    54 ∷ 56 ∷ 54 ∷ 97 ∷ 97 ∷ 53 ∷ 98 ∷ 53 ∷ 98 ∷ 101 ∷ 52 ∷ 55 ∷ 98 ∷ 53 ∷ 56 ∷ 101 ∷ 56 ∷ 98 ∷ 52
    ∷ 101 ∷ 101 ∷ 101 ∷ 55 ∷ 97 ∷ 53 ∷ 54 ∷ 51 ∷ 50 ∷ 57 ∷ 57 ∷ 52 ∷ 100 ∷ 57 ∷ 101 ∷ 51 ∷ 100 ∷ 100
    ∷ 56 ∷ 53 ∷ 49 ∷ 99 ∷ 51 ∷ 102 ∷ 54 ∷ 57 ∷ 98 ∷ 55 ∷ 100 ∷ 100 ∷ 102 ∷ 97 ∷ 98 ∷ 99 ∷ 51 ∷ 57
    ∷ 101 ∷ 49 ∷ 57 ∷ 97 ∷ 97 ∷ 55 ∷ 53 ∷ 53 ∷ 97 ∷ [])

-- The index is the state of a construction: an error carries what was written until then.
abbrev pub leaving {ℓ} : {A : Type ℓ} → Index → Result ModelError A → Result (ModelError × Index) A
leaving index (err e) = err (e, index)
leaving index (ok a) = ok a

-- The result without the index that an error carries.
abbrev pub forgetting {ℓ} : {A : Type ℓ} → Result (ModelError × Index) A → Result ModelError A
forgetting (err (e, index)) = err e
forgetting (ok a) = ok a

-- `first_hash_error`, which compares as `digest_mismatch` does.
unfoldable pub first_hash_error : List ℕ → List ℕ → ℕ → Option ModelError
first_hash_error expected actual offset =
    digest_mismatch status_index_corrupt domain_index 0 offset expected actual field_index_hash_byte

-- The index with the tokens of the bytes.
unfoldable pub byte_tokens : ModelView → Result (ModelError × Index) Index
byte_tokens v = do
  ids ← leaving empty_index (loop (read_byte_token v) 0 vocab_count (λ _. u32_max))
  loop (λ index byte. leaving index (copy_byte_token ids index byte)) 0 256 empty_index

-- The tests on the shape of the finished table.
unfoldable pub check_shape : ModelView → Index → ℕ → Result ModelError (Unit {0})
check_shape v index max_displacement = do
  fail_if (not (max_displacement == 42))
      (index_error field_index_max_displacement 42 max_displacement)
  let max_cluster = cluster_from index 0 0 0 (2 * table_entries)
  fail_if (not (max_cluster == 50)) (index_error field_index_max_cluster 50 max_cluster)
  max_hit ← loop (probe_merge v index) 0 merge_count 0
  fail_if (not (max_hit == 43)) (index_error field_index_hit_bound 43 max_hit)
  fail_if (not (max_cluster + 1 == 51)) (index_error field_index_miss_bound 51 (max_cluster + 1))

pub record TokenizerUsage : Type 0 where
  pub capacity : ℕ
  pub requested : ℕ
  pub committed : ℕ
  pub current : ℕ
  pub high_water : ℕ

pub record FrozenTokenizer : Type 0 where
  pub model : ModelView
  pub index : Index
  pub usage : TokenizerUsage

-- The bytes of an index that stands at the start of a storage.
abbrev pub stored : Index → Image → Image
stored index s = record s {
  byte = λ at. if ltb at index_bytes then index (at / 4) / 256 ^ (at % 4) % 256 else s.byte at;
}

-- `prefix.fill(0)`
abbrev pub cleared : Image → Image
cleared s = record s { byte = λ at. if ltb at index_bytes then 0 else s.byte at }

-- The tests of `build` before it writes.
unfoldable pub check_storage : ModelView → Image → Result ModelError (Unit {0})
check_storage v s = do
  fail_if (ltb s.byte_count index_bytes)
      (model_error status_index_capacity domain_index 0 0 index_bytes s.byte_count field_capacity 0)
  fail_if (not (bit_and s.address 63 == 0)) (
      model_error status_index_alignment domain_index 0 0 64 (bit_and s.address 63)
        field_base_alignment 0)
  fail_if
      (not (v.settings.vocab_count == vocab_count) || not (v.settings.merge_count == merge_count))
      (model_error status_state domain_index 0 0 1 0 field_state 0)
  loop
      (λ _ at.
        fail_if (not (s.byte at == 0))
          (model_error status_state domain_index 0 at 0 (s.byte at) field_state 1))
      0 index_bytes tt

-- `if let Err(error) = construction`, and the value where it succeeds. A construction that fails has
-- written an index too.
unfoldable pub installed :
    ModelView
    → Image
    → Result (ModelError × Index) Index
    → Result ModelError FrozenTokenizer × Image
installed v s (err (e, written)) = (err e, cleared (stored written s))
installed v s (ok index) = (
  ok (record {
    model = v;
    index = index;
    usage = record {
      capacity = s.byte_count;
      requested = index_bytes;
      committed = index_bytes;
      current = index_bytes;
      high_water = index_bytes;
    };
  }),
  stored index s,
)

module _ (available : Bool) (rounds_ni : Chain → List ℕ → Chain) where
  -- The construction, with the index that it leaves where it fails.
  unfoldable pub construct_prefix : ModelView → Result (ModelError × Index) Index
  construct_prefix v = do
    bytes ← byte_tokens v
    merged ← loop (λ s rank. leaving s.0 (insert_merge v s rank)) 0 merge_count (bytes, 0)
    let index = merged.0
    leaving index (check_shape v index merged.1)
    leaving index (
        reject (
          first_hash_error byte_map_hash
            (digest available rounds_ni (word_bytes index byte_map 256)) 4194304))
    leaving index (
        reject
          (first_hash_error index_hash (digest available rounds_ni (word_bytes index 0 1048832)) 0))
    ok index

  -- What it returns.
  unfoldable pub construct : ModelView → Result ModelError Index
  construct v = forgetting (construct_prefix v)

  -- What follows the tests.
  unfoldable pub checked :
      ModelView → Image → Result ModelError (Unit {0}) → Result ModelError FrozenTokenizer × Image
  checked v s (err e) = (err e, s)
  checked v s (ok _) = installed v s (construct_prefix v)

  -- The tokenizer or the error, and the storage.
  unfoldable pub build : ModelView → Image → Result ModelError FrozenTokenizer × Image
  build v s = checked v s (check_storage v s)

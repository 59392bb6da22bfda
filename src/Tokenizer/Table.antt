-- ===== src/Tokenizer/Table.antt =====
-- The index of crates/promptboot-core/src/tokenizer.rs: a hash table of merges with linear probing, and
-- the tokens of single bytes behind it. Every access to it is a `u32_at` or a `put_u32` at a multiple of
-- four, so it is kept by words: word n stands at byte 4 n.
pub mod Entries
pub mod Writing
pub mod Load
pub mod Filling
pub mod Merges
pub mod ByteTokens
use promptboot.Prelude.{
  ℕ, zero, suc, ◌+◌, ◌*◌, ◌/◌, ◌%◌, ◌^◌, Bool, true, false, ◌&&◌, List, [], ◌∷◌, ◌++◌, Option, none,
  some, ltb, leb, ◌==◌, if◌then◌else◌, length, u32_max, Result, ok, err, ◌>>=◌, ◌>>◌, fail_if,
}
use promptboot.Model.Errors.{
  field_state, field_merge_duplicate, domain_merge, domain_index, status_state,
  status_tokenizer_schema, status_index_corrupt, FieldKind, ModelError, model_error,
  field_index_miss_bound,
}
use promptboot.Model.Image.{content}
use promptboot.Model.Tokens.{le_bytes}
use promptboot.Model.View.{ModelView, Merge, token_bytes, merge}
use promptboot.Tokenizer.Alphabet.{encoded_byte}

abbrev pub Index : Type 0
Index = ℕ → ℕ

abbrev pub put : Index → ℕ → ℕ → Index
put index at value k = if k == at then value else index k

abbrev pub table_entries : ℕ
table_entries = 262144

-- The word at `BYTE_MAP_OFFSET`.
abbrev pub byte_map : ℕ
byte_map = 1048576

-- The product wraps at 2^64.
unfoldable pub hash_slot : ℕ → ℕ → ℕ
hash_slot left right = (left * 2 ^ 32 + right) * 0x9e3779b97f4a7c15 % 2 ^ 64 / 2 ^ 46

-- The word of an entry; `& (TABLE_ENTRIES - 1)` stands as the remainder.
abbrev pub entry_word : ℕ → ℕ → ℕ
entry_word initial displacement = 4 * ((initial + displacement) % table_entries)

-- The loop of `lookup`, with the rounds that are left.
unfoldable pub probe : Index → ℕ → ℕ → ℕ → ℕ → ℕ → Option (ℕ × ℕ) × ℕ
probe index left right initial displacement zero = (none, 51)
probe index left right initial displacement (suc rounds) =
    let at = entry_word initial displacement in
    let rest = probe index left right initial (displacement + 1) rounds in
    if index at == u32_max
    then (none, displacement + 1)
    else if index at == left && index (at + 1) == right
    then (some (index (at + 2), index (at + 3)), displacement + 1)
    else rest

unfoldable pub lookup : Index → ℕ → ℕ → Option (ℕ × ℕ) × ℕ
lookup index left right = probe index left right (hash_slot left right) 0 51

unfoldable pub index_error : FieldKind → ℕ → ℕ → ModelError
index_error kind expected actual =
    model_error status_index_corrupt domain_index 0 0 expected actual kind 0

-- The four writes of an entry.
abbrev pub put_entry : Index → ℕ → Merge → Index
put_entry index at m =
    put (put (put (put index at m.left) (at + 1) m.right) (at + 2) m.result) (at + 3) m.rank

-- The inner loop over the merges: the index with the merge in its first free entry, and how far that
-- one is from where it belongs. The loop ends at the number of entries.
unfoldable pub place : Index → Merge → ℕ → ℕ → Result ModelError (Index × ℕ)
place index m displacement zero = err (index_error field_index_miss_bound 51 displacement)
place index m displacement (suc rounds) =
    let at = entry_word (hash_slot m.left m.right) displacement in
    let rest = place index m (displacement + 1) rounds in
    if index at == u32_max
    then ok (put_entry index at m, displacement)
    else if index at == m.left && index (at + 1) == m.right
    then err (
        model_error status_tokenizer_schema domain_merge m.rank 0 (index (at + 3)) m.rank
          field_merge_duplicate 0)
    else rest

-- A turn of the loop over the merges: the index and the largest displacement.
unfoldable pub insert_merge : ModelView → Index × ℕ → ℕ → Result ModelError (Index × ℕ)
insert_merge v (index, max_displacement) rank = do
  m ← merge v rank
  placed ← place index m 0 table_entries
  ok (placed.0, if ltb max_displacement placed.1 then placed.1 else max_displacement)

-- Slices of bytes that are equal.
unfoldable pub same_bytes : List ℕ → List ℕ → Bool
same_bytes [] [] = true
same_bytes [] (b ∷ bs) = false
same_bytes (a ∷ as') [] = false
same_bytes (a ∷ as') (b ∷ bs) = a == b && same_bytes as' bs

-- The loop over the bytes: those without a token yet whose spelling is the piece get this one.
unfoldable pub claim_bytes : List ℕ → ℕ → ℕ → ℕ → Index → Index
claim_bytes piece token byte zero ids = ids
claim_bytes piece token byte (suc rounds) ids = claim_bytes piece token (byte + 1) rounds (
    if (ids byte == u32_max) && same_bytes piece (encoded_byte byte)
    then put ids byte token
    else ids)

-- A turn of the loop over the tokens.
unfoldable pub read_byte_token : ModelView → Index → ℕ → Result ModelError Index
read_byte_token v ids token = do
  piece ← token_bytes v token
  let text = content v.image piece
  ok (if leb (length text) 2 then claim_bytes text token 0 256 ids else ids)

-- A turn of the loop that copies the tokens of the bytes.
unfoldable pub copy_byte_token : Index → Index → ℕ → Result ModelError Index
copy_byte_token ids index byte = do
  fail_if (ids byte == u32_max) (model_error status_state domain_index byte 0 1 0 field_state 0)
  ok (put index (byte_map + byte) (ids byte))

-- The longest run of entries in use, twice round the table; the loop stops at a free entry of the
-- second round.
unfoldable pub cluster_from : Index → ℕ → ℕ → ℕ → ℕ → ℕ
cluster_from index slot max_cluster current zero = max_cluster
cluster_from index slot max_cluster current (suc rounds) =
    let now = if index (entry_word slot 0) == u32_max then 0 else current + 1 in
    let longest = if ltb max_cluster now then now else max_cluster in
    let rest = cluster_from index (slot + 1) longest now rounds in
    if leb table_entries slot && (now == 0) then longest else rest

-- A turn of the loop that looks every merge up.
unfoldable pub probe_merge : ModelView → Index → ℕ → ℕ → Result ModelError ℕ
probe_merge v index max_hit rank = do
  m ← merge v rank
  let probes = (lookup index m.left m.right).1
  ok (if ltb max_hit probes then probes else max_hit)

-- The bytes of some words.
unfoldable pub word_bytes : Index → ℕ → ℕ → List ℕ
word_bytes index at zero = []
word_bytes index at (suc count) = le_bytes 4 (index at) ++ word_bytes index (at + 1) count

-- The storage before the merges: `0xff` in the table, zeros behind it.
abbrev pub empty_index : Index
empty_index k = if ltb k byte_map then u32_max else 0

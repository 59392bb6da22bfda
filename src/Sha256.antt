-- ===== src/Sha256.antt =====
-- crates/promptboot-core/src/sha256.rs: the streaming hash. Two things that the processor brings are
-- parameters: whether it has the SHA instructions, and what the assembly routine
-- `promptboot_sha256_rounds` computes with them from the chain and the round words.
pub mod Compress
pub mod Padding
pub mod Stream
pub mod Digest
pub mod Routine
mod Tests
use promptboot.Prelude.{
  ◌&&◌, ℕ, zero, suc, ◌+◌, ◌-◌, ◌*◌, ◌/◌, ◌%◌, ◌^◌, min, Bool, List, [], ◌∷◌, ◌++◌, leb, ltb, ◌==◌,
  if◌then◌else◌, length, take, drop, replicate, set,
}
use promptboot.Prelude.Slices.{splice}
use promptboot.Sha256.Compress.{
  Chain, initial, message_schedule, compress_scalar, round_words, be_bytes, chain_bytes,
}

pub data Backend : Type 0 where
  unresolved scalar sha_ni : Backend

pub record Sha256 : Type 0 where
  pub chain : Chain
  pub block : List ℕ
  pub used : ℕ
  pub byte_count : ℕ
  pub backend : Backend

unfoldable pub new : Sha256
new = record {
  chain = initial;
  block = replicate 64 0;
  used = 0;
  byte_count = 0;
  backend = unresolved;
}

module _ (available : Bool) (promptboot_sha256_rounds : Chain → List ℕ → Chain) where
  -- The backend that `compress` settles on.
  unfoldable pub resolved : Backend → Backend
  resolved unresolved = if available then sha_ni else scalar
  resolved scalar = scalar
  resolved sha_ni = sha_ni

  -- The `match` of `compress`, on a backend that is resolved.
  unfoldable pub compress_by : Backend → Chain → List ℕ → Chain
  compress_by sha_ni chain schedule = promptboot_sha256_rounds chain (round_words schedule)
  compress_by scalar chain schedule = compress_scalar chain schedule
  compress_by unresolved chain schedule = compress_scalar chain schedule

  unfoldable pub compress : Sha256 → List ℕ → Sha256
  compress s block =
      let backend = resolved s.backend in
      record s { backend = backend; chain = compress_by backend s.chain (message_schedule block) }

  -- The loop of `update` over whole blocks, with what is left of the input.
  unfoldable pub absorb : ℕ → Sha256 → List ℕ → Sha256 × List ℕ
  absorb zero s input = (s, input)
  absorb (suc fuel) s input =
      let rest = absorb fuel (compress s (take 64 input)) (drop 64 input) in
      if leb 64 (length input) then rest else (s, input)

  -- The end of `update`: what is left waits in the block.
  unfoldable pub keep_rest : Sha256 × List ℕ → Sha256
  keep_rest (s, input) = record s {
    block = splice 0 (length input) input s.block;
    used = length input;
  }

  -- `update` behind its first `if`; the length of the input is enough fuel.
  unfoldable pub update_aligned : Sha256 → List ℕ → Sha256
  update_aligned s input = keep_rest (absorb (length input) s input)

  -- The first `if` of `update`, where some bytes wait.
  unfoldable pub update_waiting : Sha256 → List ℕ → Sha256
  update_waiting s input =
      let taken = min (64 - s.used) (length input) in
      let filled = record s {
        block = splice s.used (s.used + taken) (take taken input) s.block;
        used = s.used + taken;
      } in
      if s.used + taken == 64
      then update_aligned (record (compress filled filled.block) { used = 0 }) (drop taken input)
      else filled

  unfoldable pub update : Sha256 → List ℕ → Sha256
  update s input =
      let counted = record s { byte_count = (s.byte_count + length input) % 2 ^ 64 } in
      if s.used == 0 then update_aligned counted input else update_waiting counted input

  -- Calls of `update`, one after the other.
  unfoldable pub update_all : Sha256 → List (List ℕ) → Sha256
  update_all s [] = s
  update_all s (piece ∷ pieces) = update_all (update s piece) pieces

  -- The block is full behind the mark: it is compressed, and the length goes into an empty one.
  unfoldable pub close_full : Sha256 → Sha256
  close_full s = record (compress s (splice s.used 64 (replicate (64 - s.used) 0) s.block)) {
    block = replicate 64 0;
  }

  unfoldable pub close_room : Sha256 → Sha256
  close_room s = record s { block = splice s.used 56 (replicate (56 - s.used) 0) s.block }

  unfoldable pub finish : Sha256 → List ℕ
  finish s =
      let marked = record s { block = set s.block s.used 0x80; used = s.used + 1 } in
      let closed = if ltb 56 marked.used then close_full marked else close_room marked in
      let block = splice 56 64 (be_bytes 8 (s.byte_count * 8 % 2 ^ 64)) closed.block in
      chain_bytes (compress closed block).chain

  unfoldable pub digest : List ℕ → List ℕ
  digest bytes = finish (update new bytes)

-- `leaf7_ebx & (1 << 29) != 0` stands as the bit's arithmetic.
unfoldable pub select_sha_ni : ℕ → ℕ → Bool
select_sha_ni max_basic_leaf leaf7_ebx = leb 7 max_basic_leaf && (leaf7_ebx / 2 ^ 29 % 2 == 1)

-- The registers of leaf 7 are read only where the processor has that leaf.
unfoldable pub sha_ni_available : ℕ → ℕ → Bool
unfolding select_sha_ni
sha_ni_available max_basic_leaf leaf7_ebx =
    select_sha_ni max_basic_leaf (if leb 7 max_basic_leaf then leaf7_ebx else 0)

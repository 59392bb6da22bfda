-- ===== src/Tokenizer/Encode.antt =====
-- How crates/promptboot-core/src/tokenizer.rs turns text into tokens. The scratch buffer has three
-- parts that do not meet: the staged tokens, the segment that is being merged, and the rendered text.
-- Each is a list, of what was written to it since the call began.
pub mod Spelling
pub mod Scan
pub mod Merging
pub mod Spells
pub mod Lossless
pub mod Tagged
use promptboot.Prelude.{
  ℕ, zero, suc, ◌+◌, not, List, [], ◌∷◌, ◌++◌, map, Option, none, some, ltb, leb, ◌==◌,
  if◌then◌else◌, length, take, drop, u32_max, Result, ok, ◌>>=◌, ◌>>◌, fail_if,
}
use promptboot.Model.Errors.{
  field_state, domain_token_output, domain_scratch, status_state, ModelError, model_error,
}
use promptboot.Tokenizer.Pretoken.{Tag, next_user_defined, pretoken_length}
use promptboot.Tokenizer.Table.{Index, byte_map, lookup}

abbrev pub max_tokens : ℕ
max_tokens = 599

abbrev pub max_segment : ℕ
max_segment = 512

abbrev pub im_start : ℕ
im_start = 151644

abbrev pub im_end : ℕ
im_end = 151645

-- What the scan of a segment has found: the rank, the place and the result of the best merge.
pub record Best : Type 0 where
  pub rank : ℕ
  pub at : ℕ
  pub result : ℕ

abbrev pub no_best : Best
no_best = record { rank = u32_max; at = 0; result = 0 }

-- The merge of two neighbours, if it is better than the best one so far.
unfoldable pub improve : Option (ℕ × ℕ) → ℕ → Best → Best
improve none at best = best
improve (some (result, rank)) at best =
    if ltb rank best.rank then record { rank = rank; at = at; result = result } else best

-- The inner loop of `bpe`, from `at` on.
unfoldable pub scan : Index → ℕ → Best → List ℕ → Best
scan index at best [] = best
scan index at best (left ∷ []) = best
scan index at best (left ∷ right ∷ rest) =
    scan index (at + 1) (improve (lookup index left right).0 at best) (right ∷ rest)

-- The result goes to its place, and what is behind the pair moves up.
unfoldable pub merge_at : List ℕ → ℕ → ℕ → List ℕ
merge_at segment at result = take at segment ++ result ∷ drop (at + 2) segment

-- The outer loop of `bpe`. Each round makes the segment one shorter, so its length is enough fuel.
unfoldable pub merge_all : Index → ℕ → List ℕ → List ℕ
merge_all index zero segment = segment
merge_all index (suc fuel) segment =
    let best = scan index 0 no_best segment in
    let rest = merge_all index fuel (merge_at segment best.at best.result) in
    if best.rank == u32_max then segment else rest

-- The tokens of single bytes.
unfoldable pub byte_segment : Index → List ℕ → List ℕ
byte_segment index text = map (λ byte. index (byte_map + byte)) text

unfoldable pub bpe : Index → List ℕ → List ℕ → Result ModelError (List ℕ)
bpe index staged text = do
  fail_if (ltb max_segment (length text))
      (model_error status_state domain_scratch 0 0 max_segment (length text) field_state 0)
  let merged = merge_all index (length text) (byte_segment index text)
  fail_if (ltb max_tokens (length staged + length merged)) (
      model_error status_state domain_token_output 0 0 max_tokens (length staged + length merged)
        field_state 0)
  ok (staged ++ merged)

unfoldable pub control : List ℕ → ℕ → Result ModelError (List ℕ)
control staged token = do
  fail_if (leb max_tokens (length staged)) (
      model_error status_state domain_token_output 0 0 max_tokens (length staged + 1) field_state 0)
  ok (staged ++ token ∷ [])

-- The loop of `regex_fragments`. A fragment has a byte at least, so the length is enough fuel.
unfoldable pub fragments : Index → ℕ → List ℕ → List ℕ → Result ModelError (List ℕ)
fragments index fuel staged [] = ok staged
fragments index zero staged (byte ∷ bytes) = ok staged
fragments index (suc fuel) staged (byte ∷ bytes) =
    let size = pretoken_length (byte ∷ bytes) in
    bpe index staged (take size (byte ∷ bytes)) >>= λ next.
    fragments index fuel next (drop size (byte ∷ bytes))

unfoldable pub regex_fragments : Index → List ℕ → List ℕ → Result ModelError (List ℕ)
regex_fragments index staged text = fragments index (length text) staged text

-- What a turn of `ordinary` does: the text before the tag, and the tag.
unfoldable pub tagged : Index → Tag → List ℕ → List ℕ → Result ModelError (List ℕ)
tagged index tag staged text = do
  before ←
      (if not (tag.at == 0) then regex_fragments index staged (take tag.at text) else ok staged)
  control before tag.token

-- The loop of `ordinary`. A tag has a byte at least, so the length is enough fuel. Where there is no
-- tag, `at` is the length, and nothing is left behind it.
unfoldable pub ordinary_from : Index → ℕ → List ℕ → List ℕ → Result ModelError (List ℕ)
ordinary_from index fuel staged [] = ok staged
ordinary_from index zero staged (byte ∷ bytes) = ok staged
ordinary_from index (suc fuel) staged (byte ∷ bytes) =
    let text = byte ∷ bytes in
    let tag = next_user_defined text in
    let rest = tagged index tag staged text >>= λ next.
    ordinary_from index fuel next (drop (tag.at + tag.size) text) in
    if tag.token == 0
    then (if not (tag.at == 0) then regex_fragments index staged (take tag.at text) else ok staged)
    else rest

unfoldable pub ordinary : Index → List ℕ → List ℕ → Result ModelError (List ℕ)
ordinary index staged text = ordinary_from index (length text) staged text

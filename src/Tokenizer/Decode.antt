-- ===== src/Tokenizer/Decode.antt =====
-- `decode_piece` of crates/promptboot-core/src/tokenizer.rs: the bytes that a token stands for.
pub mod Characters
pub mod RoundTrip
use promptboot.Prelude.{
  ℕ, zero, suc, ◌+◌, ◌-◌, ◌&&◌, ◌||◌, List, [], ◌∷◌, ◌++◌, Option, none, some, ltb, leb, ◌==◌,
  if◌then◌else◌, length, drop, Result, ok, err, ◌>>=◌, ◌>>◌, fail_if, ok_or,
}
use promptboot.Prelude.Slices.{splice}
use promptboot.Utf8.{Utf8Error, point_of}
use promptboot.Model.Errors.{
  field_capacity, status_output_capacity, field_token_id, field_state, domain_piece_output,
  domain_token, status_token_id, status_state, ModelError, model_error,
}
use promptboot.Model.Image.{content, vocab_count}
use promptboot.Model.Text.{lead_width, from_utf8}
use promptboot.Model.Tokens.{or_error}
use promptboot.Model.View.{ModelView, token_bytes, token_type}
use promptboot.Tokenizer.Alphabet.{gpt2_codepoint}
use promptboot.Tokenizer.Encode.{im_end}

pub data PieceKind : Type 0 where
  text eos suppressed : PieceKind

unfoldable pub kind_code : PieceKind → ℕ
kind_code text = 1
kind_code eos = 2
kind_code suppressed = 3

pub record PieceUsage : Type 0 where
  pub kind : ℕ
  pub bytes : ℕ

abbrev pub end_of_text : ℕ
end_of_text = 151643

unfoldable pub piece_kind : ℕ → ℕ → Option PieceKind
piece_kind token_type token =
    if token_type == 1 || token_type == 4
    then some text
    else if token_type == 3 && (token == im_end || token == end_of_text)
    then some eos
    else if token_type == 3 || token_type == 5
    then some suppressed
    else none

-- The error of a token whose bytes are not as they should be.
abbrev pub bad_token : ℕ → ℕ → ModelError
bad_token token found = model_error status_state domain_token token 0 1 found field_state 0

-- The loop that looks for the byte of a character.
unfoldable pub byte_from : ℕ → ℕ → ℕ → Option ℕ
byte_from point byte zero = none
byte_from point byte (suc rounds) =
    let rest = byte_from point (byte + 1) rounds in
    if gpt2_codepoint byte == point then some byte else rest

unfoldable pub byte_of_point : ℕ → Option ℕ
byte_of_point point = byte_from point 0 256

-- A character, before those behind it.
abbrev pub read_char : Result Utf8Error ℕ → List ℕ → List ℕ
read_char (ok point) rest = point ∷ rest
read_char (err _) rest = []

-- `string.chars()` on a text that `from_utf8` accepted. A character has a byte at least.
unfoldable pub chars : ℕ → List ℕ → List ℕ
chars fuel [] = []
chars zero (first ∷ tail) = []
chars (suc fuel) (first ∷ tail) =
    let width = lead_width first in
    read_char (point_of width first tail) (chars fuel (drop (width - 1) tail))

-- The loop over the characters, with the bytes staged so far, of which there is room for 128.
unfoldable pub stage_chars : ℕ → List ℕ → List ℕ → Result ModelError (List ℕ)
stage_chars token staged [] = ok staged
stage_chars token staged (point ∷ points) =
    ok_or (byte_of_point point) (bad_token token point) >>= λ byte.
    fail_if (length staged == 128)
      (model_error status_state domain_piece_output token 0 128 (length staged + 1) field_state 0)
    >> stage_chars token (staged ++ byte ∷ []) points

unfoldable pub stage_text : ModelView → ℕ → ℕ → Result ModelError (List ℕ)
stage_text v token token_type = do
  piece ← token_bytes v token
  let bytes = content v.image piece
  if token_type == 4
      then (fail_if (ltb 128 (length bytes))
            (model_error status_state domain_piece_output token 0 128 (length bytes) field_state 0)
          >> ok bytes)
      else (or_error (λ _. bad_token token 0) (from_utf8 bytes)
          >> stage_chars token [] (chars (length bytes) bytes))

-- The staged bytes of a token, by its kind.
unfoldable pub stage_kind : ModelView → ℕ → ℕ → PieceKind → Result ModelError (List ℕ)
stage_kind v token token_type text = stage_text v token token_type
stage_kind v token token_type eos = ok []
stage_kind v token token_type suppressed = ok []

-- The usage, and the caller's output.
unfoldable pub decode_piece : ModelView → ℕ → List ℕ → Result ModelError (PieceUsage × List ℕ)
decode_piece v token output = do
  fail_if (leb vocab_count token)
      (model_error status_token_id domain_token token 0 vocab_count token field_token_id 0)
  type ← token_type v token
  kind ← ok_or (piece_kind type token) (bad_token token 0)
  staged ← stage_kind v token type kind
  fail_if (ltb (length output) (length staged)) (
      model_error status_output_capacity domain_piece_output 0 0 (length staged) (length output)
        field_capacity 0)
  ok (
    record { kind = kind_code kind; bytes = length staged },
    splice 0 (length staged) staged output,
  )

-- ===== src/Tokenizer/Decode/RoundTrip.antt =====
-- What `decode_piece` of crates/promptboot-core/src/tokenizer.rs gives for an encoded text.
use promptboot.Prelude.{
  ne→==, eq→==, false, true, ℕ, zero, suc, ◌+◌, ◌≤◌, ◌<◌, ◌≡◌, refl, sym, ap, ◌∙◌, List, [], ◌∷◌,
  ◌++◌, map, none, some, ltb, leb, ◌==◌, length, length-append, ok, ◌>>=◌, arith,
}
use mathlib.Core.List.{append_assoc, append-nil}
use native.Mathlib.Decide.{ℕ_discrete}
use promptboot.Prelude.Slices.{splice}
use promptboot.Model.Image.{Slice, content, vocab_count}
use promptboot.Model.View.{ModelView, token_bytes, token_type}
use promptboot.Model.Text.{from_utf8}
use promptboot.Tokenizer.Alphabet.{gpt2_codepoint, encoded_byte}
use promptboot.Tokenizer.Alphabet.Injective.{gpt2_codepoint-injective}
use promptboot.Tokenizer.Encode.Spelling.{Bytes, spelled}
use promptboot.Tokenizer.Decode.{
  kind_code, piece_kind, byte_from, byte_of_point, stage_chars, stage_text, stage_kind,
  decode_piece,
}
use promptboot.Tokenizer.Decode.Characters.{chars-encoded, utf8_error-encoded}

byte_from-gpt2_codepoint :
    (target byte rounds : ℕ)
    → byte ≤ target
    → target < byte + rounds
    → byte_from (gpt2_codepoint target) byte rounds ≡ some target
unfolding byte_from
byte_from-gpt2_codepoint target byte zero a b = absurd (omega arith)
byte_from-gpt2_codepoint target byte (suc rounds) a b = elim (ℕ_discrete byte target) [
  | yes e ↦
      let h : (gpt2_codepoint byte == gpt2_codepoint target) ≡ true =
        eq→== _ _ (ap gpt2_codepoint e) in
      rw h (ap some e)
  | no n ↦
      let h : (gpt2_codepoint byte == gpt2_codepoint target) ≡ false =
        ne→== _ _ (λ e. n (gpt2_codepoint-injective byte target e)) in
      rw h (byte_from-gpt2_codepoint target (byte + 1) rounds (omega arith) (omega arith))
]

byte_of_point-gpt2_codepoint :
    (byte : ℕ) → byte < 256 → byte_of_point (gpt2_codepoint byte) ≡ some byte
unfolding byte_of_point
byte_of_point-gpt2_codepoint byte b =
    byte_from-gpt2_codepoint byte 0 256 (omega arith) (omega arith)

stage_chars-map :
    (token : ℕ) (bytes staged : List ℕ)
    → Bytes bytes
    → length staged + length bytes ≤ 128
    → stage_chars token staged (map gpt2_codepoint bytes) ≡ ok (staged ++ bytes)
unfolding stage_chars ◌>>=◌
stage_chars-map token [] staged b l = ap ok (sym (append-nil staged))
stage_chars-map token (byte ∷ bytes) staged (b, bs) l =
    let e : (length staged == 128) ≡ false = ground arith in
    rw (byte_of_point-gpt2_codepoint byte b, e)
      (stage_chars-map token bytes (staged ++ byte ∷ []) bs
          (omega (arith, length-append staged (byte ∷ [])))
        ∙ ap ok (append_assoc staged (byte ∷ []) bytes))

from_utf8-encoded : (bytes : List ℕ) → Bytes bytes → from_utf8 (spelled encoded_byte bytes) ≡ none
unfolding from_utf8
from_utf8-encoded bytes b = utf8_error-encoded bytes _ 0 b (omega arith)

stage_text-encoded :
    (v : ModelView) (token : ℕ) (piece : Slice) (bytes : List ℕ)
    → token_bytes v token ≡ ok piece
    → content v.image piece ≡ spelled encoded_byte bytes
    → Bytes bytes
    → length bytes ≤ 128
    → stage_text v token 1 ≡ ok bytes
unfolding stage_text ◌>>=◌
stage_text-encoded v token piece bytes p c b l =
    rw
      (
        p,
        c,
        from_utf8-encoded bytes b,
        chars-encoded bytes (length (spelled encoded_byte bytes)) b (omega arith),
      )
      (stage_chars-map token bytes [] b (omega arith))

token_type-known :
    (v : ModelView) (token : ℕ) {kind : ℕ}
    → token_type v token ≡ ok kind
    → leb vocab_count token ≡ false
unfolding token_type
token_type-known v token h = ground arith

-- An ordinary token whose text is the characters of up to 128 bytes decodes to those bytes, if the
-- output has room for them, and what is behind them is kept.
pub decode_piece-encoded :
    (v : ModelView) (token : ℕ) (piece : Slice) (bytes output : List ℕ)
    → token_type v token ≡ ok 1
    → token_bytes v token ≡ ok piece
    → content v.image piece ≡ spelled encoded_byte bytes
    → Bytes bytes
    → length bytes ≤ 128
    → length bytes ≤ length output
    → decode_piece v token output
      ≡ ok (record { kind = 1; bytes = length bytes }, splice 0 (length bytes) bytes output)
unfolding decode_piece piece_kind stage_kind kind_code ◌>>=◌
decode_piece-encoded v token piece bytes output t p c b l m =
    let f : ltb (length output) (length bytes) ≡ false = ground arith in
    rw (token_type-known v token t, t, stage_text-encoded v token piece bytes p c b l, f) refl

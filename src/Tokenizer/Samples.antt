-- ===== src/Tokenizer/Samples.antt =====
-- Examples of the tokenizer of crates/promptboot-core/src/tokenizer.rs on parts of model files.
use promptboot.Prelude.{
  ℕ, ◌-◌, ◌≡◌, refl, true, List, [], ◌∷◌, ◌++◌, ltb, if◌then◌else◌, get_or, ok, ◌>>=◌, Ends, arith,
}
use promptboot.Prelude.Slices.{splice}
use promptboot.ModelContract.{codes}
use promptboot.Sha256.Compress.{Chain}
use promptboot.Model.Errors.{ModelError}
use promptboot.Model.Image.{Image, Slice, content, u32_at, read}
use promptboot.Model.View.{ModelView, config, token_bytes, token_type}
use promptboot.Model.Merges.{token_text}
use promptboot.Model.Open.{open_authenticated}
use promptboot.Tokenizer.Alphabet.{encoded_byte, gpt2_codepoint, stands_for_itself, ordinal_from}
use promptboot.Tokenizer.Pretoken.{tool_call, tool_end}
use promptboot.Tokenizer.Encode.{im_start, im_end}
use promptboot.Tokenizer.Encode.Spelling.{spelled}
use promptboot.Tokenizer.Construct.{construct}
use promptboot.Tokenizer.Decode.{decode_piece}
use promptboot.Tokenizer.Decode.RoundTrip.{decode_piece-encoded}
use promptboot.Tokenizer.Opened.{Renders, construct-Renders}

-- A token with the text of a space and a letter.
abbrev piece_bytes : List ℕ
piece_bytes = 0 ∷ 0 ∷ 0 ∷ 0 ∷ 3 ∷ 0 ∷ 0 ∷ 0 ∷ 1 ∷ 196 ∷ 160 ∷ 97 ∷ []

abbrev piece_view : ModelView
piece_view = record {
  image = record { address = 0; byte_count = 12; byte = λ at. get_or piece_bytes at 0 };
  sections =
      record { offset = 0; length = 8 }
      ∷ record { offset = 9; length = 3 }
      ∷ record { offset = 8; length = 1 }
      ∷ [];
  settings = config;
}

abbrev the_piece : Slice
the_piece = record { start = 9; stop = 12 }

piece_type : token_type piece_view 0 ≡ ok 1
unfolding token_type
piece_type = refl

piece_place : token_bytes piece_view 0 ≡ ok the_piece
unfolding token_bytes u32_at
piece_place = refl

piece_text : content piece_view.image the_piece ≡ spelled encoded_byte (32 ∷ 97 ∷ [])
unfolding read spelled encoded_byte gpt2_codepoint stands_for_itself ordinal_from
piece_text = refl

decode_piece-encoded_example :
    decode_piece piece_view 0 (0 ∷ 0 ∷ 0 ∷ [])
    ≡ ok (record { kind = 1; bytes = 2 }, splice 0 2 (32 ∷ 97 ∷ []) (0 ∷ 0 ∷ 0 ∷ []))
decode_piece-encoded_example =
    decode_piece-encoded piece_view 0 the_piece (32 ∷ 97 ∷ []) (0 ∷ 0 ∷ 0 ∷ []) piece_type
      piece_place piece_text (omega arith, (omega arith, tt)) (omega arith) (omega arith)

-- The ends of the texts of the tokens from 151644 on.
abbrev end_word : ℕ → List ℕ
end_word n = n ∷ 0 ∷ 0 ∷ 0 ∷ []

abbrev end_words : List ℕ
end_words =
    end_word 0
    ++ (end_word 12
        ++ (end_word 22
            ++ (end_word 22
                ++ (end_word 22
                    ++ (end_word 22
                        ++ (end_word 22
                            ++ (end_word 22
                                ++ (end_word 22
                                    ++ (end_word 22
                                        ++ (end_word 22
                                            ++ (end_word 22
                                                ++ (end_word 22
                                                    ++ (end_word 22
                                                        ++ (end_word 33 ++ end_word 45))))))))))))))

abbrev named : Image
named = record {
  address = 0;
  byte_count = 608557;
  byte = λ at.
      if ltb at 607280
      then 0
      else if ltb at 607344
      then get_or end_words (at - 607280) 0
      else get_or (codes "<|im_start|>" ++ (codes "<|im_end|>" ++ (tool_call ++ tool_end)))
          (at - 608512) 0;
}

named-tool_call : token_text named 704 608512 151657 ≡ spelled encoded_byte tool_call
unfolding u32_at read spelled encoded_byte gpt2_codepoint stands_for_itself ordinal_from
named-tool_call = refl

named-tool_end : token_text named 704 608512 151658 ≡ spelled encoded_byte tool_end
unfolding u32_at read spelled encoded_byte gpt2_codepoint stands_for_itself ordinal_from
named-tool_end = refl

named-im_start : token_text named 704 608512 im_start ≡ spelled encoded_byte (codes "<|im_start|>")
unfolding u32_at read spelled encoded_byte gpt2_codepoint stands_for_itself ordinal_from
named-im_start = refl

named-im_end : token_text named 704 608512 im_end ≡ spelled encoded_byte (codes "<|im_end|>")
unfolding u32_at read spelled encoded_byte gpt2_codepoint stands_for_itself ordinal_from
named-im_end = refl

abbrev routine : Chain → List ℕ → Chain
routine chain words = chain

construct-Renders_example :
    Ends
      (λ (_ : ModelError). Unit {0})
      (Renders true routine named)
      (open_authenticated true routine named >>= λ v. construct true routine v)
construct-Renders_example =
    construct-Renders true routine named named-tool_call named-tool_end named-im_start named-im_end

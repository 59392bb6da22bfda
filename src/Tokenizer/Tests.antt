-- ===== src/Tokenizer/Tests.antt =====
-- Examples of the tokenizer of crates/promptboot-core/src/tokenizer.rs, on the one of Toy.
use promptboot.Prelude.{
  ◌⊎◌, Ends, true, ℕ, ◌+◌, ◌≤◌, ◌<◌, ◌≡◌, refl, List, [], ◌∷◌, replicate, loop, arith,
}
use promptboot.Model.Image.{Image}
use promptboot.Sha256.Compress.{Chain}
use promptboot.Model.Errors.{ModelError}
use promptboot.Tokenizer.Pretoken.{next_user_defined, pretoken_length}
use promptboot.Tokenizer.Pretoken.Tags.{FirstTag, NoTagBefore, next_user_defined_lem}
use promptboot.Tokenizer.Pretoken.Bounds.{Fragment, pretoken_length-Fragment}
use promptboot.Tokenizer.Encode.{max_segment, max_tokens, merge_all, ordinary}
use promptboot.Tokenizer.Encode.Spelling.{Bytes}
use promptboot.Tokenizer.Encode.Merging.{Encodes, merge_all-Encodes}
use promptboot.Tokenizer.Encode.Spells.{Spells}
use promptboot.Tokenizer.Encode.Tagged.{ordinary_lem}
use promptboot.Tokenizer.Prompt.Reads.{are_bytes-Bytes}
use promptboot.Tokenizer.Render.{Scratch, render_and_tokenize}
use promptboot.Tokenizer.Render.Delivery.{Outcome, render_and_tokenize-Outcome}
use promptboot.Tokenizer.Conversation.{ConversationUsage, render_conversation_and_tokenize}
use promptboot.Tokenizer.Conversation.Turns.{Turn, render_conversation_and_tokenize-Turn}
use promptboot.Tokenizer.Construct.{build}
use promptboot.Tokenizer.Construct.Storage.{Stored, build-Stored}
use promptboot.Tokenizer.Table.{Index, insert_merge}
use promptboot.Tokenizer.Table.Merges.{MapsMerges, fill-MapsMerges}
use promptboot.ModelContract.{codes}
use promptboot.Tokenizer.Pretoken.{next_user_defined}
use promptboot.Tokenizer.Pretoken.Tags.{next_user_defined_lem, NoTagBefore, FirstTag}
use promptboot.Tokenizer.Encode.{im_start, im_end}
use promptboot.Tokenizer.Encode.Spelling.{Bytes, spelled}
use promptboot.Tokenizer.Toy.{
  toy, toy_start, toy_index, toy_ordinary, toy_distinct, toy_spelling, itself, toy_bytes, toy_joins,
  toy_tags,
}

fill-MapsMerges_example :
    Ends
      (λ (_ : ModelError). ⊥)
      (λ (s : Index × ℕ). (51 ≤ s.1) ⊎ MapsMerges toy 2 s.0 s.1)
      (loop (insert_merge toy) 0 2 (toy_start, 0))
fill-MapsMerges_example =
    fill-MapsMerges toy toy_start toy_ordinary (λ k l. ground arith) 2 (omega arith) toy_distinct

merge_all-Encodes_example :
    Encodes toy_index (97 ∷ 98 ∷ 97 ∷ []) (merge_all toy_index 3 (97 ∷ 98 ∷ 97 ∷ []))
merge_all-Encodes_example = merge_all-Encodes toy_index 3 (97 ∷ 98 ∷ 97 ∷ []) (omega arith)

pretoken_length-Fragment_example :
    Fragment (105 ∷ 116 ∷ 39 ∷ 115 ∷ []) (pretoken_length (105 ∷ 116 ∷ 39 ∷ 115 ∷ []))
pretoken_length-Fragment_example = pretoken_length-Fragment 105 (116 ∷ 39 ∷ 115 ∷ [])

-- A text with a tag in it.
abbrev tagged_text : List ℕ
tagged_text = 97 ∷ 98 ∷ 60 ∷ 116 ∷ 111 ∷ 111 ∷ 108 ∷ 95 ∷ 99 ∷ 97 ∷ 108 ∷ 108 ∷ 62 ∷ 97 ∷ []

next_user_defined_lem_example :
    FirstTag tagged_text 0 (next_user_defined tagged_text)
    × NoTagBefore (next_user_defined tagged_text).at tagged_text
next_user_defined_lem_example = next_user_defined_lem tagged_text

tagged_text-Bytes : Bytes tagged_text
tagged_text-Bytes = are_bytes-Bytes tagged_text refl

ordinary_lem_example :
    Ends
      (λ (_ : ModelError). (max_segment < 14) ⊎ (max_tokens < 1 + 14))
      (Spells itself toy_spelling (7 ∷ []) tagged_text)
      (ordinary toy_index (7 ∷ []) tagged_text)
ordinary_lem_example =
    ordinary_lem itself toy_spelling toy_index toy_bytes toy_joins toy_tags (7 ∷ []) tagged_text
      tagged_text-Bytes

start_mark : toy_spelling im_start ≡ spelled itself (codes "<|im_start|>")
unfolding spelled
start_mark = refl

end_mark : toy_spelling im_end ≡ spelled itself (codes "<|im_end|>")
unfolding spelled
end_mark = refl

abbrev work : Scratch
work = record { address = 4096; bytes = replicate 5120 7 }

abbrev user_text : List ℕ
user_text = 97 ∷ 98 ∷ 33 ∷ []

abbrev text_buffer : List ℕ
text_buffer = replicate 700 1

abbrev token_buffer : List ℕ
token_buffer = replicate 32768 2

render_and_tokenize-Outcome_example :
    Outcome itself toy_spelling user_text text_buffer token_buffer work
      (render_and_tokenize toy_index user_text text_buffer token_buffer work)
render_and_tokenize-Outcome_example =
    render_and_tokenize-Outcome itself toy_spelling toy_index toy_bytes toy_joins toy_tags
      start_mark end_mark user_text text_buffer token_buffer work

abbrev no_report : ConversationUsage
no_report = record {
  rendered_bytes = 0;
  user_tokens = 0;
  fresh_prompt_tokens = 0;
  history_tokens = 0;
  prompt_tokens = 0;
  prefix_tokens = 0;
}

abbrev earlier : List ℕ
earlier = 97 ∷ 151645 ∷ []

render_conversation_and_tokenize-Turn_example :
    Turn itself toy_spelling earlier user_text text_buffer text_buffer token_buffer work no_report (
      render_conversation_and_tokenize toy_index earlier user_text text_buffer text_buffer
        token_buffer work no_report)
render_conversation_and_tokenize-Turn_example =
    render_conversation_and_tokenize-Turn itself toy_spelling toy_index toy_bytes toy_joins toy_tags
      start_mark end_mark earlier user_text text_buffer text_buffer token_buffer work no_report

abbrev routine : Chain → List ℕ → Chain
routine chain words = chain

abbrev storage : Image
storage = record { address = 64; byte_count = 4195400; byte = λ at. 0 }

build-Stored_example : Stored toy storage (build true routine toy storage)
build-Stored_example = build-Stored toy storage true routine toy_ordinary

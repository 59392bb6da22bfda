-- ===== src/Tokenizer/Prompt.antt =====
-- `compute_prompt` of crates/promptboot-core/src/tokenizer.rs: the prompt of one turn.
pub mod Reads
use promptboot.Prelude.{ℕ, ◌-◌, List, [], ◌∷◌, ◌++◌, length, Result, ok, ◌>>=◌}
use promptboot.ModelContract.{codes}
use promptboot.Model.Errors.{ModelError}
use promptboot.Tokenizer.Table.{Index}
use promptboot.Tokenizer.Encode.{im_start, im_end, control, ordinary}

abbrev pub line_end : List ℕ
line_end = 10 ∷ []

unfoldable pub system_text : List ℕ
system_text = codes "You are Qwen, created by Alibaba Cloud. You are a helpful assistant."

unfoldable pub before : List ℕ
before =
    codes "<|im_start|>system"
    ++ (line_end
        ++ (codes "You are Qwen, created by Alibaba Cloud. You are a helpful assistant.<|im_end|>"
            ++ (line_end ++ (codes "<|im_start|>user" ++ line_end))))

unfoldable pub after : List ℕ
after = codes "<|im_end|>" ++ (line_end ++ (codes "<|im_start|>assistant" ++ line_end))

-- The rendered bytes and the tokens, with the counts that are reported.
pub record PromptComputation : Type 0 where
  pub rendered : List ℕ
  pub tokens : List ℕ
  pub prefix_tokens : ℕ
  pub user_tokens : ℕ

-- The tokens before the user's text.
unfoldable pub prefix_part : Index → Result ModelError (List ℕ)
prefix_part index = control [] im_start >>= λ a. ordinary index a (codes "system") >>= λ b.
    ordinary index b line_end >>= λ c. ordinary index c system_text >>= λ d.
    control d im_end >>= λ e. ordinary index e line_end >>= λ f.
    control f im_start >>= λ g. ordinary index g (codes "user") >>= λ h. ordinary index h line_end

-- The tokens behind it.
unfoldable pub suffix_part : Index → List ℕ → Result ModelError (List ℕ)
suffix_part index staged = control staged im_end >>= λ a. ordinary index a line_end >>= λ b.
    control b im_start >>= λ c.
    ordinary index c (codes "assistant") >>= λ d. ordinary index d line_end

unfoldable pub compute_prompt : Index → List ℕ → Result ModelError PromptComputation
compute_prompt index user = do
  prefix ← prefix_part index
  typed ← ordinary index prefix user
  whole ← suffix_part index typed
  ok (record {
    rendered = before ++ (user ++ after);
    tokens = whole;
    prefix_tokens = length prefix;
    user_tokens = length typed - length prefix;
  })

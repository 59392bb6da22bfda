-- ===== src/Tokenizer/Conversation/Ready.antt =====
-- Which calls `render_conversation_and_tokenize` of crates/promptboot-core/src/tokenizer.rs takes.
use promptboot.Prelude.{
  ℕ, ◌≤◌, ◌≡◌, refl, List, [], ◌∷◌, if◌then◌else◌, length, ok, Decides, decides_ok, Decides-iff,
  fail_if-Decides, bind-Decides, ◌⊎◌, inl, inr, arith,
}
use promptboot.Model.Image.{context_limit}
use promptboot.Tokenizer.Encode.{max_tokens, im_end}
use promptboot.Tokenizer.Render.{Scratch}
use promptboot.Tokenizer.Render.Request.{Request, validate_prompt_request-Decides}
use promptboot.Tokenizer.Conversation.{
  last_or, is_empty, validate_conversation_history, check_conversation,
}

-- What a call asks of the history and of the buffers.
pub record Ready (history user : List ℕ) (rendered_len staging_len token_len : ℕ)
    (scratch : Scratch) : Type 0 where
  pub fits : length history ≤ context_limit
  pub closed : (history ≡ []) ⊎ (last_or 0 history ≡ im_end)
  pub staging_room : max_tokens ≤ staging_len
  pub token_room : context_limit ≤ token_len
  pub request : Request user rendered_len staging_len scratch

history-Decides :
    (history : List ℕ)
    → length history ≤ context_limit
    → Decides
        ((history ≡ []) ⊎ (last_or 0 history ≡ im_end))
        tt
        (if is_empty history then ok tt else validate_conversation_history history)
unfolding validate_conversation_history
history-Decides [] l = decides_ok (inl refl)
history-Decides (token ∷ history) l =
    Decides-iff (λ h. inr (ground arith)) (λ h. elim h [ inl e ↦ cc | inr e ↦ ground arith ])
      (fail_if-Decides _ _)

pub check_conversation-Decides :
    (history user : List ℕ) (rendered_len staging_len token_len : ℕ) (scratch : Scratch)
    → Decides
        (Ready history user rendered_len staging_len token_len scratch)
        tt
        (check_conversation history user rendered_len staging_len token_len scratch)
unfolding check_conversation
check_conversation-Decides history user rendered_len staging_len token_len scratch =
    Decides-iff
      (λ p.
        let (a, (b, (c, (d, e)))) = p in
        record {
          fits = ground arith;
          closed = b;
          staging_room = ground arith;
          token_room = ground arith;
          request = e;
        })
      (λ (r : Ready history user rendered_len staging_len token_len scratch).
        (let h1 : length history ≤ context_limit = r.fits in
          let h2 : max_tokens ≤ staging_len = r.staging_room in
          let h3 : context_limit ≤ token_len = r.token_room in
          (ground arith, (r.closed, (ground arith, (ground arith, r.request))))))
      (bind-Decides _ (fail_if-Decides _ _) λ a.
        bind-Decides _ (history-Decides history (ground arith)) λ _.
          bind-Decides _ (fail_if-Decides _ _) λ _.
            bind-Decides _ (fail_if-Decides _ _)
              λ _. validate_prompt_request-Decides user rendered_len staging_len scratch)

-- ===== src/Tokenizer/Render/Request.antt =====
-- Which requests the calls of crates/promptboot-core/src/tokenizer.rs take.
use promptboot.Prelude.{
  ℕ, ◌+◌, ◌≤◌, ◌≡◌, not, ◌&&◌, List, [], ◌∷◌, All, bit_and, leb, length, Decides, decides_ok,
  Decides-iff, fail_if-Decides, fail_unless-Decides, bind-Decides, arith,
}
use promptboot.Tokenizer.Encode.{max_tokens}
use promptboot.Tokenizer.Render.{Scratch, scratch_bytes, check_user_bytes, validate_prompt_request}

-- Printable characters of ASCII.
abbrev pub Printable : List ℕ → Type 0
Printable text = All (λ byte. (32 ≤ byte) × (byte ≤ 126)) text

-- What a call asks of the user's text and of the buffers.
pub record Request (user : List ℕ) (rendered_len token_len : ℕ) (scratch : Scratch) : Type 0 where
  pub short : length user ≤ 512
  pub printable : Printable user
  pub rendered_room : 148 + length user ≤ rendered_len
  pub token_room : max_tokens ≤ token_len
  pub scratch_room : scratch_bytes ≤ length scratch.bytes
  pub aligned : bit_and scratch.address 63 ≡ 0

check_user_bytes-Decides :
    (at : ℕ) (user : List ℕ) → Decides (Printable user) tt (check_user_bytes at user)
unfolding check_user_bytes
check_user_bytes-Decides at [] = decides_ok tt
check_user_bytes-Decides at (byte ∷ bytes) =
    Decides-iff (λ p. ((ground arith, ground arith), p.1))
      (λ q. let ((a, b), c) = q in (ground arith, c))
      (bind-Decides _ (fail_if-Decides (not (leb 32 byte && leb byte 126)) _)
        λ _. check_user_bytes-Decides (at + 1) bytes)

pub validate_prompt_request-Decides :
    (user : List ℕ) (rendered_len token_len : ℕ) (scratch : Scratch)
    → Decides
        (Request user rendered_len token_len scratch)
        tt
        (validate_prompt_request user rendered_len token_len scratch)
unfolding validate_prompt_request
validate_prompt_request-Decides user rendered_len token_len scratch =
    Decides-iff
      (λ p.
        let (a, (b, (c, (d, (e, f))))) = p in
        record {
          short = ground arith;
          printable = b;
          rendered_room = ground arith;
          token_room = ground arith;
          scratch_room = ground arith;
          aligned = f;
        })
      (λ (r : Request user rendered_len token_len scratch).
        (let h1 : length user ≤ 512 = r.short in
          let h2 : 148 + length user ≤ rendered_len = r.rendered_room in
          let h3 : max_tokens ≤ token_len = r.token_room in
          let h4 : scratch_bytes ≤ length scratch.bytes = r.scratch_room in
          (ground arith, (r.printable, (ground arith, (ground arith, (ground arith, r.aligned)))))))
      (bind-Decides _ (fail_if-Decides _ _) λ _.
        bind-Decides _ (check_user_bytes-Decides 0 user) λ _.
          bind-Decides _ (fail_if-Decides _ _) λ _.
            bind-Decides _ (fail_if-Decides _ _)
              λ _. bind-Decides _ (fail_if-Decides _ _) λ _. fail_unless-Decides _ _ _)

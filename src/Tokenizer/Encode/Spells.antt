-- ===== src/Tokenizer/Encode/Spells.antt =====
-- What it means that tokens staged by crates/promptboot-core/src/tokenizer.rs spell a text.
use promptboot.Prelude.{
  inr, inl, ap₂, ℕ, suc, ◌+◌, ◌≤◌, ◌<◌, ◌≡◌, refl, sym, ap, ◌∙◌, List, [], ◌∷◌, ◌++◌, length,
  length-append, arith,
}
use mathlib.Core.List.{append_assoc, append-nil}
use promptboot.Tokenizer.Pretoken.Tags.{IsTag}
use promptboot.Tokenizer.Table.{Index}
use promptboot.Tokenizer.Encode.{max_tokens, byte_segment}
use promptboot.Tokenizer.Encode.Spelling.{spelled, spelled-append}

-- The tokens staged behind those before spell the text, each of its bytes encoded, and are no more than it has bytes. There are
-- at most `max_tokens`, if there were no more before.
pub record Spells (encode spelling : ℕ → List ℕ) (staged text after : List ℕ) : Type 0 where
  pub new : List ℕ
  pub behind : after ≡ staged ++ new
  pub reads : spelled spelling new ≡ spelled encode text
  pub short : length new ≤ length text
  pub fits : length staged ≤ max_tokens → length after ≤ max_tokens

module _ (encode spelling : ℕ → List ℕ) where
  pub Spells-nil : (staged : List ℕ) → Spells encode spelling staged [] staged
  unfolding spelled
  Spells-nil staged = record {
    new = [];
    behind = sym (append-nil staged);
    reads = refl;
    short = omega arith;
    fits = λ h. h;
  }

  pub Spells-append :
      {staged front middle back after : List ℕ}
      → Spells encode spelling staged front middle
      → Spells encode spelling middle back after
      → Spells encode spelling staged (front ++ back) after
  Spells-append {staged} {front} {middle} {back} {after} a b = record {
    new = a.new ++ b.new;
    behind =
        b.behind ∙ ap (λ (xs : List ℕ). xs ++ b.new) a.behind ∙ append_assoc staged a.new b.new;
    reads =
        spelled-append spelling a.new b.new
        ∙ (ap₂ (λ (xs ys : List ℕ). xs ++ ys) a.reads b.reads
            ∙ sym (spelled-append encode front back));
    short = omega (arith, length-append a.new b.new, length-append front back, a.short, b.short);
    fits = λ h. b.fits (a.fits h);
  }

  -- A token that spells its text.
  pub Spells-one :
      (staged : List ℕ) (token : ℕ) (text : List ℕ)
      → spelling token ≡ spelled encode text
      → 1 ≤ length text
      → length staged < max_tokens
      → Spells encode spelling staged text (staged ++ token ∷ [])
  unfolding spelled
  Spells-one staged token text e l f = record {
    new = token ∷ [];
    behind = refl;
    reads = append-nil (spelling token) ∙ e;
    short = omega arith;
    fits = λ _. omega (arith, length-append staged (token ∷ []));
  }

pub Spells-length :
    {encode spelling : ℕ → List ℕ} {staged text after : List ℕ}
    → Spells encode spelling staged text after
    → length after ≤ length staged + length text
Spells-length {encode} {spelling} {staged} {text} {after} s =
    let e : length after ≡ length (staged ++ s.new) = ap length s.behind in
    omega (arith, e, length-append staged s.new, s.short)

pub IsTag-length : {token : ℕ} {word : List ℕ} → IsTag token word → 1 ≤ length word
IsTag-length (inl (_, e)) = rw e (omega arith)
IsTag-length (inr (_, e)) = rw e (omega arith)

pub IsTag-token : {token : ℕ} {word : List ℕ} → IsTag token word → 1 ≤ token
IsTag-token (inl (e, _)) = omega arith
IsTag-token (inr (e, _)) = omega arith

pub length-byte_segment :
    (index : Index) (text : List ℕ) → length (byte_segment index text) ≡ length text
unfolding byte_segment
length-byte_segment index [] = refl
length-byte_segment index (byte ∷ text) = ap suc (length-byte_segment index text)

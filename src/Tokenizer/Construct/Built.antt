-- ===== src/Tokenizer/Construct/Built.antt =====
-- The index that `construct` of crates/promptboot-core/src/tokenizer.rs returns.
use promptboot.Prelude.{
  zero, suc, loop, ◌>>=◌, not, ℕ, ◌+◌, ◌*◌, ◌<◌, ◌≡◌, refl, sym, subst, ◌∙◌, Bool, List, ◌==◌,
  u32_max, Result, ok, err, Ends, ends_ok, ends_err, bind-Ends, Ends-weaken, fail_if-Ends, inl, inr,
  arith,
}
use promptboot.Sha256.Compress.{Chain}
use promptboot.Model.Errors.{ModelError}
use promptboot.Model.Image.{vocab_count, merge_count}
use promptboot.Model.View.{ModelView, Merge, merge}
use promptboot.Tokenizer.Table.{
  Index, copy_byte_token, insert_merge, byte_map, table_entries, empty_index,
}
use promptboot.Tokenizer.Table.Filling.{Filled, empty-Filled, fill-Filled}
use promptboot.Tokenizer.Table.Merges.{MapsMerges, Filled-MapsMerges}
use promptboot.Tokenizer.Table.ByteTokens.{
  IsByteToken, read_byte_tokens-Known, copy_byte_tokens-Copied,
}
use promptboot.Tokenizer.Construct.{
  leaving, forgetting, byte_tokens, check_shape, construct_prefix, construct,
}

-- The searches give the merges of the model, in at most 43 probes, and every byte has its token.
pub record Built (v : ModelView) (index : Index) : Type 0 where
  pub merges : MapsMerges v merge_count index 42
  pub bytes : (byte : ℕ) → byte < 256 → IsByteToken v byte (index (byte_map + byte))

-- An empty table, with the tokens of the bytes behind it.
record Seeded (v : ModelView) (index : Index) : Type 0 where
  empty : (k : ℕ) → k < 4 * table_entries → index k ≡ u32_max
  tokens : (byte : ℕ) → byte < 256 → IsByteToken v byte (index (byte_map + byte))

-- What is known of a value is known of it whatever an error carries.
leaving-Ends :
    {A : Type 0} {P : ModelError → Type 0} {Q : A → Type 0} {r : Result ModelError A}
    (index : Index)
    → Ends P Q r
    → Ends (λ _. Unit {0}) Q (leaving index r)
leaving-Ends index (ends_ok q) = ends_ok q
leaving-Ends index (ends_err p) = ends_err tt

pub forgetting-Ends :
    {A : Type 0} {Q : A → Type 0} {r : Result (ModelError × Index) A}
    → Ends (λ _. Unit {0}) Q r
    → Ends (λ _. Unit {0}) Q (forgetting r)
forgetting-Ends (ends_ok q) = ends_ok q
forgetting-Ends (ends_err {e = (e, index)} p) = ends_err tt

module _ {S : Type 0} (left : S → Index) (body : S → ℕ → Result ModelError S) where
  abbrev stepping : S → ℕ → Result (ModelError × Index) S
  stepping s at = leaving (left s) (body s at)

  bind-leaving :
      {P : ModelError → Type 0} {Q : S → Type 0} (r : Result ModelError S) (index : Index)
      (f : S → Result ModelError S) (g : S → Result (ModelError × Index) S)
      → ((s : S) → Ends P Q (f s) → Ends (λ _. Unit {0}) Q (g s))
      → Ends P Q (r >>= f)
      → Ends (λ _. Unit {0}) Q (leaving index r >>= g)
  unfolding ◌>>=◌
  bind-leaving (ok s) index f g k h = k s h
  bind-leaving (err e) index f g k h = ends_err tt

  loop-leaving :
      {P : ModelError → Type 0} {Q : S → Type 0} (start count : ℕ) (s : S)
      → Ends P Q (loop body start count s)
      → Ends (λ _. Unit {0}) Q (loop stepping start count s)
  unfolding loop
  loop-leaving start zero s (ends_ok q) = ends_ok q
  loop-leaving start (suc count) s h =
      bind-leaving (body s start) (left s) _ _ (λ s'. loop-leaving (start + 1) count s') h

byte_tokens-Seeded : (v : ModelView) → Ends (λ _. Unit {0}) (Seeded v) (byte_tokens v)
unfolding byte_tokens
byte_tokens-Seeded v =
    bind-Ends
      (leaving-Ends empty_index
        (read_byte_tokens-Known v 0 vocab_count (λ _. u32_max) (λ byte. inl refl)))
      λ ids k.
        Ends-weaken
          (loop-leaving (λ index. index) (copy_byte_token ids) 0 256 empty_index
            (copy_byte_tokens-Copied ids empty_index 0 256 empty_index (record {
              copies = λ b l. absurd (omega arith);
              filled = λ b l. absurd (omega arith);
              table = λ k l. refl;
            })))
          λ index c. record {
            empty = λ w l. c.table w l ∙ (ground arith);
            tokens = λ byte l. elim (k byte) [
              | inl e ↦ absurd (c.filled byte l e)
              | inr t ↦ subst (λ (n : ℕ). IsByteToken v byte n) (sym (c.copies byte l)) t
            ];
          }

any : {A : Type 0} (r : Result ModelError A) → Ends (λ _. Unit {0}) (λ _. Unit {0}) r
any (ok a) = ends_ok tt
any (err e) = ends_err tt

check_shape-most :
    (v : ModelView) (index : Index) (most : ℕ)
    → Ends (λ (_ : ModelError). Unit {0}) (λ _. most ≡ 42) (check_shape v index most)
unfolding check_shape
check_shape-most v index most =
    bind-Ends (fail_if-Ends (not (most == 42)) _ tt) λ _ e. Ends-weaken (any _) λ _ _. ground arith

module _ (available : Bool) (rounds_ni : Chain → List ℕ → Chain) (v : ModelView)
    (ordinary : (rank : ℕ) (m : Merge) → merge v rank ≡ ok m → m.left < u32_max) where
  pub construct_prefix-Built :
      Ends (λ _. Unit {0}) (Built v) (construct_prefix available rounds_ni v)
  unfolding construct_prefix
  construct_prefix-Built = bind-Ends (byte_tokens-Seeded v) λ seeds s.
      bind-Ends
        (loop-leaving (λ (s : Index × ℕ). s.0) (insert_merge v) 0 merge_count (seeds, 0)
          (fill-Filled v seeds ordinary (Unit {0}) merge_count (λ _ _ _ _. tt)
            (λ _ _ _ _ _ _ _ _ _ _. tt) (λ _. tt) merge_count 0 (seeds, 0) (omega arith)
            (empty-Filled v seeds s.empty)))
        λ (index, most) f. bind-Ends (leaving-Ends index (check_shape-most v index most)) λ _ e.
          let z : 0 + merge_count ≡ merge_count = refl in
          bind-Ends (leaving-Ends index (any _)) λ _ _.
            bind-Ends (leaving-Ends index (any _)) λ _ _. ends_ok (record {
              merges = Filled-MapsMerges v seeds ordinary merge_count index 42 (omega arith) (
                  subst (λ (n : ℕ). Filled v seeds merge_count index n) e
                    (subst (λ (n : ℕ). Filled v seeds n index most) z f));
              bytes = λ byte l.
                  subst (λ (n : ℕ). IsByteToken v byte n)
                    (sym (f.behind (byte_map + byte) (omega arith))) (s.tokens byte l);
            })

  -- If the first side of every merge is a token, then an index that `construct` returns gives every merge
  -- of the model in at most 43 probes and nothing else, and for every byte a token whose text is the
  -- character of that byte.
  pub construct-Built :
      Ends (λ (_ : ModelError). Unit {0}) (Built v) (construct available rounds_ni v)
  unfolding construct
  construct-Built = forgetting-Ends construct_prefix-Built

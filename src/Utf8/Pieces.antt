-- ===== src/Utf8/Pieces.antt =====
-- Sequences of pieces for the decoder of src/repl_contract.rs.
use promptboot.Prelude.{
  ◌<◌, ℕ, ◌≡◌, refl, ap, ap₂, sym, subst, ◌∙◌, List, [], ◌∷◌, ◌++◌, flatten, All, All-append,
  All-append_parts, Ends, ends_ok, bind-Ends,
}
use mathlib.Core.List.{append_assoc, append-nil}
use promptboot.Utf8.{Utf8Decoder, carried, push_all}
use promptboot.Utf8.Scalars.{IsScalar, encode8, encode16, encode8-append, encode16-append}
use promptboot.Utf8.Reading.{Bytes}
use promptboot.Utf8.Decoding.{Any, Pushed, push-Pushed}

-- What a sequence of calls leaves.
pub record PushedAll (d : Utf8Decoder) (pieces : List (List ℕ)) (r : List ℕ × Utf8Decoder)
    : Type 0 where
  pub read : List ℕ
  pub all_read : All IsScalar read
  pub bytes_are : carried d ++ flatten pieces ≡ encode8 read ++ carried r.1
  pub units_are : r.0 ≡ encode16 read

PushedAll-cons :
    (d : Utf8Decoder) (piece : List ℕ) (pieces : List (List ℕ)) (room : ℕ)
    (first rest : List ℕ × Utf8Decoder)
    → Pushed d piece room first
    → PushedAll first.1 pieces rest
    → PushedAll d (piece ∷ pieces) (first.0 ++ rest.0, rest.1)
PushedAll-cons d piece pieces room first rest p q = record {
  read = p.read ++ q.read;
  all_read = All-append IsScalar p.read q.read (p.all_read, q.all_read);
  bytes_are =
      sym (append_assoc (carried d) piece (flatten pieces))
      ∙ (ap (◌++ flatten pieces) p.bytes_are
          ∙ (append_assoc (encode8 p.read) (carried first.1) (flatten pieces)
              ∙ (ap (encode8 p.read ++◌) q.bytes_are
                  ∙ (sym (append_assoc (encode8 p.read) (encode8 q.read) (carried rest.1))
                      ∙ ap (◌++ carried rest.1) (sym (encode8-append p.read q.read))))));
  units_are =
      ap₂ (λ (a b : List ℕ). a ++ b) p.units_are q.units_are ∙ sym (encode16-append p.read q.read);
}

-- However bytes are divided into pieces: if every call succeeds, the bytes carried at first and those
-- of all pieces are the UTF-8 of some scalars and what is carried at last, and the units are exactly
-- the UTF-16 of these scalars.
pub push_all-PushedAll :
    (d : Utf8Decoder) (pieces : List (List ℕ)) (room : ℕ)
    → Bytes (carried d)
    → All Bytes pieces
    → Ends Any (PushedAll d pieces) (push_all d pieces room)
unfolding push_all
push_all-PushedAll d [] room b c =
    ends_ok
      (record { read = []; all_read = tt; bytes_are = append-nil (carried d); units_are = refl })
push_all-PushedAll d (piece ∷ pieces) room b (c, cs) =
    bind-Ends (push-Pushed d piece room b c) λ first p.
      let bytes : Bytes (encode8 p.read ++ carried first.1) =
        subst Bytes p.bytes_are (All-append (λ b. b < 256) (carried d) piece (b, c)) in
      bind-Ends
        (push_all-PushedAll first.1 pieces room
          (All-append_parts (λ b. b < 256) (encode8 p.read) (carried first.1) bytes).1 cs)
        λ rest q. ends_ok (PushedAll-cons d piece pieces room first rest p q)

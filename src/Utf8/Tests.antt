-- ===== src/Utf8/Tests.antt =====
-- Runs of the decoder of src/repl_contract.rs.
use promptboot.Prelude.{
  ℕ, ◌≤◌, ◌≡◌, refl, List, [], ◌∷◌, inl, inr, All, ok, err, Ends, length, arith, ◌>>=◌,
}
use promptboot.Utf8.{
  invalid, new, carried, reset, push, push_all, decode, read_point, stage, classify, bad_second,
  is_continuation, point_of, checked_point,
}
use promptboot.Utf8.Scalars.{IsScalar, utf8, utf16, encode8, encode16}
use promptboot.Utf8.Reading.{Bytes}
use promptboot.Utf8.Decoding.{Any}
use promptboot.Utf8.Pieces.{PushedAll, push_all-PushedAll}
use promptboot.Utf8.Encoded.{push-encode8}

-- U+1F600 in two pieces.
abbrev in_two : List (List ℕ)
in_two = (0x41 ∷ 0xf0 ∷ 0x9f ∷ []) ∷ (0x98 ∷ 0x80 ∷ []) ∷ []

in_two_push : push_all new in_two 64 ≡ ok (0x41 ∷ 0xd83d ∷ 0xde00 ∷ [], reset new)
unfolding push_all push decode read_point stage classify bad_second is_continuation point_of
    checked_point ◌>>=◌ new
in_two_push = refl

surrogate_push : push new (0xed ∷ 0xa0 ∷ 0x80 ∷ []) 64 ≡ err invalid
unfolding push decode read_point stage classify bad_second is_continuation point_of checked_point
    ◌>>=◌ new
surrogate_push = refl

pieces_Bytes : All Bytes in_two
pieces_Bytes =
    ((omega arith, (omega arith, (omega arith, tt))), ((omega arith, (omega arith, tt)), tt))

new-Bytes : Bytes (carried new)
unfolding new
new-Bytes = tt

push_all-PushedAll_example : Ends Any (PushedAll new in_two) (push_all new in_two 64)
push_all-PushedAll_example = push_all-PushedAll new in_two 64 new-Bytes pieces_Bytes

-- "A", U+E9, U+20AC and U+1F600.
abbrev some_scalars : List ℕ
some_scalars = 0x41 ∷ 0xe9 ∷ 0x20ac ∷ 0x1f600 ∷ []

scalars_IsScalar : All IsScalar some_scalars
scalars_IsScalar = (
  (omega arith, inl (omega arith)),
  (
    (omega arith, inl (omega arith)),
    ((omega arith, inl (omega arith)), ((omega arith, inr (omega arith, omega arith)), tt)),
  ),
)

carries_nothing : carried new ≡ []
unfolding new
carries_nothing = refl

short_bytes : length (encode8 some_scalars) ≤ 128
unfolding utf8
short_bytes = omega arith

short_units : length (encode16 some_scalars) ≤ 64
unfolding utf16
short_units = omega arith

push-encode8_example : push new (encode8 some_scalars) 64 ≡ ok (encode16 some_scalars, reset new)
push-encode8_example =
    push-encode8 new some_scalars 64 carries_nothing scalars_IsScalar short_bytes short_units

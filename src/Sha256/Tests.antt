-- ===== src/Sha256/Tests.antt =====
-- Runs of the hash of crates/promptboot-core/src/sha256.rs.
use promptboot.Prelude.{flatten, ℕ, ◌≡◌, refl, false, true, List, [], ◌∷◌, take}
use promptboot.ModelContract.{codes}
use promptboot.Sha256.{
  update_all, digest, update, finish, new, update_aligned, update_waiting, absorb, keep_rest,
  compress, compress_by, resolved, close_full, close_room,
}
use promptboot.Sha256.Padding.{sha256}
use promptboot.Sha256.Routine.{routine, routine-compress_scalar}
use promptboot.Sha256.Digest.{finish-update_all}
use promptboot.Sha256.Compress.{message_schedule, compress_scalar, initial, chain_bytes}

-- The first bytes of the standard's example.
abc_digest : take 4 (digest false (λ s w. s) (codes "abc")) ≡ 0xba ∷ 0x78 ∷ 0x16 ∷ 0xbf ∷ []
unfolding digest update finish new update_aligned update_waiting absorb keep_rest compress
    compress_by resolved close_full close_room message_schedule compress_scalar initial chain_bytes
abc_digest = refl

abbrev pieces : List (List ℕ)
pieces = codes "a" ∷ codes "bc" ∷ []

finish-update_all_example :
    finish true routine (update_all true routine new pieces) ≡ sha256 (flatten pieces)
finish-update_all_example = finish-update_all true routine routine-compress_scalar pieces

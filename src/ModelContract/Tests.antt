-- ===== src/ModelContract/Tests.antt =====
-- Runs of the model target's contracts on small inputs, for src/model_contract.rs.
use promptboot.Prelude.{
  flatten, ℕ, ◌≡◌, ◌*◌, ◌++◌, ◌≤◌, ◌<◌, ◌↔◌, refl, false, ok, some, List, [], ◌∷◌, ltb, length,
  if◌then◌else◌, arith,
}
use promptboot.ModelContract.{parse, load_only, codes, derive_frequency}
use promptboot.ModelContract.Record.{
  new, push, push_decimal, digits, push_back, as_bytes, record_capacity, model_record_fatal,
}
use promptboot.ModelContract.Emission.{Shows, new-Shows, push_all, as_bytes-push_all}
use promptboot.ModelContract.Decimal.{Spells, push_decimal-Shows}
use promptboot.ModelContract.Transfer.{Completion, transfer, transfer-start}
use promptboot.ModelContract.Cleanup.{next_cleanup_bit, search_from, is_pending}
use promptboot.ModelContract.Reading.{start}
use promptboot.ModelContract.Timing.{derive_frequency_iff, median}

prints_number : as_bytes (push_decimal (push new (codes "n=")) 407) ≡ codes "n=407"
unfolding new push push_decimal digits push_back as_bytes
prints_number = refl

parses_mode : parse (codes "model_load_only") ≡ some load_only
unfolding parse
parses_mode = refl

lowest_bit : next_cleanup_bit 0x38c ≡ some 2
unfolding next_cleanup_bit search_from is_pending
lowest_bit = refl

abbrev two_reads : List Completion
two_reads =
    record { requested = 8; returned = 3; status = 0; eof = false }
    ∷ record { requested = 7; returned = 7; status = 0; eof = false }
    ∷ []

as_bytes-push_all_example : as_bytes (push_all new (codes "ab" ∷ codes "c" ∷ [])) ≡ (
    if ltb record_capacity (length (flatten (codes "ab" ∷ codes "c" ∷ [])))
    then model_record_fatal
    else flatten (codes "ab" ∷ codes "c" ∷ []))
as_bytes-push_all_example = as_bytes-push_all (codes "ab" ∷ codes "c" ∷ [])

push_decimal-Shows_example : (ds : List ℕ) × Spells 407 ds × Shows (push_decimal new 407) ([] ++ ds)
push_decimal-Shows_example = push_decimal-Shows new [] 407 new-Shows (omega arith)

transfer-start_example :
    ((transfer (start 10) two_reads).0.offset ≡ (transfer (start 10) two_reads).1)
    × ((transfer (start 10) two_reads).0.offset ≤ 10)
transfer-start_example = transfer-start 10 two_reads

derive_frequency_iff_example :
    (derive_frequency 300000000 290000000 310000000 1 1 1 ≡ ok 3000000000) ↔ (
      0 < 300000000
      × 0 < 290000000
      × 0 < 310000000
      × ◌≡◌ {A = ℕ} 1 1
      × ◌≡◌ {A = ℕ} 1 1
      × ◌≡◌ {A = ℕ} 3000000000 (median 300000000 290000000 310000000 * 10)
      × 1000000000 ≤ 3000000000
      × 3000000000 ≤ 10000000000)
derive_frequency_iff_example = derive_frequency_iff 300000000 290000000 310000000 1 1 1 3000000000

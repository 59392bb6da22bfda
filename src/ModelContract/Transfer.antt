-- ===== src/ModelContract/Transfer.antt =====
-- The transfer of the model file by the reads of src/model_contract.rs.
use promptboot.Prelude.{
  checked_add-eq, ends_err, ok_or-Ends, ends_ok, bind-Ends, ◌∙◌, Ends, ℕ, ◌+◌, ◌≤◌, ◌≡◌, refl, Bool,
  List, [], ◌∷◌, ltb, if-cases, arith, Result, ok, err, checked_add,
}
use promptboot.ModelContract.Reading.{
  ReadDecision, advance, complete, truncated, oversized, read, ReadProgress, start, read_decision,
  checked_read_offset, settle_read, apply,
}

-- One completed read, as the firmware reports it.
pub record Completion : Type 0 where
  pub requested : ℕ
  pub returned : ℕ
  pub status : ℕ
  pub eof : Bool

-- The bytes that a decision accepts.
unfoldable pub accepted : ReadDecision → ℕ
accepted (advance count) = count
accepted complete = 0
accepted truncated = 0
accepted oversized = 0
accepted read = 0

-- The offset moves by what the decision accepts, within the file.
pub record Moves (p : ReadProgress) (answer : ReadProgress × ReadDecision) : Type 0 where
  pub same_total : answer.0.total ≡ p.total
  pub moved : answer.0.offset ≡ p.offset + accepted answer.1
  pub inside : p.offset ≤ p.total → answer.0.offset ≤ p.total

stays : (p : ReadProgress) (d : ReadDecision) → accepted d ≡ 0 → Moves p (p, d)
stays p d h = record { same_total = refl; moved = omega (arith, h); inside = λ l. l }

-- The checked sum is the sum, within the total.
checked_read_offset-Ends :
    (offset returned total : ℕ)
    → Ends
        (λ t. Unit {0})
        (λ next. (next ≡ offset + returned) × (next ≤ total))
        (checked_read_offset offset returned total)
unfolding checked_read_offset
checked_read_offset-Ends offset returned total =
    bind-Ends (ok_or-Ends (checked_add offset returned) tt tt) λ next e.
      if-cases (Ends (λ t. Unit {0}) (λ (n : ℕ). (n ≡ offset + returned) × (n ≤ total)))
        (ltb total next) _ _ (λ _. ends_err tt)
        (λ f. ends_ok ((checked_add-eq offset returned e).0, ground arith))

settle-Moves : (p : ReadProgress) (d : ReadDecision) → Moves p (settle_read p d)
unfolding settle_read accepted
settle-Moves p (advance count) =
    go (checked_read_offset p.offset count p.total)
      (checked_read_offset-Ends p.offset count p.total)
  where
    go :
        (m : Result (Unit {0}) ℕ)
        → Ends (λ t. Unit {0}) (λ next. (next ≡ p.offset + count) × (next ≤ p.total)) m
        → Moves p
            (elim m [ ok next ↦ (record p { offset = next }, advance count) | err e ↦ (p, read) ])
    go (ok next) (ends_ok (e, l)) = record { same_total = refl; moved = e; inside = λ _. l }
    go (err e) h = stays p read refl
settle-Moves p complete = stays p complete refl
settle-Moves p truncated = stays p truncated refl
settle-Moves p oversized = stays p oversized refl
settle-Moves p read = stays p read refl

-- The progress and the bytes accepted behind a sequence of reads.
unfoldable pub transfer : ReadProgress → List Completion → ReadProgress × ℕ
transfer p [] = (p, 0)
transfer p (c ∷ cs) =
    let answer = apply p c.requested c.returned c.status c.eof in
    let rest = transfer answer.0 cs in (rest.0, accepted answer.1 + rest.1)

transfer-from :
    (p : ReadProgress) (cs : List Completion)
    → p.offset ≤ p.total
    → ((transfer p cs).0.total ≡ p.total)
      × ((transfer p cs).0.offset ≡ p.offset + (transfer p cs).1)
      × ((transfer p cs).0.offset ≤ p.total)
unfolding transfer apply
transfer-from p [] l = (refl, omega arith, l)
transfer-from p (c ∷ cs) l =
    let d = read_decision c.requested c.returned c.status c.eof in
    let m = settle-Moves p d in
    let r = transfer-from (settle_read p d).0 cs (omega (arith, m.same_total, m.inside l)) in
    (r.0 ∙ m.same_total, omega (arith, r.1, m.moved), omega (arith, r.2, m.same_total))

-- From the start of a file, any sequence of reads leaves the offset at the number of bytes that
-- the decisions accepted, and never behind the end of the file.
pub transfer-start :
    (total : ℕ) (cs : List Completion)
    → ((transfer (start total) cs).0.offset ≡ (transfer (start total) cs).1)
      × ((transfer (start total) cs).0.offset ≤ total)
transfer-start total cs =
    let r = transfer-from (start total) cs (omega arith) in (omega (arith, r.1), r.2)

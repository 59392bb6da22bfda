-- ===== src/ModelContract/Emission.antt =====
-- What `ModelRecord` of src/model_contract.rs prints: everything that was pushed, or the fatal line.
use promptboot.Prelude.{
  flatten, ℕ, ◌+◌, ◌-◌, ◌<◌, ◌≤◌, ◌≡◌, refl, sym, ap, ◌∙◌, Bool-cases, true, false, inl, inr, List,
  [], ◌∷◌, ◌++◌, ltb, if◌then◌else◌, length, take, length-append, length-replicate, arith, le→ltb,
  lt→ltb, ltb→lt,
}
use promptboot.Prelude.Slices.{take-splice, splice, length-splice}
use mathlib.Core.List.{append_assoc, append-nil}
use promptboot.ModelContract.Record.{
  ModelRecord, model_record_fatal, record_capacity, new, push, as_bytes,
}

-- The record holds these bytes and has not overflowed.
pub record Holds (r : ModelRecord) (bs : List ℕ) : Type 0 where
  pub storage : length r.data_bytes ≡ record_capacity
  pub used_is : r.used ≡ length bs
  pub within : length bs ≤ record_capacity
  pub open_yet : r.overflow ≡ false
  pub content : take r.used r.data_bytes ≡ bs

-- The record has been given these bytes.
pub data Shows (r : ModelRecord) (bs : List ℕ) : Type 0 where
  shows_bytes : Holds r bs → Shows r bs
  shows_fatal : r.overflow ≡ true → record_capacity < length bs → Shows r bs

room :
    (r : ModelRecord) (bs v : List ℕ)
    → Holds r bs
    → ltb (length r.data_bytes - r.used) (length v) ≡ false
    → r.used + length v ≤ length r.data_bytes
room r bs v h e =
    let fits : length v ≤ length r.data_bytes - r.used = ground arith in
    omega (arith, h.used_is, h.storage, h.within)

pushed-Holds :
    (r : ModelRecord) (bs v : List ℕ)
    → Holds r bs
    → r.used + length v ≤ length r.data_bytes
    → Holds
        (record {
          data_bytes = splice r.used (r.used + length v) v r.data_bytes;
          used = r.used + length v;
          overflow = false;
        })
        (bs ++ v)
pushed-Holds r bs v h l = record {
  storage = length-splice r.data_bytes v r.used (r.used + length v) refl l ∙ h.storage;
  used_is = omega (arith, length-append bs v, h.used_is);
  within = omega (arith, length-append bs v, h.used_is, h.storage);
  open_yet = refl;
  content = take-splice r.data_bytes v r.used (omega arith) ∙ ap (◌++ v) h.content;
}

pub push-Shows : (r : ModelRecord) (bs v : List ℕ) → Shows r bs → Shows (push r v) (bs ++ v)
unfolding push
push-Shows r bs v (shows_fatal o h) = simp o (shows_fatal refl (omega (arith, length-append bs v)))
push-Shows r bs v (shows_bytes h) =
    elim (Bool-cases (ltb (length r.data_bytes - r.used) (length v))) [
      | inl over ↦
          simp (h.open_yet, over)
            (shows_fatal refl
              (omega (arith, ltb→lt _ _ over, length-append bs v, h.used_is, h.storage, h.within)))
      | inr fits ↦
          simp (h.open_yet, fits) (shows_bytes (pushed-Holds r bs v h (room r bs v h fits)))
    ]

-- A sequence of calls of `push`.
unfoldable pub push_all : ModelRecord → List (List ℕ) → ModelRecord
push_all r [] = r
push_all r (v ∷ vs) = push_all (push r v) vs

push_all-Shows :
    (r : ModelRecord) (bs : List ℕ) (vs : List (List ℕ))
    → Shows r bs
    → Shows (push_all r vs) (bs ++ flatten vs)
unfolding push_all
push_all-Shows r bs [] h = simp (append-nil bs) h
push_all-Shows r bs (v ∷ vs) h =
    rw (sym (append_assoc bs v (flatten vs)))
      (push_all-Shows (push r v) (bs ++ v) vs (push-Shows r bs v h))

pub new-Shows : Shows new []
unfolding new
new-Shows = shows_bytes (record {
  storage = length-replicate {A = ℕ} record_capacity 0;
  used_is = refl;
  within = omega arith;
  open_yet = refl;
  content = refl;
})

pub as_bytes-Shows :
    (r : ModelRecord) (bs : List ℕ)
    → Shows r bs
    → as_bytes r ≡ (if ltb record_capacity (length bs) then model_record_fatal else bs)
unfolding as_bytes
as_bytes-Shows r bs (shows_bytes h) =
    rw (h.open_yet, le→ltb record_capacity (length bs) h.within) h.content
as_bytes-Shows r bs (shows_fatal o l) = rw (o, lt→ltb record_capacity (length bs) l) refl

-- A fresh record that is given any chunks of bytes, one after the other, prints their
-- concatenation if that has at most 511 bytes, and otherwise the fatal line.
pub as_bytes-push_all :
    (vs : List (List ℕ))
    → as_bytes (push_all new vs)
      ≡ (if ltb record_capacity (length (flatten vs)) then model_record_fatal else flatten vs)
as_bytes-push_all vs =
    as_bytes-Shows (push_all new vs) (flatten vs) (push_all-Shows new [] vs new-Shows)

-- ===== src/Editor.antt =====
-- src/editor.rs: the line editor of the prompt, fed with one UEFI key at a time. The trait `Output`
-- is the list of the events that a key causes, in their order.
mod Branches
pub mod Invariant
pub mod Sessions
pub mod Lines
pub mod Limits
mod Tests
use promptboot.Prelude.{
  ℕ, ◌+◌, ◌-◌, ◌≤◌, Bool, true, false, ◌&&◌, ◌||◌, List, [], ◌∷◌, ◌++◌, Option, none, some, ltb,
  leb, ◌==◌, if◌then◌else◌, length, set, take, replicate, map, checked_add,
}

abbrev pub line_capacity : ℕ
line_capacity = 512

pub data Flow : Type 0 where
  continue prompt_index_overflow : Flow

-- The calls of `Output`.
pub data Event : Type 0 where
  live_ascii : ℕ → Event
  erase_last : Event
  accepted : ℕ → List ℕ → Event
  rejected : ℕ → Event
  prompt : ℕ → Event

pub record Editor : Type 0 where
  pub buffer : List ℕ
  pub length : ℕ
  pub prompt_index : ℕ
  pub discard_until_enter : Bool
  pub pending_terminator : ℕ

unfoldable pub new : Editor
new = record {
  buffer = replicate line_capacity 0;
  length = 0;
  prompt_index = 1;
  discard_until_enter = false;
  pending_terminator = 0;
}

-- What `process_key` returns: the editor behind it, its flow, and its events.
abbrev pub Reply : Type 0
Reply = Editor × Flow × List Event

-- `clear`: `buffer.fill(0)`, and the length.
unfoldable pub clear : Editor → Editor
clear e = record e { buffer = map (λ _. 0) e.buffer; length = 0 }

abbrev pub is_terminator : ℕ → Bool
is_terminator c = c == b'\r' || c == b'\n'

-- `(0x20..=0x7e).contains(&c)`
abbrev pub is_printable : ℕ → Bool
is_printable c = leb 0x20 c && leb c 0x7e

-- `self.pending_terminator` and `current` are the two halves of a pair.
abbrev pub completes_pair : ℕ → ℕ → Bool
completes_pair pending current =
    (pending == b'\r' && current == b'\n') || (pending == b'\n' && current == b'\r')

-- The branch `if self.discard_until_enter`.
unfoldable pub discard_key : Editor → ℕ → Reply
discard_key e current =
    if is_terminator current
    then elim (checked_add e.prompt_index 1) [
      | none ↦ (
        record e { pending_terminator = current; discard_until_enter = false },
        prompt_index_overflow,
        [],
      )
      | some next ↦ (
        record e { pending_terminator = current; discard_until_enter = false; prompt_index = next },
        continue,
        prompt next ∷ [],
      )
    ]
    else (e, continue, [])

-- The branch for a terminator.
unfoldable pub enter_key : Editor → ℕ → Reply
enter_key e current = elim (checked_add e.prompt_index 1) [
  | none ↦ (clear e, prompt_index_overflow, [])
  | some next ↦ (
    record (clear e) { prompt_index = next; pending_terminator = current },
    continue,
    accepted e.prompt_index (take e.length e.buffer) ∷ prompt next ∷ [],
  )
]

-- The branch for 0x08.
unfoldable pub backspace_key : Editor → Reply
backspace_key e = if e.length == 0 then (e, continue, []) else (
  record e { length = e.length - 1; buffer = set e.buffer (e.length - 1) 0 },
  continue,
  erase_last ∷ [],
)

-- The branch for a printable character.
unfoldable pub printable_key : Editor → ℕ → Reply
printable_key e current =
    if e.length == line_capacity
    then elim (checked_add e.prompt_index 1) [
      | none ↦ (clear e, prompt_index_overflow, [])
      | some _ ↦
          (record (clear e) { discard_until_enter = true }, continue, rejected e.prompt_index ∷ [])
    ]
    else (
      record e { buffer = set e.buffer e.length current; length = e.length + 1 },
      continue,
      live_ascii current ∷ [],
    )

-- `current` of `process_key`: a code unit past 0xff counts as NUL.
abbrev pub current_of : ℕ → ℕ
current_of unicode_char = if leb unicode_char 0xff then unicode_char else 0

-- What follows `self.pending_terminator = 0`.
unfoldable pub plain_key : Editor → ℕ → Reply
plain_key e unicode_char =
    let current = current_of unicode_char in
    if e.discard_until_enter
    then discard_key e current
    else if is_terminator current
    then enter_key e current
    else if current == 0x08
    then backspace_key e
    else if is_printable current && leb unicode_char 0xff
    then printable_key e current
    else (e, continue, [])

unfoldable pub process_key : Editor → ℕ → Reply
process_key e unicode_char =
    if completes_pair e.pending_terminator (current_of unicode_char)
    then (record e { pending_terminator = 0 }, continue, [])
    else plain_key (record e { pending_terminator = 0 }) unicode_char

-- A reply, and what the keys behind it bring: nothing more once the prompt index has overflowed.
abbrev pub chain : Reply → Reply → Reply
chain (e, continue, events) (e', flow, more) = (e', flow, events ++ more)
chain (e, prompt_index_overflow, events) rest = (e, prompt_index_overflow, events)

-- Keys in their order, with all their events.
unfoldable pub run : Editor → List ℕ → Reply
run e [] = (e, continue, [])
run e (k ∷ keys) = let r = process_key e k in chain r (run r.0 keys)

-- ===== src/ModelContract.antt =====
-- The contracts of the model target, src/model_contract.rs: the error that a failure reports, the
-- modes, and the timer. The children hold the record that is printed, the cleanup masks, the file
-- reads and the storage failures.
pub mod Record
pub mod Cleanup
pub mod Reading
pub mod Storage
pub mod Emission
pub mod Decimal
pub mod Order
pub mod Transfer
pub mod Masks
pub mod Timing
mod Tests
use promptboot.Prelude.{
  ℕ, ◌+◌, ◌-◌, ◌*◌, Bool, true, false, not, ◌&&◌, ◌||◌, Option, none, some, ltb, leb, ◌==◌,
  if◌then◌else◌, List, [], ◌∷◌, Result, ok, err, ◌>>=◌, ◌>>◌, fail_if, ok_or, checked_mul,
}
use Prim.Native.Char.{Char, code}
use Prim.Native.String.{String}

-- The bytes of an ASCII text.
abbrev pub codes : String → List ℕ
codes String.[] = []
codes (String.◌∷◌ c s) = code c ∷ codes s

abbrev pub efi_success : ℕ
efi_success = 0

abbrev pub efi_device_error : ℕ
efi_device_error = 0x8000000000000007

abbrev pub efi_out_of_resources : ℕ
efi_out_of_resources = 0x8000000000000009

abbrev pub efi_not_found : ℕ
efi_not_found = 0x800000000000000e

abbrev pub all_cleanup : ℕ
all_cleanup = 0x3ff

-- The arrays of seven and of eight words are lists.
pub record ErrorTuple : Type 0 where
  pub error_code : String
  pub phase : String
  pub efi : Option ℕ
  pub model : Option (List ℕ)
  pub inference : Option (List ℕ)
  pub error_region : Option String
  pub attempted : ℕ
  pub ok_mask : ℕ

abbrev pub error_tuple :
    String
    → String
    → Option ℕ
    → Option (List ℕ)
    → Option (List ℕ)
    → Option String
    → ℕ
    → ℕ
    → ErrorTuple
error_tuple c p e m i r a o = record {
  error_code = c;
  phase = p;
  efi = e;
  model = m;
  inference = i;
  error_region = r;
  attempted = a;
  ok_mask = o;
}

pub data Mode : Type 0 where
  load_only first_token identity repl : Mode

-- Equality of byte strings.
abbrev pub same_bytes : List ℕ → List ℕ → Bool
same_bytes [] [] = true
same_bytes (x ∷ xs) (y ∷ ys) = (x == y) && same_bytes xs ys
same_bytes [] (y ∷ ys) = false
same_bytes (x ∷ xs) [] = false

-- `Mode::parse`
unfoldable pub parse : List ℕ → Option Mode
parse value =
    if same_bytes value (codes "model_load_only")
    then some load_only
    else if same_bytes value (codes "model_first_token")
    then some first_token
    else if same_bytes value (codes "model_identity_self_test")
    then some identity
    else if same_bytes value (codes "model_repl")
    then some repl
    else none

pub data TimerClass : Type 0 where
  timed_invariant untimed_non_invariant : TimerClass

-- `matches!(mode, Mode::LoadOnly | Mode::Repl)`
abbrev pub runs_untimed : Mode → Bool
runs_untimed load_only = true
runs_untimed first_token = false
runs_untimed identity = false
runs_untimed repl = true

unfoldable pub timer_class : Mode → Bool → Bool → Result (Unit {0}) TimerClass
timer_class mode rdtscp invariant =
    if not rdtscp
    then err tt
    else if invariant
    then ok timed_invariant
    else if runs_untimed mode
    then ok untimed_non_invariant
    else err tt

-- `sort_unstable` on words: insertion, which gives the same list.
unfoldable pub insert : ℕ → List ℕ → List ℕ
insert x [] = x ∷ []
insert x (y ∷ ys) = if leb x y then x ∷ y ∷ ys else y ∷ insert x ys

-- `sorted[1]` of three words
unfoldable pub middle : ℕ → ℕ → ℕ → ℕ
unfolding insert
middle a b c = elim (insert a (insert b (insert c []))) [ x ∷ y ∷ rest ↦ y | _ ↦ 0 ]

-- `derive_frequency`, its two arrays of three spread out.
unfoldable pub derive_frequency : ℕ → ℕ → ℕ → ℕ → ℕ → ℕ → Result (Unit {0}) ℕ
derive_frequency d0 d1 d2 a0 a1 a2 = do
  fail_if (d0 == 0 || (d1 == 0 || (d2 == 0 || (not (a0 == a1) || not (a0 == a2))))) tt
  hz ← ok_or (checked_mul (middle d0 d1 d2) 10) tt
  fail_if (not (leb 1000000000 hz && leb hz 10000000000)) tt
  ok hz

abbrev pub timer_failure : Option ℕ → ErrorTuple
timer_failure status = error_tuple "MODEL_TIMER" "timer" status none none none 0 0

pub data ContractFailureKind : Type 0 where
  model_checksum model_identity model_index engine prefill top8 : ContractFailureKind

-- The first seven of the eight fields.
unfoldable pub first_seven : List ℕ → List ℕ
first_seven (a ∷ b ∷ c ∷ d ∷ e ∷ f ∷ g ∷ rest) = a ∷ b ∷ c ∷ d ∷ e ∷ f ∷ g ∷ []
first_seven fields = fields

unfoldable pub classified_failure : ContractFailureKind → List ℕ → ErrorTuple
classified_failure model_checksum fields =
    error_tuple "MODEL_CHECKSUM" "verify" none (some (first_seven fields)) none none all_cleanup
      all_cleanup
classified_failure model_identity fields =
    error_tuple "MODEL_IDENTITY" "verify" none (some (first_seven fields)) none none all_cleanup
      all_cleanup
classified_failure model_index fields =
    error_tuple "MODEL_INDEX" "index" none (some (first_seven fields)) none none all_cleanup
      all_cleanup
classified_failure engine fields =
    error_tuple "MODEL_ENGINE" "init" none none (some fields) none all_cleanup all_cleanup
classified_failure prefill fields =
    error_tuple "MODEL_PREFILL" "prefill" none none (some fields) none all_cleanup all_cleanup
classified_failure top8 fields =
    error_tuple "MODEL_TOP8" "top8" none none (some fields) none all_cleanup all_cleanup

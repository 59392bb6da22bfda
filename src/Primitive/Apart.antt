-- ===== src/Primitive/Apart.antt =====
-- The buffers that `promptboot_run_primitive` of crates/promptboot-core/src/lib.rs writes are apart from
-- each other and from all that it reads.
use promptboot.Prelude.{
  ℕ, ◌+◌, ◌*◌, ◌<◌, ◌≡◌, refl, sym, ap, subst, false, true, Bool, ◌||◌, Option, some, ok, arith,
}
use promptboot.Primitive.{PrimitiveRequest, AddressRange, fixed_range, declared_range}
use promptboot.Primitive.Memory.{Apart, fixed_range-eq, declared_range-eq, overlaps-Apart}
use promptboot.Primitive.Schema.{Schema}
use promptboot.Primitive.Run.{Ranges, both_overlap, aliased, request_size, result_size}
use promptboot.Primitive.Refusals.{Declared, Fits}

-- Where there are bytes, they are what the range has.
abbrev Covers : ℕ → ℕ → Option AddressRange → Type 0
Covers p n a = 0 < n → a ≡ some (record { start = p; end = p + n })

declared-Covers :
    (p n : ℕ) {a : Option AddressRange} → (p ≡ 0 → n ≡ 0) → declared_range p n ≡ ok a → Covers p n a
declared-Covers p n h e l =
    declared_range-eq p n e (λ z. let none_there : n ≡ 0 = h z in absurd (omega arith)) l

fixed-Covers : (p n : ℕ) {a : AddressRange} → fixed_range p n ≡ ok a → Covers p n (some a)
fixed-Covers p n e l = ap some (fixed_range-eq p n e)

Covers-Apart :
    (p n q m : ℕ) {a b : Option AddressRange}
    → Covers p n a
    → Covers q m b
    → both_overlap a b ≡ false
    → Apart p n q m
unfolding both_overlap
Covers-Apart p n q m {a} {b} c d o i j h k =
    overlaps-Apart p n q m
      (subst
        (λ (x : Option AddressRange).
          both_overlap (some (record { start = p; end = p + n })) x ≡ false)
        (d (omega arith))
        (subst (λ (x : Option AddressRange). both_overlap x b ≡ false) (c (omega arith)) o))
      i j h k

pub Apart-sym : (p n q m : ℕ) → Apart p n q m → Apart q m p n
Apart-sym p n q m h i j k l e = h j i l k (sym e)

-- Bytes that neither of the two written buffers has.
pub record Spared (r : PrimitiveRequest) (p n : ℕ) : Type 0 where
  pub output : Apart p n r.output (r.output_capacity_words * 4)
  pub scratch : Apart p n r.scratch r.scratch_bytes

-- What the checks of the addresses come to.
pub record Separate (request result : ℕ) (r : PrimitiveRequest) : Type 0 where
  pub buffers : Apart r.output (r.output_capacity_words * 4) r.scratch r.scratch_bytes
  pub request_spared : Spared r request request_size
  pub result_spared : Spared r result result_size
  pub input_spared : Spared r r.input r.input_bytes
  pub aux_spared : Spared r r.aux r.aux_bytes

neither : (a b : Bool) → (a || b) ≡ false → (a ≡ false) × (b ≡ false)
neither true b h = cc h
neither false b h = (refl, h)

pub checks-Separate :
    (request result : ℕ) (r : PrimitiveRequest) (ranges : Ranges) (s : Schema) (n : ℕ)
    → Declared request result r ranges
    → aliased ranges ≡ false
    → Fits r s n
    → Separate request result r
unfolding aliased
checks-Separate request result r ranges s n d alone f =
    let (os, h₁) = neither _ _ alone in
    let (oq, h₂) = neither _ _ h₁ in
    let (oi, h₃) = neither _ _ h₂ in
    let (oa, h₄) = neither _ _ h₃ in
    let (sq, h₅) = neither _ _ h₄ in
    let (si, sa) = neither _ _ h₅ in
    let out =
      declared-Covers r.output (r.output_capacity_words * 4) (λ z. absurd (f.some_output z))
        d.output_range in
    let work =
      declared-Covers r.scratch r.scratch_bytes (λ z. absurd (f.some_scratch z)) d.scratch_range in
    let asked = fixed-Covers request request_size d.request_range in
    let told = fixed-Covers result result_size d.result_range in
    let data_in = declared-Covers r.input r.input_bytes f.no_input d.input_range in
    let data_aux = declared-Covers r.aux r.aux_bytes f.no_aux d.aux_range in
    record {
      buffers = Covers-Apart _ _ _ _ out work os;
      request_spared = record {
        output = Apart-sym _ _ _ _ (Covers-Apart _ _ _ _ out asked oq);
        scratch = Apart-sym _ _ _ _ (Covers-Apart _ _ _ _ work asked sq);
      };
      result_spared = record {
        output = Covers-Apart _ _ _ _ told out d.result_output;
        scratch = Covers-Apart _ _ _ _ told work d.result_scratch;
      };
      input_spared = record {
        output = Apart-sym _ _ _ _ (Covers-Apart _ _ _ _ out data_in oi);
        scratch = Apart-sym _ _ _ _ (Covers-Apart _ _ _ _ work data_in si);
      };
      aux_spared = record {
        output = Apart-sym _ _ _ _ (Covers-Apart _ _ _ _ out data_aux oa);
        scratch = Apart-sym _ _ _ _ (Covers-Apart _ _ _ _ work data_aux sa);
      };
    }

-- ===== src/Primitive/Sizes.antt =====
-- What `schema` of crates/promptboot-core/src/lib.rs accepts: its errors are errors, its outputs are
-- not empty, and none of its checked operations overflows on the dimensions of a request.
use promptboot.Prelude.{
  fail_if, ◌||◌, some, false, ◌==◌, ◌*◌, checked_mul-eq, checked_add-eq, checked_add, checked_mul,
  Bool, ℕ, ◌≡◌, ◌≢◌, ◌<◌, arith, Ends, ends_ok, ends_err, bind-Ends, fail_if-Ends, ok_or-Ends,
  if-cases,
}
use promptboot.Status.{PrimitiveStatus, code}
use promptboot.Primitive.{PrimitiveRequest, mul_or, add_or}
use promptboot.Primitive.Schema.{
  Schema, schema, bias_residual_schema, quantized_schema, rmsnorm_schema, rope_schema,
  softmax_schema, attention_schema, swiglu_schema, argmax_schema,
}

abbrev pub IsError : PrimitiveStatus → Type 0
IsError s = code s ≢ 0

abbrev pub IsNonempty : Schema → Type 0
IsNonempty s = 0 < s.output_words

dimension-IsError : IsError PrimitiveStatus.dimension
unfolding code
dimension-IsError = omega arith

pub arithmetic_overflow-IsError : IsError PrimitiveStatus.arithmetic_overflow
unfolding code
arithmetic_overflow-IsError = omega arith

guard : (b : Bool) → Ends IsError (λ t. b ≡ false) (fail_if b PrimitiveStatus.dimension)
guard b = fail_if-Ends b _ dimension-IsError

times : (a b : ℕ) → Ends IsError (λ c. checked_mul a b ≡ some c) (mul_or a b)
times a b = ok_or-Ends _ _ arithmetic_overflow-IsError

plus : (a b : ℕ) → Ends IsError (λ c. checked_add a b ≡ some c) (add_or a b)
plus a b = ok_or-Ends _ _ arithmetic_overflow-IsError

bias_residual-Ends : (r : PrimitiveRequest) → Ends IsError IsNonempty (bias_residual_schema r)
unfolding bias_residual_schema
bias_residual-Ends r =
    bind-Ends (guard _) λ _ g.
      bind-Ends (times _ _) λ words _. bind-Ends (times _ _) λ input _. ends_ok (ground arith)

quantized-Ends : (r : PrimitiveRequest) → Ends IsError IsNonempty (quantized_schema r)
unfolding quantized_schema
quantized-Ends r = bind-Ends (guard _) λ _ g. bind-Ends (times _ _) λ blocks _.
    bind-Ends (times _ _) λ dequant _. bind-Ends (times _ _) λ input _.
      bind-Ends (times _ _) λ aux _. bind-Ends (plus _ _) λ scaled e.
        bind-Ends (plus _ _)
          λ words f. ends_ok (omega (arith, (checked_add-eq _ _ e).0, (checked_add-eq _ _ f).0))

rmsnorm-Ends : (r : PrimitiveRequest) → Ends IsError IsNonempty (rmsnorm_schema r)
unfolding rmsnorm_schema
rmsnorm-Ends r =
    bind-Ends (guard _)
      λ _ g. bind-Ends (times _ _) λ input _. bind-Ends (times _ _) λ aux _. ends_ok (ground arith)

rope-Ends : (r : PrimitiveRequest) → Ends IsError IsNonempty (rope_schema r)
unfolding rope_schema
rope-Ends r = bind-Ends (guard _) λ _ g. bind-Ends (times r.dim0 r.dim1) λ words e.
    bind-Ends (times _ _) λ input _. ends_ok (ground (arith, (checked_mul-eq r.dim0 r.dim1 e).0))

softmax-Ends : (r : PrimitiveRequest) → Ends IsError IsNonempty (softmax_schema r)
unfolding softmax_schema
softmax-Ends r = bind-Ends (guard _) λ _ g. bind-Ends (times _ _) λ input _. ends_ok (ground arith)

positive-product : (a b : ℕ) → 0 < a → 0 < b → 0 < a * b
positive-product a b p q = grind arith

attention-Ends : (r : PrimitiveRequest) → Ends IsError IsNonempty (attention_schema r)
unfolding attention_schema
attention-Ends r = bind-Ends (guard _) λ _ g. bind-Ends (times _ _) λ queries _.
    bind-Ends (times _ _) λ keys _. bind-Ends (times _ _) λ kv_words _.
      bind-Ends (times _ _) λ both _. bind-Ends (plus _ _) λ input_words _.
        bind-Ends (times r.dim2 2) λ scores e. bind-Ends (plus r.dim3 scores) λ per_head f.
          bind-Ends (times _ _) λ input _. bind-Ends (times r.dim0 per_head) λ words h. ends_ok (
            rw ((checked_mul-eq r.dim0 per_head h).0) (
              positive-product r.dim0 per_head (ground arith) (
                ground (arith, (checked_add-eq r.dim3 scores f).0, (checked_mul-eq r.dim2 2 e).0))))

swiglu-Ends : (r : PrimitiveRequest) → Ends IsError IsNonempty (swiglu_schema r)
unfolding swiglu_schema
swiglu-Ends r = bind-Ends (guard _) λ _ g. bind-Ends (times _ _) λ input _.
    bind-Ends (times _ _) λ aux _.
      bind-Ends (times r.dim0 2) λ words e. ends_ok (ground (arith, (checked_mul-eq r.dim0 2 e).0))

argmax-Ends : (r : PrimitiveRequest) → Ends IsError IsNonempty (argmax_schema r)
unfolding argmax_schema
argmax-Ends r = bind-Ends (guard _) λ _ g. bind-Ends (times _ _) λ input _. ends_ok (omega arith)

-- `schema` fails with an error, and an accepted request has an output.
pub schema-Ends : (r : PrimitiveRequest) → Ends IsError IsNonempty (schema r)
unfolding schema code
schema-Ends r =
    if-cases (Ends IsError IsNonempty) (r.operation == 1) _ _ (λ _. bias_residual-Ends r)
      λ _.
        if-cases (Ends IsError IsNonempty) (r.operation == 2 || r.operation == 3) _ _
          (λ _. quantized-Ends r)
          λ _.
            if-cases (Ends IsError IsNonempty) (r.operation == 4) _ _ (λ _. rmsnorm-Ends r)
              λ _.
                if-cases (Ends IsError IsNonempty) (r.operation == 5) _ _ (λ _. rope-Ends r)
                  λ _.
                    if-cases (Ends IsError IsNonempty) (r.operation == 6) _ _ (λ _. softmax-Ends r)
                      λ _.
                        if-cases (Ends IsError IsNonempty) (r.operation == 7) _ _
                          (λ _. attention-Ends r)
                          λ _.
                            if-cases (Ends IsError IsNonempty) (r.operation == 8) _ _
                              (λ _. swiglu-Ends r)
                              λ _.
                                if-cases (Ends IsError IsNonempty) (r.operation == 9) _ _
                                  (λ _. argmax-Ends r) λ _. ends_err (omega arith)

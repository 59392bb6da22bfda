-- ===== src/Primitive/Outcomes.antt =====
-- What every call of `promptboot_run_primitive` in crates/promptboot-core/src/lib.rs leaves behind,
-- on success and on each failure.
use promptboot.Prelude.{
  ℕ, ◌+◌, ◌*◌, ◌<◌, ◌≤◌, ◌≡◌, ◌⊎◌, inl, inr, refl, ◌∙◌, some, Result, ok, bind-Ends, Ends, ends_ok,
  ends_err, arith,
}
use promptboot.Status.{PrimitiveStatus, code}
use promptboot.Arena.{Arena, Region, usage}
use promptboot.Primitive.{no_arena, primitive_scratch, PrimitiveRequest, PrimitiveResult}
use promptboot.Primitive.Schema.{Schema, schema}
use promptboot.Primitive.Memory.{
  Memory, load, store, copy_bytes, Same, Apart, length-load, store-inside, store-outside,
}
use promptboot.Primitive.Run.{
  Outcome, Response, request_size, result_size, finish, publish, settle, run_primitive,
}
use promptboot.Primitive.Refusals.{
  Refused, failed-Refused, refuses, Sized, Fits, addresses-Ends, header-Ends, lengths-Ends,
  alignments-Only, staged-Ends,
}
use promptboot.Primitive.Apart.{Spared, Separate, checks-Separate}

-- The memory outside the output and the scratch buffer, and what the call reads and reports in.
pub record Kept (request result : ℕ) (r : PrimitiveRequest) (before after : Memory) : Type 0 where
  pub elsewhere : (p n : ℕ) → Spared r p n → Same before after p n
  pub request_kept : Same before after request request_size
  pub result_kept : Same before after result result_size
  pub input_kept : Same before after r.input r.input_bytes
  pub aux_kept : Same before after r.aux r.aux_bytes

-- The call returned 0: the output begins with the words of the schema, the bytes that the kernel
-- staged, within its capacity, and is as it was behind them.
pub record Succeeded (r : PrimitiveRequest) (outcome : Outcome) (before : Memory)
    (out : Response × Memory) : Type 0 where
  pub zero_returned : out.0.returned ≡ 0
  pub kernel : outcome.status ≡ PrimitiveStatus.ok
  pub chosen : Schema
  pub by_schema : schema r ≡ ok chosen
  pub room : chosen.output_words ≤ r.output_capacity_words
  pub copied : (i : ℕ) → i < chosen.output_words * 4 → out.1 (r.output + i) ≡ outcome.bytes i
  pub behind :
      (i : ℕ)
      → chosen.output_words * 4 ≤ i
      → i < r.output_capacity_words * 4
      → out.1 (r.output + i) ≡ before (r.output + i)
  pub result : PrimitiveResult
  pub written : out.0.result ≡ some result
  pub status : result.status ≡ 0
  pub words : result.output_words ≡ chosen.output_words

-- The call returned an error, and every byte of the output is as it was.
pub record Failed (r : PrimitiveRequest) (before : Memory) (out : Response × Memory) : Type 0 where
  pub refused : Refused out.0
  pub output_kept : Same before out.1 r.output (r.output_capacity_words * 4)

pub record Ended (request result : ℕ) (r : PrimitiveRequest) (outcome : Outcome) (before : Memory)
    (out : Response × Memory) : Type 0 where
  pub kept : Kept request result r before out.1
  pub ends : Succeeded r outcome before out ⊎ Failed r before out

module _ (request result : ℕ) (r : PrimitiveRequest) (s : Schema) (n : ℕ) (region : Region)
    (arena : Arena) (memory : Memory) (sized : Sized r (s, n)) (fits : Fits r s n)
    (within : region.offset + n ≤ r.scratch_bytes) (apart : Separate request result r) where
  abbrev stage : ℕ
  stage = r.scratch + region.offset

  -- The staging changes nothing outside the scratch buffer,
  staging_kept :
      (bytes : ℕ → ℕ) (p m : ℕ)
      → Apart p m r.scratch r.scratch_bytes
      → Same memory (store stage n bytes memory) p m
  staging_kept bytes p m a j h =
      store-outside stage n bytes memory (p + j)
        (λ i l e. a j (region.offset + i) h (omega arith) (omega (arith, e)))

  bytes_room : n ≤ r.output_capacity_words * 4
  bytes_room = omega (arith, sized.bytes, fits.output_room)

  -- and the copy nothing outside the output.
  copy_kept :
      (staged : Memory) (p m : ℕ)
      → Apart p m r.output (r.output_capacity_words * 4)
      → Same staged (copy_bytes stage r.output n staged) p m
  unfolding copy_bytes
  copy_kept staged p m a j h =
      store-outside r.output n _ staged (p + j) (λ i l. a j i h (omega (arith, bytes_room)))

  -- What is kept of everything that is spared is kept of what the checks name.
  Spared-Kept :
      (after : Memory)
      → ((p m : ℕ) → Spared r p m → Same memory after p m)
      → Kept request result r memory after
  Spared-Kept after k = record {
    elsewhere = k;
    request_kept = k request request_size apart.request_spared;
    result_kept = k result result_size apart.result_spared;
    input_kept = k r.input r.input_bytes apart.input_spared;
    aux_kept = k r.aux r.aux_bytes apart.aux_spared;
  }

  failed-Ended :
      (outcome : Outcome) (response : Response)
      → Refused response
      → Ended request result r outcome memory (response, store stage n outcome.bytes memory)
  failed-Ended outcome response h = record {
    kept = Spared-Kept _ (λ p m a. staging_kept outcome.bytes p m a.scratch);
    ends = inr (record { refused = h; output_kept = staging_kept outcome.bytes _ _ apart.buffers });
  }

  copied-Ended :
      (outcome : Outcome) (response : Response) (q : PrimitiveResult)
      → outcome.status ≡ PrimitiveStatus.ok
      → response.returned ≡ 0
      → response.result ≡ some q
      → q.status ≡ 0
      → q.output_words ≡ s.output_words
      → Ended request result r outcome memory
          (response, copy_bytes stage r.output n (store stage n outcome.bytes memory))
  unfolding copy_bytes
  copied-Ended outcome response q k z w st words = record {
    kept = Spared-Kept _ (λ p m a j h.
        copy_kept (store stage n outcome.bytes memory) p m a.output j h
        ∙ staging_kept outcome.bytes p m a.scratch j h);
    ends = inl (record {
      zero_returned = z;
      kernel = k;
      chosen = s;
      by_schema = sized.chosen;
      room = fits.output_room;
      copied = λ i h.
          store-inside r.output n _ _ i (omega (arith, sized.bytes))
          ∙ store-inside stage n outcome.bytes memory i (omega (arith, sized.bytes));
      behind = λ i l h.
          store-outside r.output n _ _ (r.output + i) (λ j m. omega (arith, sized.bytes))
          ∙ staging_kept outcome.bytes r.output (r.output_capacity_words * 4) apart.buffers i h;
      result = q;
      written = w;
      status = st;
      words = words;
    });
  }

  finish-Ended :
      (outcome : Outcome) (status : PrimitiveStatus)
      → outcome.status ≡ status
      → Ended request result r outcome memory (
          finish r (s, n) (region, arena) outcome.index (store stage n outcome.bytes memory) status)
  unfolding finish code
  finish-Ended outcome PrimitiveStatus.ok k =
      copied-Ended outcome _ _ k refl refl refl (let l = sized.small in omega arith)
  finish-Ended outcome status k = failed-Ended outcome _ (
      failed-Refused r status primitive_scratch outcome.index 0 0 (some (usage arena))
        (omega arith))

settled :
    (request result : ℕ) (r : PrimitiveRequest) (outcome : Outcome) (memory : Memory)
    {m : Result Response (Response × Memory)}
    → Ends Refused (Ended request result r outcome memory) m
    → Ended request result r outcome memory (settle memory m)
settled request result r outcome memory (ends_ok h) = h
settled request result r outcome memory (ends_err h) = record {
  kept = record {
    elsewhere = λ p n a i l. refl;
    request_kept = λ i l. refl;
    result_kept = λ i l. refl;
    input_kept = λ i l. refl;
    aux_kept = λ i l. refl;
  };
  ends = inr (record { refused = h; output_kept = λ i l. refl });
}

-- A call of the primitive entry point changes no byte of the request, the result, the input or the
-- auxiliary input by what it stages and copies, nor any byte outside the output and the scratch buffer.
-- It either returns 0, with status 0 and the number of words in the result, the kernel having succeeded:
-- then the words of the schema fit into the output and are the bytes that the kernel staged, and the
-- output behind them is as it was. Or it returns an error code, every byte of the output as it was, and
-- a result that is either untouched or tells that same code and no words. This holds whatever the
-- pointers, the request, the memory and the kernel, which writes in its staging region only.
pub run_primitive-Ended :
    (execute : PrimitiveRequest → Memory → Outcome) (request result : ℕ) (local : PrimitiveRequest)
    (memory : Memory)
    → Ended request result local
        (execute local memory)
        memory
        (run_primitive execute request result local memory)
unfolding run_primitive publish code
run_primitive-Ended execute request result local memory =
    settled request result local (execute local memory) memory (
      bind-Ends (addresses-Ends request result local) λ ranges d.
        bind-Ends (refuses _ local PrimitiveStatus.overlap no_arena _ _ _ (omega arith)) λ _ o.
          bind-Ends (header-Ends local) λ sized z.
            bind-Ends (lengths-Ends local sized.0 sized.1) λ _ f.
              bind-Ends (alignments-Only local _) λ _ _.
                bind-Ends
                  (staged-Ends local (load memory local.scratch local.scratch_bytes) sized.1)
                  λ stage w. ends_ok (
                    finish-Ended request result local sized.0 sized.1 stage.0 stage.1 memory z f
                      (omega (arith, w, length-load memory local.scratch local.scratch_bytes))
                      (checks-Separate request result local ranges sized.0 sized.1 d o f)
                      (execute local memory) _ refl))

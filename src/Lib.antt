-- ===== src/Lib.antt =====
-- promptboot: a freestanding UEFI application that loads a language model from the boot volume and
-- answers prompts on the firmware console. This library models the parts of it that decide: what
-- memory is handed out, what the keyboard makes of a line, which requests the numeric entry point
-- accepts, what the model target reports when something fails, what the console contracts decide, which
-- model files are opened, how they are hashed, how text becomes tokens, and how generated bytes become
-- console text.
--
-- The parts, and how they interact:
-- - Status: the status codes of crates/promptboot-core/src/lib.rs that the arena and the primitive
--   entry point share.
-- - Arena: `Arena` of crates/promptboot-core/src/arena.rs, a bump allocator over a byte slice. One
--   definition per method, under its name (`new`, `allocate`, `seal`, `reset`, `usage`,
--   `region_bounds`, `region`, `region_mut`); `&mut self` is a state that is passed on, and the slice
--   that `region_mut` lends is the list of bytes that its client leaves there. Arena/Align has the
--   arithmetic of the alignment, Arena/Allocate the invariant and `allocate`, Arena/Regions the lent
--   regions, Arena/Sessions the sequences of calls, as a step relation.
-- - Primitive: `promptboot_run_primitive` of crates/promptboot-core/src/lib.rs, with the request and
--   the result as records and pointers as addresses. Primitive/Schema is `schema`, one definition
--   per arm of its match; Primitive/Run is the entry point, cut where the code writes nothing, checks
--   the version, the lengths, the alignments, and stages in an arena of Arena. What it calls in
--   crates/promptboot-core/src/fp32_sse2.rs, `execute`, is a parameter: it gives a status, an index
--   and the bytes that it leaves in its staging region. Primitive/Memory is the memory behind the
--   pointers, a byte at each address; the result is a value beside it. Primitive/Divisible,
--   Primitive/Sizes, Primitive/Staging, Primitive/Refusals, Primitive/Apart and Primitive/Outcomes have
--   the theorems.
-- - Editor: `Editor` of src/editor.rs, the line editor, with the calls of its `Output` as a list of
--   events and one definition per branch of `process_key`. Editor/Branches has what each branch
--   does, Editor/Invariant the invariant, Editor/Sessions what a console shows behind any keys,
--   Editor/Lines whole lines, Editor/Limits the terminator pairs and the end of the prompt index.
-- - ModelContract: src/model_contract.rs, the pure contracts of the model target: Record (the
--   printed record), Cleanup (masks and order of the cleanup), Reading (the file reads), Storage (the
--   failures up to the open file and of the allocations), and in the file itself the modes, the
--   timer and the classified failures. The theorems are in Emission, Decimal, Order, Transfer, Masks
--   and Timing.
-- - Console: src/console_contract.rs, the checks of the console bindings and statuses.
-- - History: `ConsoleHistory` of src/console_history.rs, for any number of lines in the ring. The flat
--   array of cells is one list; History/Ring has the invariant and the sequences of calls,
--   History/View the lines and the cursor in view, History/Written what a unit changes there.
-- - Repl: src/repl_contract.rs and `decide_history` of crates/promptboot-core/src/lib.rs: commands,
--   the decision on the history and the committed tokens; Repl/Rendering is `render_console_text`,
--   with its two loops as recursive functions and the output by its room.
-- - Sha256: crates/promptboot-core/src/sha256.rs. Sha256/Compress has the message schedule and the
--   rounds; Sha256/Padding the hash of a whole message as the reference, Sha256/Stream the invariant
--   of `update`, Sha256/Digest that of `finish`. Whether the processor has the SHA instructions, and
--   what the assembly routine computes with them, are parameters.
-- - Utf8: `Utf8Decoder` of src/repl_contract.rs. Utf8/Scalars has the two encodings as the reference;
--   Utf8/Reading and Utf8/Decoding one call of `push`, Utf8/Pieces the sequences of calls, and
--   Utf8/Encoded what becomes of well-formed text.
-- - Model: `ModelView` of crates/promptboot-core/src/model.rs. Model/Errors, Model/Image, Model/Header,
--   Model/Sections, Model/Tensors, Model/Tokens and Model/Merges are the checks of
--   `open_authenticated`, in Model/Open, one definition per loop, loop body and guard; Model/Digests
--   compares hashes and Model/Text is `core::str::from_utf8`. Model/View has the accessors, and a slice
--   that they lend is its bounds in the file. The file is an address, a length and a function from
--   offsets to bytes; the hashes are computed by Sha256. Model/Accepts, Model/Layout,
--   Model/Vocabulary, Model/Joins and Model/Opening say what is accepted, Model/Authentic what the
--   hashes are, Model/Lookup and Model/Texts what is lent.
-- - MpInference: the entry of the application processors in src/mp_inference.rs, `ap_entry` up to its
--   barrier and `EntryBarrier::wait`, with one turn per access to a shared atomic; a load of the spin
--   loop that sees nothing new is no turn. A run is any sequence of turns. MpInference/Counts sums over
--   the processors, MpInference/Entry has the invariant, MpInference/Runs and MpInference/Completion
--   what every run keeps and comes to.
-- - Tokenizer: crates/promptboot-core/src/tokenizer.rs, over the view of Model/View. Table is the hash
--   table of the merges with the tokens of the bytes behind it, kept by words (`u32_at` and `put_u32` at
--   multiples of four), and Construct `build`, `construct` and the storage, an error of `construct` carrying what it has
--   written; Alphabet is `gpt2_codepoint`
--   and `encoded_byte`, Pretoken the tool tags and `pretoken_length`, Encode `bpe`, `regex_fragments`,
--   `control` and `ordinary`, Prompt `compute_prompt`, Render and Conversation the two calls that fill
--   the caller's buffers, Decode `decode_piece`. The scratch buffer is kept as what its three parts
--   hold, and the faults that its tests inject are left out. Below each of these modules stand its
--   theorems; Opened joins the tokenizer to the model that `open_authenticated` opened.
--
-- Numbers. Words are numbers of ℕ; checked operations compare with the largest word, and the `usize`
-- of the 64-bit targets is a 64-bit word. `remainder << 1` in `is_divisible` wraps, as `% 2 ^ 64`.
-- The arrays are lists of their length.
-- Bounds and fuel. The loop of `is_divisible` has 64 rounds, that of `next_cleanup_bit` ten, as in the
-- code; the digits of a number have 20 rounds, since a 64-bit word has no more digits.
-- The loops over bytes in Sha256, Utf8 and Model/Text have the number of bytes as fuel, since every turn
-- takes one at least; the other loops of Model have the number of rounds that the code has. Slices have
-- at most 2^63 - 1 bytes, which is what Rust guarantees. In Tokenizer the merges of a segment have its
-- length as fuel, since a merge makes it one shorter, and the loops over fragments and tags the length of
-- the text, since each takes a byte at least; a search in the index has 51 rounds and the search for a
-- free entry as many as there are entries, as in the code.
-- In Prelude stand the tests, lists, slices, bits and results that the parts share.
--
-- Not modelled: the floating-point kernels and the inference engine, since their subject is
-- arithmetic on floats and vector instructions; the UEFI glue in src/main.rs, src/model_target.rs and
-- src/model_repl.rs, which calls the firmware; and the host tools under crates/promptboot-tools. Nor
-- are the status bar, and of src/mp_inference.rs the slot masks, the exchange of the ready flags and
-- the processor registers: the parts above do not call them.
pub mod Prelude
pub mod ModelContract
pub mod Status
pub mod Arena
pub mod Editor
pub mod Primitive
pub mod Console
pub mod History
pub mod Repl
pub mod Sha256
pub mod Utf8
pub mod Model
pub mod MpInference
pub mod Tokenizer

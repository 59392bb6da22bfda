-- ===== src/Tokenizer.antt =====
-- The tokenizer of crates/promptboot-core/src/tokenizer.rs.
pub mod Alphabet
pub mod Pretoken
pub mod Table
pub mod Construct
pub mod Encode
pub mod Prompt
pub mod Render
pub mod Conversation
pub mod Decode
pub mod Opened
mod Toy
mod Tests
mod Samples

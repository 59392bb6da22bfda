-- ===== src/Model.antt =====
-- The model container of crates/promptboot-core/src/model.rs.
pub mod Errors
pub mod Image
pub mod Header
pub mod Sections
pub mod Tensors
pub mod View
pub mod Accepts
pub mod Layout
pub mod Text
pub mod Digests
pub mod Tokens
pub mod Merges
pub mod Open
pub mod Vocabulary
pub mod Joins
pub mod Opening
pub mod Lookup
pub mod Texts
mod Tests
pub mod Authentic

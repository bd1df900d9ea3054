-- ===== src/Texture.antt =====
-- Texture formats and aspects: src/api/texture_format.rs, with the enums that it reads.
pub mod Aspect
pub mod Format
pub mod Semantics
pub mod Compression
pub mod Queries
pub mod Pairing
pub mod Footprint

-- ===== src/Access.antt =====
-- Typed resource accesses: src/api/access.rs.
pub mod Cause
pub mod Range
pub mod Aspect
pub mod Kind
pub mod Construct
pub mod Laws
pub mod Usage

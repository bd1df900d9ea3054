-- ===== src/Examples.antt =====
-- Tests on concrete inputs.
pub mod Data
pub mod Facts
pub mod Order
pub mod Hazards
pub mod Accesses
pub mod Formats
pub mod States
pub mod Coverage
pub mod Initialization
pub mod Simulation

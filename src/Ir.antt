-- ===== src/Ir.antt =====
-- crates/kwokka-ir: the flat binary form of a conductor, read in place. Bytes are numbers below 256
-- in a list; `usize` has 64 bits.
pub mod Fault
pub mod Bytes
pub mod Node
pub mod Policy
pub mod Registry
pub mod Config
pub mod Tables
pub mod Slots
pub mod Sections
pub mod Check
pub mod View
pub mod Blob
mod Tests

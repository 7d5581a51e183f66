-- ===== src/Examples.antt =====
-- The theorems at concrete inputs, one file for each part of the program.
pub mod TypesAbi
pub mod Machine
pub mod Peephole
pub mod Flow
pub mod Blocks
pub mod Shift
pub mod Colors
pub mod Selection

-- ===== src/Rv64.antt =====
-- The RV64 back end (src/backend/rv64): instructions, the virtual machine that runs them, and the
-- peephole passes over them.
pub mod Op
pub mod Inst
pub mod Words
pub mod Memory
pub mod Vm
pub mod Peephole
pub mod DeadLabels
pub mod Isel

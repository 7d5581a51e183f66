-- ===== src/Ir.antt =====
-- The intermediate representation: its analyses and transformations (src/backend/ir).
pub mod Inst
pub mod Vars
pub mod Cfg
pub mod Flow
pub mod Dominance
pub mod Liveness
pub mod DeadBlock
pub mod StrengthReduce
pub mod ConstantFold
pub mod Colors

-- ===== src/Alu.antt =====
-- The arithmetic cores of op_arithmetic.go and op_bit_logical.go: values and flags, no state.
pub mod Spec
pub mod Add
pub mod Extend
pub mod Bcd
pub mod Shift
mod Tests

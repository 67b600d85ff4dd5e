-- ===== src/Cpu.antt =====
-- The processor: cpu.go, ea.go and the instruction handlers.
pub mod History
pub mod State
pub mod Debug
pub mod Access
pub mod Stream
pub mod Exception
pub mod Group0
pub mod Ea
pub mod Arithmetic
pub mod Multiply
pub mod Compare
pub mod Extend
pub mod Bcd
pub mod Logical
pub mod Shift
pub mod Move
pub mod Multiple
pub mod Control
pub mod System
pub mod Dispatch
pub mod Step
pub mod Until
pub mod Inspect
mod Tests

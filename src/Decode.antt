-- ===== src/Decode.antt =====
-- Which handler and which cycle count belong to an opcode: the tables that the init functions of
-- op_*.go fill, and the fields that ea.go predecodes.
pub mod EaMask
pub mod Fields
pub mod Cycles
pub mod Registration
pub mod Arithmetic
pub mod Logical
pub mod Control
pub mod Transfer
pub mod System
pub mod Table
pub mod Lines

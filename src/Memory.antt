-- ===== src/Memory.antt =====
-- memory.go and bus.go.
pub mod Ram
pub mod Device
pub mod PageMap
pub mod Bus
mod Tests

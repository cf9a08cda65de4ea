-- ===== src/Install.antt =====
-- internal/install: wiring the program into a shell's startup files and taking it out again.
pub mod Hook
pub mod PathList
pub mod Files
pub mod Placement
mod Tests

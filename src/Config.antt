-- ===== src/Config.antt =====
-- internal/config: the settings, from the files, the environment and the defaults.
pub mod File
pub mod Durations
pub mod Choices
pub mod Settings
pub mod Usable
pub mod Sources
pub mod Precedence
pub mod Provenance
pub mod Table
pub mod Truth
pub mod Editor
pub mod Write
mod Tests

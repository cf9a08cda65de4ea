-- ===== src/Config/Truth.antt =====
-- What it takes for the report of internal/config/provenance.go to tell the truth about one setting:
-- the value in force is the one that what it names would put in force alone.
pub mod Refusals
pub mod Fallbacks
pub mod Origins
pub mod Row
pub mod Rows
pub mod Timed
pub mod Policies
pub mod Wallets
pub mod Particular
pub mod Report
pub mod Blank

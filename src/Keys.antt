-- ===== src/Keys.antt =====
-- internal/keys: the keys of an account, and what is done with them.
pub mod Move
pub mod Fingerprint
pub mod Load
pub mod Giveup
pub mod Lifetimes
pub mod Expire
pub mod Enumerate
pub mod Askpass
pub mod Protect
pub mod Wallet
mod Tests

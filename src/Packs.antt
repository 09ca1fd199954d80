-- ===== src/Packs.antt =====
-- packs/: declarative specialisations of the core.
pub mod Loader
pub mod Ownership
pub mod Loading
pub mod Twice

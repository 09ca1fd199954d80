-- ===== src/Resolver.antt =====
-- resolver/: from observed columns to metrics.
pub mod Matcher
pub mod Suggest
pub mod Funnel
pub mod Tiers
pub mod Ranking
pub mod Likeness
pub mod Ranked
pub mod WriteBack

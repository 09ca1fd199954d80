-- ===== src/Ingestion.antt =====
-- ingestion/: the source contract, the intermediate representation and the pipeline.
pub mod Ir
pub mod Source
pub mod Checkpoint
pub mod RateLimit
pub mod Router
pub mod Pipeline
pub mod Synthetic

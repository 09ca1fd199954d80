-- ===== src/Tests.antt =====
-- Runs of the development on small inputs.
mod Data
mod Graph
mod Neo4j
mod Packs
mod Resolver
mod Ingestion
mod Loads
mod EndToEnd

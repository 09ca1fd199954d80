-- ===== src/Graph.antt =====
-- graph/: the core ontology, the store behind it, and the client that writes to it.
pub mod Model
pub mod Store
pub mod Client
pub mod Protocol
pub mod Neo4j

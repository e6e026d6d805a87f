-- ===== src/Correlator.antt =====
-- The package internal/correlator: the walk over links (graph.go) and the chain that is built from
-- it (correlator.go).
pub mod Graph
pub mod Chain
mod Tests

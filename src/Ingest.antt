-- ===== src/Ingest.antt =====
-- pkg/ingest: validation of samples, limits on the number of series, and the ingest handler.
pub mod Websocket
pub mod Dashboard
pub mod Limits
pub mod Cardinality
pub mod Handler

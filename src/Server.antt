-- ===== src/Server.antt =====
-- pkg/server: the monitors, the runs of the compaction that they watch, the handlers of the server,
-- its settings and its shutdown.
pub mod Monitor
pub mod Tasks
pub mod Setup
pub mod Handlers
pub mod Shutdown

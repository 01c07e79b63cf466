-- ===== src/Sdk.antt =====
-- pkg/sdk: the collectors of metrics, the client that names them, the batcher that sends, and the
-- transport.
pub mod Labels
pub mod Collectors
pub mod Histogram
pub mod Client
pub mod Batcher
pub mod Transport
pub mod Paths
pub mod Middleware
pub mod Runtime

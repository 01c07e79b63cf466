-- ===== src/Compaction.antt =====
-- pkg/compaction: raw samples are gathered into aggregates of five minutes, those into aggregates
-- of an hour, and what is compacted is deleted.
pub mod Decimal
pub mod Rounding
pub mod Percentile
pub mod Aggregate
pub mod Compactor
pub mod Conservation
pub mod RoundTrip
pub mod Extremes
pub mod Untraced
pub mod Resolutions
pub mod Cleanup

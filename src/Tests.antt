-- ===== src/Tests.antt =====
-- Runs of the models on concrete inputs, and each theorem with hypotheses at an input that meets
-- them.
pub mod Data
mod QueryTests
mod ExecutorTests
mod CompactionTests
mod IngestTests
mod StorageTests
mod SdkTests
mod HandlerTests
mod ServerTests
mod ExportTests
mod DashboardTests
mod BadgerTests

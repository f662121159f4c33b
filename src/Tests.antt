-- ===== src/Tests.antt =====
-- Runs of the model on small inputs, and each theorem at an input that meets its hypotheses.
pub mod Samples
pub mod OutboxRuns
pub mod NotifyRuns
pub mod CorrelateRuns
pub mod IngestRuns
pub mod WorkerRuns
pub mod JobRuns
pub mod NormalizeRuns
pub mod HistoryRuns
pub mod ClientRuns

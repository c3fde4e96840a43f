-- ===== src/Tests.antt =====
-- Concrete runs of the model, and the theorems at concrete inputs.
mod Samples
mod CoreRuns
mod RelayRuns
mod ClientRuns
mod WindowRuns
mod ConnectionRuns
mod DeliveryRuns
mod PhaseRuns
mod AutostartRuns
mod HistoryRuns
mod ClickRuns

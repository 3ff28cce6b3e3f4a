-- ===== src/Tests.antt =====
-- Runs of the model on concrete inputs, and the theorems at such inputs.
mod StoreRuns
mod TransferRuns
mod ReplicationRuns
mod PlacementRuns
mod LogRuns
mod LoopRuns
mod ClusterRuns
mod RaftRuns
mod UpdateRuns
mod ShortTermRuns
mod ControlRuns

-- ===== src/Examples.antt =====
-- Runs of the model at concrete inputs.
mod Cluster
mod Workflows
mod Advance
mod Tasks
mod Notification
mod Http
mod Config
mod Logs

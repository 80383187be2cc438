-- ===== src/Tests.antt =====
-- Runs of the model at concrete inputs.
mod Formats
mod Logs
mod Stores
mod Snapshots
mod Mounting
mod Files
mod Nodes
mod Switching
mod Blocks

-- ===== src/Engine.antt =====
-- Parts of the sync engine of the plugin: apps/obsidian-plugin/src/sync/engine.
pub mod EventGate
pub mod WorkQueue
pub mod Checkpoint
pub mod PullPlan
mod Examples

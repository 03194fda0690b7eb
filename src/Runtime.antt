-- ===== src/Runtime.antt =====
-- src/agent_farm_runtime: the task store, the leases and the reconciler.
pub mod Metadata
pub mod Models
pub mod Equality
pub mod Result
pub mod Transitions
pub mod World
pub mod Deployment
pub mod Store
pub mod Files
pub mod Rotation
pub mod Handoff
pub mod Lifecycle
pub mod Executor
pub mod Slurm
pub mod Observers
pub mod Master
pub mod Reconciler
mod Tests

-- ===== src/Farmkit.antt =====
-- src/farmkit: the tools of a worker.
pub mod Classify
pub mod Rulings
pub mod Ledger
pub mod Steps
pub mod Act
pub mod Intent
pub mod Waits
pub mod Observe
pub mod Verify
pub mod Runner
pub mod Replace
mod Tests

-- ===== src/Pool.antt =====
-- internal/pool: the slots, the sessions, the unique batches, and what selects among them.
pub mod State
pub mod Batch
pub mod Preferred
pub mod Cooldowns
pub mod Eligible
pub mod Budget
pub mod Loads
pub mod Reserve
pub mod Pick
pub mod Setup
pub mod Relays
pub mod Opening
pub mod Views
pub mod Acquire
pub mod Entries
pub mod Feedback
pub mod System

-- ===== src/Tasks.antt =====
-- The tasks component: business/tasks.
pub mod Types
pub mod Service
pub mod Worker
pub mod Delivery
pub mod Outcome
pub mod Dispatch
pub mod Plan
pub mod Statuses
pub mod Rounds

-- ===== src/Resources.antt =====
-- The resources component: business/resources.
pub mod Types
pub mod Service
pub mod Dispatch
pub mod Booking
pub mod Choice
pub mod InputFile
pub mod Workers
pub mod Interleaving
pub mod Serial
pub mod Books
pub mod Ledger
pub mod Limits
pub mod Overbooking
pub mod Exhaustion
pub mod Starvation
pub mod Capacity
pub mod Alone
pub mod Success
pub mod Addition
pub mod Registration

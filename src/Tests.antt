-- ===== src/Tests.antt =====
-- Runs of the api on a small database: two drivers, a ride, the offers for it, and a pool.
pub mod Dispatch
pub mod Seats
pub mod Queue
pub mod Windows
pub mod Realtime
pub mod Told
pub mod Reconcile
pub mod Retry
pub mod Presence
pub mod Match
pub mod Booking
pub mod Stops
pub mod Keys
pub mod Sessions
pub mod Waves

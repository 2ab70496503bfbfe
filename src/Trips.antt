-- ===== src/Trips.antt =====
-- Trips and the assignment ledger: what the dispatch tables promise, with the tables left out.
-- `TripRef` is apps/api/src/modules/dispatch/dispatch.types.ts; a `Guard` is a row of
-- `driver_active_assignment` and an `Offer` a row of `dispatch_offer`.
pub mod Ledger
pub mod View
pub mod Exclusive
pub mod PoolRows

-- ===== src/Realtime.antt =====
-- apps/api/src/modules/realtime/realtime.protocol.ts: the versions that order what clients are told, and
-- what each of them is told of a trip.
pub mod Gate
pub mod Versions
pub mod Snapshots
pub mod Gateway
use rcab.Base.{ℕ, Bool, true, false, Option}
use rcab.Store.{RideStatus, PoolState, Pool}
use rcab.Accept.{
  AcceptFailure, trip_taken, offer_expired, offer_stale, offer_revoked, trip_not_claimable,
}

-- `rideStatusVersion`, on the statuses that there are.
abbrev pub ride_status_version : RideStatus → ℕ
ride_status_version RideStatus.requested = 1
ride_status_version RideStatus.dispatching = 2
ride_status_version RideStatus.accepted = 3
ride_status_version RideStatus.en_route = 4
ride_status_version RideStatus.arrived = 5
ride_status_version RideStatus.in_progress = 6
ride_status_version RideStatus.completed = 10
ride_status_version RideStatus.cancelled = 10
ride_status_version RideStatus.no_driver = 10
ride_status_version RideStatus.no_show = 10

-- TERMINAL_RIDE_STATUSES and TERMINAL_POOL_STATES.
abbrev pub is_terminal_ride : RideStatus → Bool
is_terminal_ride RideStatus.completed = true
is_terminal_ride RideStatus.cancelled = true
is_terminal_ride RideStatus.no_driver = true
is_terminal_ride RideStatus.no_show = true
is_terminal_ride _ = false

abbrev pub is_terminal_pool : PoolState → Bool
is_terminal_pool PoolState.aborted = true
is_terminal_pool PoolState.completed = true
is_terminal_pool _ = false

pub record PoolUpdate : Type 0 where
  pub shared_ride_id : ℕ
  pub version : ℕ
  pub seat_count : ℕ
  pub max_seats : ℕ
  pub pool_status : PoolState
  pub terminal : Bool
  pub driver_id : Option ℕ

abbrev pub pool_update_payload : Pool → PoolUpdate
pool_update_payload p = record {
  shared_ride_id = p.ride_id;
  version = p.state_version;
  seat_count = p.seat_count;
  max_seats = p.max_seats;
  pool_status = p.pool_state;
  terminal = is_terminal_pool p.pool_state;
  driver_id = p.claimed_by_driver_id;
}

pub data OfferOutcome : Type 0 where
  assigned lost expired revoked rejected : OfferOutcome

-- `outcomeForAcceptFailure`.
abbrev pub outcome_for_accept_failure : AcceptFailure → OfferOutcome
outcome_for_accept_failure trip_taken = lost
outcome_for_accept_failure offer_expired = expired
outcome_for_accept_failure offer_stale = expired
outcome_for_accept_failure offer_revoked = revoked
outcome_for_accept_failure trip_not_claimable = revoked
outcome_for_accept_failure _ = rejected

-- ===== src/Trips/View.antt =====
-- The ledger that the tables stand for. A trip is read by its primary key.
use rcab.Base.{ℕ, Option, none, some, List, find_by}
use rcab.Store.{TripRef, solo, shared, RideStatus, PoolState, Ride, Pool, Db}
use rcab.Trips.Ledger.{
  Ledger, TripState, absent, gathering, claimable, closed, bound, stray, IsExclusive,
}

abbrev pub ride_key : Ride → ℕ
ride_key r = r.id

abbrev pub pool_key : Pool → ℕ
pool_key p = p.ride_id

abbrev pub find_ride : ℕ → List Ride → Option Ride
find_ride = find_by ride_key

abbrev pub find_pool : ℕ → List Pool → Option Pool
find_pool = find_by pool_key

-- A driver has it, unless nobody does.
abbrev pub held : Option ℕ → TripState
held none = closed
held (some d) = bound d

abbrev pub waiting : Option ℕ → TripState
waiting none = claimable
waiting (some d) = closed

abbrev pub ride_state : RideStatus → Option ℕ → TripState
ride_state RideStatus.requested d = waiting d
ride_state RideStatus.dispatching d = closed
ride_state RideStatus.accepted d = held d
ride_state RideStatus.en_route d = held d
ride_state RideStatus.arrived d = held d
ride_state RideStatus.in_progress d = held d
ride_state RideStatus.completed d = closed
ride_state RideStatus.cancelled d = closed
ride_state RideStatus.no_show d = closed
ride_state RideStatus.no_driver d = closed

abbrev pub claimed : Option ℕ → TripState
claimed none = claimable
claimed (some d) = bound d

abbrev pub pool_state : PoolState → Option ℕ → TripState
pool_state PoolState.opened none = gathering
pool_state PoolState.opened (some d) = stray d
pool_state PoolState.closed_full d = claimed d
pool_state PoolState.closed_timeout d = claimed d
pool_state PoolState.closed_started d = held d
pool_state PoolState.aborted d = closed
pool_state PoolState.completed d = closed

abbrev pub of_ride : Option Ride → TripState
of_ride none = absent
of_ride (some r) = ride_state r.status r.driver_id

abbrev pub of_pool : Option Pool → TripState
of_pool none = absent
of_pool (some p) = pool_state p.pool_state p.claimed_by_driver_id

abbrev pub trip_state : Db → TripRef → TripState
trip_state db (solo id) = of_ride (find_ride id db.rides)
trip_state db (shared id) = of_pool (find_pool id db.pools)

abbrev pub ledger : Db → Ledger
ledger db = record { state = trip_state db; guards = db.guards; offers = db.offers }

abbrev pub IsSound : Db → Type 0
IsSound db = IsExclusive (ledger db)

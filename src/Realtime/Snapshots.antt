-- ===== src/Realtime/Snapshots.antt =====
-- apps/api/src/modules/realtime/realtime-snapshot.service.ts: what a client is told of a pool, a ride or an
-- assignment, read from the committed rows. The ids are well formed. A vehicle is given as its row, and
-- the vehicles stand in the order in which they came, the newest first.
pub mod Privacy
pub mod Assignments
use rcab.Base.{
  ℕ, ◌==◌, ◌&&◌, ◌||◌, Bool, true, false, Option, none, some, List, map, is_id, is_some, find_where,
  exists_where, if◌then◌else◌,
}
use rcab.Store.{
  TripRef, solo, shared, Point, RideStatus, PoolState, Ride, Pool, PoolMember, StopType, RideStop,
  Guard, Vehicle, Db,
}
use rcab.Trips.View.{find_ride, find_pool}
use rcab.Guards.{find_by_driver}
use rcab.Stops.{stops_of}
use rcab.Realtime.{ride_status_version, is_terminal_ride, PoolUpdate, pool_update_payload}

abbrev pub is_member : ℕ → ℕ → PoolMember → Bool
is_member pool passenger m = m.pool_id == pool && m.passenger_id == passenger

abbrev pub is_party : ℕ → ℕ → Ride → Bool
is_party id user r = r.id == id && (r.passenger_id == user || is_id r.driver_id user)

-- `isPoolMember` and `isRideParty`.
unfoldable pub is_pool_member : Db → ℕ → ℕ → Bool
is_pool_member db pool passenger = exists_where (is_member pool passenger) db.members

unfoldable pub is_ride_party : Db → ℕ → ℕ → Bool
is_ride_party db id user = exists_where (is_party id user) db.rides

-- `vehicleFor`.
unfoldable pub vehicle_for : Db → Option ℕ → Option Vehicle
vehicle_for db none = none
vehicle_for db (some driver) =
    find_where (λ (v : Vehicle). v.driver_id == driver && v.active) db.vehicles

-- A stop as a member sees it.
pub record MemberStop : Type 0 where
  pub sequence_index : ℕ
  pub type : StopType
  pub mine : Bool
  pub confirmed : Bool
  pub point : Option Point

pub record MemberView : Type 0 where
  pub active : Bool
  pub quoted_fare_cents : ℕ
  pub pickup : Point
  pub dropoff : Point

pub record PoolSnapshot : Type 0 where
  pub update : PoolUpdate
  pub vehicle : Option Vehicle
  pub completed_at : Option ℕ
  pub me : MemberView
  pub itinerary : List MemberStop

abbrev pub member_stop : ℕ → RideStop → MemberStop
member_stop passenger s =
    let mine = s.passenger_id == passenger in
    record {
      sequence_index = s.sequence_index;
      type = s.type;
      mine = mine;
      confirmed = is_some s.confirmed_at;
      point = if mine then some s.point else none;
    }

abbrev pub member_view : PoolMember → MemberView
member_view m = record {
  active = m.active;
  quoted_fare_cents = m.agreed_fare_cents;
  pickup = m.origin;
  dropoff = m.dest;
}

abbrev pub member_snapshot : Db → ℕ → Pool → PoolMember → PoolSnapshot
member_snapshot db passenger p m = record {
  update = pool_update_payload p;
  vehicle = vehicle_for db p.claimed_by_driver_id;
  completed_at = p.completed_at;
  me = member_view m;
  itinerary = map (member_stop passenger) (stops_of db p.ride_id);
}

-- `poolSnapshot`: the pool joined with the row of the member.
unfoldable pub pool_snapshot : Db → ℕ → ℕ → Option PoolSnapshot
unfolding vehicle_for
pool_snapshot db pool passenger = elim (find_pool pool db.pools) [
  | none ↦ none
  | some p ↦ elim (find_where (is_member pool passenger) db.members) [
    | none ↦ none
    | some m ↦ some (member_snapshot db passenger p m)
  ]
]

-- `poolUpdate`.
unfoldable pub pool_update : Db → ℕ → Option PoolUpdate
pool_update db pool = elim (find_pool pool db.pools) [
  | none ↦ none
  | some p ↦ some (pool_update_payload p)
]

pub record RideSnapshot : Type 0 where
  pub ride_id : ℕ
  pub version : ℕ
  pub status : RideStatus
  pub terminal : Bool
  pub driver_id : Option ℕ
  pub vehicle : Option Vehicle
  pub pickup : Point
  pub dropoff : Point
  pub fare_cents : ℕ

-- `rideSnapshot`.
unfoldable pub ride_snapshot : Db → ℕ → ℕ → Option RideSnapshot
unfolding vehicle_for
ride_snapshot db id user = elim (find_where (is_party id user) db.rides) [
  | none ↦ none
  | some r ↦ some (record {
    ride_id = r.id;
    version = ride_status_version r.status;
    status = r.status;
    terminal = is_terminal_ride r.status;
    driver_id = r.driver_id;
    vehicle = vehicle_for db r.driver_id;
    pickup = r.origin;
    dropoff = r.dest;
    fare_cents = r.fare_cents;
  })
]

-- What a driver is told of the assignment, solo or shared.
pub data AssignmentView : Type 0 where
  solo_view : Guard → Ride → ℕ → AssignmentView
  shared_view : Guard → Pool → List RideStop → AssignmentView

abbrev pub trip_of_view : AssignmentView → TripRef
trip_of_view (solo_view g r version) = solo r.id
trip_of_view (shared_view g p stops) = shared p.ride_id

-- `driverAssignment`.
unfoldable pub assignment_view : Db → Guard → TripRef → Option AssignmentView
assignment_view db g (solo id) = elim (find_ride id db.rides) [
  | none ↦ none
  | some r ↦ some (solo_view g r (ride_status_version r.status))
]
assignment_view db g (shared id) = elim (find_pool id db.pools) [
  | none ↦ none
  | some p ↦ some (shared_view g p (stops_of db id))
]

unfoldable pub driver_assignment : Db → ℕ → Option AssignmentView
unfolding assignment_view
driver_assignment db driver = elim (find_by_driver db driver) [
  | none ↦ none
  | some g ↦ assignment_view db g g.trip
]

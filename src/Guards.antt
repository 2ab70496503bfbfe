-- ===== src/Guards.antt =====
-- apps/api/src/modules/dispatch/assignment.repository.ts: the driver-exclusivity guard
-- (`driver_active_assignment`) and the statements that claim a trip.
pub mod Claims
use rcab.Base.{
  ℕ, suc, ◌+◌, ◌==◌, ◌&&◌, not, leb, max, Bool, true, false, Option, none, some, List, [], ◌∷◌,
  is_id, is_some, if◌then◌else◌, find_where, find_by, update_where, delete_where, exists_where,
}
use rcab.Store.{
  TripRef, solo, shared, same_trip, RideStatus, PoolState, Ride, Pool, PoolMember, Guard, User,
  Vehicle, Db,
}
use rcab.Offers.{is_requested, is_claimable}

-- What a transaction comes to: it commits tables and a value, or an error rolls it back.
pub data Outcome {ℓ} (A : Type ℓ) : Type ℓ where
  commit : Db → A → Outcome A
  abort : Outcome A

-- The tables after a transaction that started on `db`.
abbrev pub after {ℓ} : {A : Type ℓ} → Db → Outcome A → Db
after db (commit db' a) = db'
after db abort = db

pub data Acquired : Type 0 where
  acquired driver_busy trip_taken : Acquired

abbrev pub new_guard : ℕ → ℕ → TripRef → Option ℕ → ℕ → Guard
new_guard now driver trip offer g = record {
  driver_id = driver;
  trip = trip;
  offer_id = offer;
  generation = g;
  assigned_at = now;
}

abbrev pub same_offer : Option ℕ → Guard → Bool
same_offer none g = false
same_offer (some id) g = is_id g.offer_id id

-- The account has a row of `driver`, which the column `driver_id` refers to.
abbrev pub has_driver : Db → ℕ → Bool
has_driver db driver = exists_where (λ (u : User). u.id == driver && u.has_driver_row) db.users

-- `acquire`: the primary key and the two trip columns give typed refusals, in the order in which
-- the indexes are checked; a violation of the column `offer_id` is no expected one, and throws, and so
-- does one of the reference to the driver, which is checked last.
-- The check on the generation holds: a direct claim takes at least 1, an offer has one by the same check.
unfoldable pub acquire : Db → ℕ → ℕ → TripRef → Option ℕ → ℕ → Outcome Acquired
acquire db now driver trip offer g =
    if exists_where (λ h. h.driver_id == driver) db.guards
    then commit db driver_busy
    else if exists_where (λ h. same_trip h.trip trip) db.guards
    then commit db trip_taken
    else if exists_where (same_offer offer) db.guards
    then abort
    else if has_driver db driver
    then commit (record db { guards = new_guard now driver trip offer g ∷ db.guards }) acquired
    else abort

abbrev pub binds : ℕ → TripRef → Guard → Bool
binds driver trip g = g.driver_id == driver && same_trip g.trip trip

-- `release`: only the guard that binds this driver to this trip.
unfoldable pub release : Db → ℕ → TripRef → Db × Bool
release db driver trip = (
  record db { guards = delete_where (binds driver trip) db.guards },
  exists_where (binds driver trip) db.guards,
)

-- `findByDriver` and `findByTrip`.
unfoldable pub find_by_driver : Db → ℕ → Option Guard
find_by_driver db driver = find_where (λ g. g.driver_id == driver) db.guards

unfoldable pub find_by_trip : Db → TripRef → Option Guard
find_by_trip db trip = find_where (λ g. same_trip g.trip trip) db.guards

abbrev pub claimable_row : ℕ → Ride → Bool
claimable_row id r = r.id == id && is_requested r.status && not (is_some r.driver_id)

abbrev pub claimed_ride : ℕ → ℕ → ℕ → Ride → Ride
claimed_ride now driver g r = record r {
  status = RideStatus.accepted;
  driver_id = some driver;
  accepted_at = some now;
  dispatch_generation = max r.dispatch_generation g;
}

-- `claimSoloRow`: a row that is not claimable is a bug, and throws.
unfoldable pub claim_solo_row : Db → ℕ → ℕ → ℕ → ℕ → Outcome Ride
claim_solo_row db now id driver g = elim (find_where (claimable_row id) db.rides) [
  | none ↦ abort
  | some r ↦
      commit
        (record db { rides = update_where (claimable_row id) (claimed_ride now driver g) db.rides })
        (claimed_ride now driver g r)
]

-- The trigger on each update of `shared_rides`.
abbrev pub bumped : Pool → Pool
bumped p = record p { state_version = suc p.state_version }

abbrev pub claimable_pool : ℕ → ℕ → Pool → Bool
claimable_pool id g p =
    p.ride_id == id
    && not (is_some p.claimed_by_driver_id)
    && is_claimable p.pool_state
    && p.dispatch_generation == g

abbrev pub claimed_pool : ℕ → ℕ → Pool → Pool
claimed_pool now driver p =
    bumped (record p { claimed_by_driver_id = some driver; claimed_at = some now })

-- `claimSharedRow`.
unfoldable pub claim_shared_row : Db → ℕ → ℕ → ℕ → ℕ → Outcome (Unit {0})
claim_shared_row db now id driver g =
    if exists_where (claimable_pool id g) db.pools
    then commit
        (record db {
          pools = update_where (claimable_pool id g) (claimed_pool now driver) db.pools;
        })
        tt
    else abort

abbrev pub aborted_pool : Pool → Pool
aborted_pool p = bumped (record p { pool_state = PoolState.aborted })

-- The trigger on a pool that turns terminal: its members may join others.
unfoldable pub release_members : ℕ → List PoolMember → List PoolMember
release_members id =
    update_where (λ m. m.pool_id == id && m.active) (λ m. record m { active = false })

-- `abortUnclaimedPool`.
unfoldable pub abort_unclaimed_pool : Db → ℕ → ℕ → Db × Bool
abort_unclaimed_pool db id g =
    if exists_where (claimable_pool id g) db.pools
    then (
      record db {
        pools = update_where (claimable_pool id g) aborted_pool db.pools;
        members = release_members id db.members;
      },
      true,
    )
    else (db, false)

pub data Eligibility : Type 0 where
  eligible driver_ineligible vehicle_capacity : Eligibility

-- `max(v.seats)` over the driver's active vehicles, and 0 where there is none.
unfoldable pub max_seats : ℕ → List Vehicle → ℕ
max_seats driver [] = 0
max_seats driver (v ∷ vs) =
    let rest = max_seats driver vs in
    if v.driver_id == driver && v.active then max v.seats rest else rest

-- `driverEligibility`.
unfoldable pub driver_eligibility : Db → ℕ → ℕ → Eligibility
driver_eligibility db driver seats = elim (find_by (λ (u : User). u.id) driver db.users) [
  | none ↦ driver_ineligible
  | some u ↦
      if u.is_active && u.is_driver && u.has_driver_row
      then (if leb seats (max_seats driver db.vehicles) then eligible else vehicle_capacity)
      else driver_ineligible
]

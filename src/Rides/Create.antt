-- ===== src/Rides/Create.antt =====
-- The start of a ride: `create` of rides.repository.ts, which a client repeats under its
-- idempotency key, and `claimSolo`, the assignment without an offer.
use Prim.Native.String.{String}
use text.Mathlib.Text.{◌==◌ as str_eq}
use rcab.Base.{
  ℕ, ◌==◌, ◌&&◌, not, max, Bool, true, false, Option, none, some, ◌∷◌, is_some, if◌then◌else◌,
  find_where,
}
use rcab.Store.{solo, Point, RideStatus, RideType, Ride, Topic, Db}
use rcab.Trips.View.{find_ride}
use rcab.Offers.{is_requested, revoke_live_for_trip}
use rcab.Guards.{Outcome, commit, abort, acquire, Acquired, claim_solo_row}
use rcab.Outbox.{enqueue}

-- The transaction of `claimSolo` past its first test.
unfoldable pub claim_requested : Db → ℕ → ℕ → ℕ → ℕ → Outcome (Option Ride)
claim_requested db now id driver g = elim (acquire db now driver (solo id) none g) [
  | abort ↦ abort
  | commit db1 got ↦ elim got [
    | Acquired.acquired ↦ elim (claim_solo_row db1 now id driver g) [
      | abort ↦ abort
      | commit db2 row ↦ commit (revoke_live_for_trip db2 now (solo id) none).0 (some row)
    ]
    | Acquired.driver_busy ↦ commit db1 none
    | Acquired.trip_taken ↦ commit db1 none
  ]
]

-- `claimSolo`: the assignment without an offer.
unfoldable pub claim_solo : Db → ℕ → ℕ → ℕ → Outcome (Option Ride)
unfolding claim_requested
claim_solo db now id driver = elim (find_ride id db.rides) [
  | none ↦ commit db none
  | some r ↦
      if is_requested r.status && not (is_some r.driver_id)
      then claim_requested db now id driver (max r.dispatch_generation 1)
      else commit db none
]

pub record NewRide : Type 0 where
  pub passenger_id : ℕ
  pub origin : Point
  pub dest : Point
  pub fare_cents : ℕ
  pub key : String
  pub type : RideType
  pub scheduled_for : Option ℕ
  pub fingerprint : Option String

abbrev pub is_scheduled : RideType → Bool
is_scheduled RideType.scheduled = true
is_scheduled RideType.normal = false

abbrev pub same_type : RideType → RideType → Bool
same_type RideType.scheduled t = is_scheduled t
same_type RideType.normal t = not (is_scheduled t)

-- The scope of an idempotency key: its owner and the operation, which the ride's type names.
abbrev pub in_scope : NewRide → Ride → Bool
in_scope n r =
    r.passenger_id == n.passenger_id
    && same_type r.idempotency_operation n.type
    && str_eq r.idempotency_key n.key

abbrev pub created_ride : ℕ → NewRide → Ride
created_ride id n = record {
  id = id;
  passenger_id = n.passenger_id;
  origin = n.origin;
  dest = n.dest;
  fare_cents = n.fare_cents;
  status = RideStatus.requested;
  type = n.type;
  scheduled_for = n.scheduled_for;
  idempotency_key = n.key;
  idempotency_operation = n.type;
  request_fingerprint = n.fingerprint;
  driver_id = none;
  accepted_at = none;
  en_route_at = none;
  arrived_at = none;
  started_at = none;
  completed_at = none;
  cancelled_at = none;
  cancelled_by = none;
  cancel_reason = none;
  dispatch_generation = if is_scheduled n.type then 0 else 1;
}

pub record Created : Type 0 where
  pub row : Ride
  pub created : Bool

-- The work intent that makes the new ride dispatchable; a scheduled ride with no time throws.
unfoldable pub enqueue_work : Db → ℕ → ℕ → ℕ → NewRide → Outcome (Unit {0})
enqueue_work db now id row n =
    if is_scheduled n.type
    then (elim n.scheduled_for [
      | none ↦ abort
      | some at ↦ commit (enqueue db now row Topic.ride_wake_schedule id 1 (some at)) tt
    ])
    else commit (enqueue db now row Topic.ride_dispatch_requested id 1 none) tt

-- `create`: `id` and `row` are the new ids of the ride and of its outbox row.
unfoldable pub create : Db → ℕ → ℕ → ℕ → NewRide → Outcome Created
unfolding enqueue_work
create db now id row n = elim (find_where (in_scope n) db.rides) [
  | some old ↦ commit db (record { row = old; created = false })
  | none ↦ elim (enqueue_work (record db { rides = created_ride id n ∷ db.rides }) now id row n) [
    | abort ↦ abort
    | commit db' _ ↦ commit db' (record { row = created_ride id n; created = true })
  ]
]

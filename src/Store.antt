-- ===== src/Store.antt =====
-- The rows of the Postgres tables that the api works on, and the tables together
-- (apps/api/src/db/schema.ts, modules/rides/ride-row.ts, modules/dispatch/dispatch.types.ts).
-- Ids are numbers: the code only compares them, and `isUuid` has held of each. Instants are
-- milliseconds. Coordinates are carried here, and compared only in the itinerary.
use Prim.Native.String.{String}
use rcab.Base.{ℕ, ◌==◌, Bool, true, false, Option, List, ℕ_discrete, ◌≡◌, ◌↔◌, arith}

-- A trip in either table.
pub data TripRef : Type 0 where
  solo : ℕ → TripRef
  shared : ℕ → TripRef

abbrev pub trip_id : TripRef → ℕ
trip_id (solo id) = id
trip_id (shared id) = id

-- `ride_id = …` or `shared_ride_id = …`.
abbrev pub same_trip : TripRef → TripRef → Bool
same_trip (solo a) (solo b) = a == b
same_trip (shared a) (shared b) = a == b
same_trip (solo a) (shared b) = false
same_trip (shared a) (solo b) = false

pub TripRef-discrete : Discrete TripRef
TripRef-discrete = hlevel ℕ_discrete

pub same_trip_iff : (t u : TripRef) → (same_trip t u ≡ true) ↔ (t ≡ u)
same_trip_iff (solo a) (solo b) = ground arith
same_trip_iff (shared a) (shared b) = ground arith
same_trip_iff (solo a) (shared b) = ground arith
same_trip_iff (shared a) (solo b) = ground arith

pub record Point : Type 0 where
  pub lat : ℕ
  pub lng : ℕ

pub data RideStatus : Type 0 where
  requested dispatching accepted en_route arrived in_progress : RideStatus
  completed cancelled no_show no_driver : RideStatus

pub data RideType : Type 0 where
  normal scheduled : RideType

pub data Actor : Type 0 where
  client driver : Actor

pub record Ride : Type 0 where
  pub id : ℕ
  pub passenger_id : ℕ
  pub origin : Point
  pub dest : Point
  pub fare_cents : ℕ
  pub status : RideStatus
  pub type : RideType
  pub scheduled_for : Option ℕ
  pub idempotency_key : String
  pub idempotency_operation : RideType
  pub request_fingerprint : Option String
  pub driver_id : Option ℕ
  pub accepted_at : Option ℕ
  pub en_route_at : Option ℕ
  pub arrived_at : Option ℕ
  pub started_at : Option ℕ
  pub completed_at : Option ℕ
  pub cancelled_at : Option ℕ
  pub cancelled_by : Option Actor
  pub cancel_reason : Option String
  pub dispatch_generation : ℕ

pub data PoolState : Type 0 where
  opened closed_full closed_timeout closed_started aborted completed : PoolState

pub record Pool : Type 0 where
  pub ride_id : ℕ
  pub seat_count : ℕ
  pub max_seats : ℕ
  pub pool_state : PoolState
  pub pool_opened_at : ℕ
  pub pool_closed_at : Option ℕ
  pub detour_budget_m : ℕ
  pub origin : Point
  pub dest : Point
  pub claimed_by_driver_id : Option ℕ
  pub claimed_at : Option ℕ
  pub completed_at : Option ℕ
  pub dispatch_generation : ℕ
  pub state_version : ℕ

pub record PoolMember : Type 0 where
  pub pool_id : ℕ
  pub passenger_id : ℕ
  pub origin : Point
  pub dest : Point
  pub agreed_fare_cents : ℕ
  pub idempotency_key : Option String
  pub active : Bool
  pub joined_at : ℕ

pub data StopType : Type 0 where
  pickup dropoff : StopType

pub record RideStop : Type 0 where
  pub ride_id : ℕ
  pub sequence_index : ℕ
  pub passenger_id : ℕ
  pub type : StopType
  pub point : Point
  pub confirmed_at : Option ℕ

pub data OfferState : Type 0 where
  offered accepted declined expired revoked : OfferState

pub record Offer : Type 0 where
  pub id : ℕ
  pub trip : TripRef
  pub driver_id : ℕ
  pub generation : ℕ
  pub wave_number : ℕ
  pub state : OfferState
  pub offered_at : ℕ
  pub expires_at : ℕ
  pub resolved_at : Option ℕ

-- A row of `driver_active_assignment`: the driver is bound to the trip.
pub record Guard : Type 0 where
  pub driver_id : ℕ
  pub trip : TripRef
  pub offer_id : Option ℕ
  pub generation : ℕ
  pub assigned_at : ℕ

pub data Topic : Type 0 where
  ride_dispatch_requested ride_wake_schedule : Topic
  pool_dispatch_requested pool_expire_schedule : Topic
  unknown_topic : Topic

pub record OutboxRow : Type 0 where
  pub id : ℕ
  pub topic : Topic
  pub aggregate_id : ℕ
  pub generation : ℕ
  -- The instant of the payload, where the topic has one; none if it is absent or no date.
  pub instant : Option ℕ
  pub available_at : ℕ
  pub attempts : ℕ
  pub max_attempts : ℕ
  pub lease_token : Option ℕ
  pub leased_until : Option ℕ
  pub processed_at : Option ℕ
  pub failed_at : Option ℕ

pub record User : Type 0 where
  pub id : ℕ
  pub is_active : Bool
  pub is_driver : Bool
  pub has_driver_row : Bool

pub record Vehicle : Type 0 where
  pub driver_id : ℕ
  pub seats : ℕ
  pub active : Bool

pub record Db : Type 0 where
  pub rides : List Ride
  pub pools : List Pool
  pub members : List PoolMember
  pub stops : List RideStop
  pub offers : List Offer
  pub guards : List Guard
  pub outbox : List OutboxRow
  pub users : List User
  pub vehicles : List Vehicle

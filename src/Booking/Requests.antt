-- ===== src/Booking/Requests.antt =====
-- The requests on a ride that is there (`listStops`, `getRide`, `transition` and `cancel` of
-- rides.controller.ts), with the removal of a wake (`cancelWake` of scheduled.service.ts). What
-- the queue's library lets be removed is the parameter `removable`.
use Prim.Native.String.{String}
use text.Mathlib.Text.{◌==◌ as str_eq}
use rcab.Base.{
  ℕ, ◌==◌, ◌&&◌, not, Bool, true, false, Option, none, some, List, ◌⊎◌, inl, inr, is_id, map,
  is_some, if◌then◌else◌,
}
use rcab.Store.{Point, RideStatus, Actor, Ride, StopType, RideStop, PoolState, Db}
use rcab.Trips.View.{find_ride, find_pool}
use rcab.Sessions.{Role}
use rcab.Rides.{RideFailure, not_found, not_owner, no_show_too_early, unknown_event, apply}
use rcab.Rides.Cancel.{CancelRequest, cancel}
use rcab.Rides.Create.{is_scheduled}
use rcab.Stops.{stops_of}
use rcab.Reconciler.{JobId, scheduled_wake, legacy_wake, JobState, Queues, put}
use rcab.Booking.{RequestError}

pub record StopView : Type 0 where
  pub sequence_index : ℕ
  pub passenger_id : ℕ
  pub type : StopType
  pub point : Point
  pub confirmed : Bool
  pub confirmed_at : Option ℕ

pub record RideStopsResponse : Type 0 where
  pub ride_id : ℕ
  pub pool_status : PoolState
  pub stops : List StopView

abbrev pub stop_view : RideStop → StopView
stop_view s = record {
  sequence_index = s.sequence_index;
  passenger_id = s.passenger_id;
  type = s.type;
  point = s.point;
  confirmed = is_some s.confirmed_at;
  confirmed_at = s.confirmed_at;
}

abbrev pub is_driver : Role → Bool
is_driver Role.driver = true
is_driver Role.client = false

-- `listStops`.
unfoldable pub list_stops : Db → ℕ → Role → ℕ → RequestError ⊎ RideStopsResponse
unfolding stops_of
list_stops db user role id = elim (find_pool id db.pools) [
  | none ↦ inl RequestError.ride_not_found
  | some p ↦
      if is_driver role && is_id p.claimed_by_driver_id user
      then inr (record {
        ride_id = id;
        pool_status = p.pool_state;
        stops = map stop_view (stops_of db id);
      })
      else inl RequestError.forbidden
]

pub record RideDetail : Type 0 where
  pub ride_id : ℕ
  pub passenger_id : ℕ
  pub driver_id : Option ℕ
  pub status : RideStatus
  pub fare_cents : ℕ
  pub origin : Point
  pub dropoff : Point
  pub cancelled_by : Option Actor
  pub cancel_reason : Option String
  pub accepted_at : Option ℕ
  pub en_route_at : Option ℕ
  pub arrived_at : Option ℕ
  pub started_at : Option ℕ
  pub completed_at : Option ℕ
  pub cancelled_at : Option ℕ

abbrev pub ride_detail : Ride → RideDetail
ride_detail r = record {
  ride_id = r.id;
  passenger_id = r.passenger_id;
  driver_id = r.driver_id;
  status = r.status;
  fare_cents = r.fare_cents;
  origin = r.origin;
  dropoff = r.dest;
  cancelled_by = r.cancelled_by;
  cancel_reason = r.cancel_reason;
  accepted_at = r.accepted_at;
  en_route_at = r.en_route_at;
  arrived_at = r.arrived_at;
  started_at = r.started_at;
  completed_at = r.completed_at;
  cancelled_at = r.cancelled_at;
}

abbrev pub may_read : ℕ → Role → Ride → Bool
may_read user Role.client r = r.passenger_id == user
may_read user Role.driver r = is_id r.driver_id user

-- `getRide`.
unfoldable pub get_ride : Db → ℕ → Role → ℕ → RequestError ⊎ RideDetail
get_ride db user role id = elim (find_ride id db.rides) [
  | none ↦ inl RequestError.ride_not_found
  | some r ↦ if may_read user role r then inr (ride_detail r) else inl RequestError.forbidden
]

pub record Advanced : Type 0 where
  pub ride_id : ℕ
  pub status : RideStatus

abbrev pub transition_error : RideFailure → RequestError
transition_error not_found = RequestError.ride_not_found
transition_error not_owner = RequestError.forbidden
transition_error unknown_event = RequestError.invalid_event
transition_error _ = RequestError.invalid_transition

-- `transition`, with `assertDriver`.
unfoldable pub request_transition : Db → ℕ → ℕ → Role → ℕ → String → Db × (RequestError ⊎ Advanced)
unfolding apply
request_transition db now user role id name =
    if is_driver role
    then (let (db', res) = apply db now id user name in
        (
          db',
          elim res [
            | inl reason ↦ inl (transition_error reason)
            | inr r ↦ inr (record { ride_id = r.id; status = r.status })
          ],
        ))
    else (db, inl RequestError.forbidden)

-- The event, if it is there, is `mark_no_show`.
pub record CancelRide : Type 0 where
  pub is_no_show : Bool
  pub reason : Option String

pub record Ended : Type 0 where
  pub ride_id : ℕ
  pub status : RideStatus
  pub cancelled_by : Option Actor

abbrev pub cancel_error : RideFailure → RequestError
cancel_error not_found = RequestError.ride_not_found
cancel_error not_owner = RequestError.forbidden
cancel_error no_show_too_early = RequestError.no_show_too_early
cancel_error _ = RequestError.invalid_transition

abbrev pub actor_of : Role → Actor
actor_of Role.client = Actor.client
actor_of Role.driver = Actor.driver

abbrev pub is_missing : Option String → Bool
is_missing none = true
is_missing (some s) = str_eq s ""

-- What is refused before the ride is read.
unfoldable pub cancel_guard : Role → CancelRide → Option RequestError
cancel_guard role dto =
    if dto.is_no_show && not (is_driver role)
    then some RequestError.forbidden
    else if is_driver role && (not dto.is_no_show && is_missing dto.reason)
    then some RequestError.reason_required
    else none

abbrev pub cancel_request : ℕ → ℕ → Role → ℕ → CancelRide → CancelRequest
cancel_request wait user role id dto = record {
  ride_id = id;
  actor = actor_of role;
  actor_id = user;
  is_no_show = dto.is_no_show;
  reason = if dto.is_no_show then some "no_show" else dto.reason;
  no_show_wait_ms = wait;
}

module _ (removable : JobState → Bool) where
  abbrev pub removed : Queues → JobId → Queues
  removed q id = elim (q id) [ none ↦ q | some j ↦ if removable j.state then put q id none else q ]

  -- `cancelWake`.
  unfoldable pub cancel_wake : Queues → ℕ → Queues
  cancel_wake q id = removed (removed q (scheduled_wake id 1)) (legacy_wake id)

  -- `cancel`.
  unfoldable pub request_cancel :
      Db → Queues → ℕ → ℕ → ℕ → Role → ℕ → CancelRide → (Db × Queues) × (RequestError ⊎ Ended)
  unfolding cancel_guard cancel cancel_wake
  request_cancel db q now wait user role id dto = elim (cancel_guard role dto) [
    | some e ↦ ((db, q), inl e)
    | none ↦
        let (db', res) = cancel db now (cancel_request wait user role id dto) in
        elim res [
          | inl reason ↦ ((db', q), inl (cancel_error reason))
          | inr (r, revoked) ↦ (
            (db', if is_scheduled r.type then cancel_wake q id else q),
            inr (record { ride_id = r.id; status = r.status; cancelled_by = r.cancelled_by }),
          )
        ]
  ]

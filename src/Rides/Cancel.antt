-- ===== src/Rides/Cancel.antt =====
-- The ends of a ride before its destination: cancellation, no-show, and a dispatch that found no
-- driver (`cancel` and `markNoDriver` of rides.repository.ts).
use Prim.Native.String.{String}
use rcab.Base.{
  ℕ, ◌+◌, ◌==◌, ◌&&◌, not, ltb, Bool, true, false, Option, none, some, List, is_id, is_some,
  if◌then◌else◌, ◌⊎◌, inl, inr,
}
use rcab.Store.{TripRef, solo, RideStatus, Actor, Ride, Db}
use rcab.Trips.View.{find_ride}
use rcab.Offers.{is_requested, RevokedOffer, revoke_live_for_trip}
use rcab.Guards.{release}
use rcab.Rides.{
  RideFailure, not_found, not_owner, invalid_transition, no_show_too_early, same_status, set_ride,
  with_status,
}

-- CLIENT_CANCELLABLE and DRIVER_CANCELLABLE.
abbrev pub client_cancellable : RideStatus → Bool
client_cancellable RideStatus.requested = true
client_cancellable RideStatus.dispatching = true
client_cancellable RideStatus.accepted = true
client_cancellable RideStatus.en_route = true
client_cancellable RideStatus.arrived = true
client_cancellable _ = false

abbrev pub driver_cancellable : RideStatus → Bool
driver_cancellable RideStatus.in_progress = true
driver_cancellable s = client_cancellable s

abbrev pub cancellable : Actor → RideStatus → Bool
cancellable Actor.client = client_cancellable
cancellable Actor.driver = driver_cancellable

pub record CancelRequest : Type 0 where
  pub ride_id : ℕ
  pub actor : Actor
  pub actor_id : ℕ
  pub is_no_show : Bool
  pub reason : Option String
  pub no_show_wait_ms : ℕ

abbrev pub owns : CancelRequest → Ride → Bool
owns c r = elim c.actor [
  | Actor.client ↦ r.passenger_id == c.actor_id
  | Actor.driver ↦ is_id r.driver_id c.actor_id
]

-- `arrivedMs === undefined || now - arrivedMs < noShowWaitMs`; the difference may be negative, so
-- the wait is added on the other side.
abbrev pub too_early : ℕ → ℕ → Option ℕ → Bool
too_early now wait none = true
too_early now wait (some arrived) = ltb now (arrived + wait)

-- Where the request lands, or why it is refused.
unfoldable pub cancel_target : ℕ → CancelRequest → Ride → RideFailure ⊎ RideStatus
cancel_target now c r =
    if c.is_no_show
    then (if same_status r.status RideStatus.arrived
        then (if too_early now c.no_show_wait_ms r.arrived_at
            then inl no_show_too_early
            else inr RideStatus.no_show)
        else inl invalid_transition)
    else if cancellable c.actor r.status
    then inr RideStatus.cancelled
    else inl invalid_transition

-- The guard of the bound driver, if there is one.
unfoldable pub release_bound : Db → Option ℕ → TripRef → Db
release_bound db none t = db
release_bound db (some d) t = (release db d t).0

abbrev pub cancelled_ride : ℕ → CancelRequest → RideStatus → Ride → Ride
cancelled_ride now c to r = record r {
  status = to;
  cancelled_at = some now;
  cancelled_by = some c.actor;
  cancel_reason = c.reason;
}

-- The write of `cancel`, once its checks have passed.
unfoldable pub end_ride_as : Db → ℕ → CancelRequest → Option ℕ → RideStatus → Db × List RevokedOffer
unfolding release_bound
end_ride_as db now c driver to =
    let db1 = set_ride db c.ride_id (cancelled_ride now c to) in
    let (db2, revoked) = revoke_live_for_trip db1 now (solo c.ride_id) none in
    (release_bound db2 driver (solo c.ride_id), revoked)

-- `RidesRepository.cancel`.
unfoldable pub cancel : Db → ℕ → CancelRequest → Db × (RideFailure ⊎ (Ride × List RevokedOffer))
unfolding cancel_target end_ride_as
cancel db now c = elim (find_ride c.ride_id db.rides) [
  | none ↦ (db, inl not_found)
  | some r ↦
      if owns c r
      then (elim (cancel_target now c r) [
        | inl reason ↦ (db, inl reason)
        | inr to ↦
            let (db', revoked) = end_ride_as db now c r.driver_id to in
            (db', inr (cancelled_ride now c to r, revoked))
      ])
      else (db, inl not_owner)
]

-- `generation !== undefined && generation !== current` is false.
abbrev pub at_generation : Option ℕ → ℕ → Bool
at_generation none current = true
at_generation (some g) current = g == current

-- `markNoDriver`.
unfoldable pub mark_no_driver : Db → ℕ → ℕ → Option ℕ → Db × Option (Ride × List RevokedOffer)
mark_no_driver db now id g = elim (find_ride id db.rides) [
  | none ↦ (db, none)
  | some r ↦
      if is_requested r.status && not (is_some r.driver_id) && at_generation g r.dispatch_generation
      then (let db1 = set_ride db id (with_status RideStatus.no_driver) in
          let (db2, revoked) = revoke_live_for_trip db1 now (solo id) none in
          (db2, some (with_status RideStatus.no_driver r, revoked)))
      else (db, none)
]

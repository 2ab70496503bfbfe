-- ===== src/Rides.antt =====
-- apps/api/src/modules/rides: the solo ride's life (rides.repository.ts and
-- ride-state-machine.service.ts). Here are the forward events; cancellation and creation are in
-- modules of their own. Each function is one transaction; `now` is the clock that it reads, and ids
-- that the database makes up are arguments. The notifications after a commit are left out.
pub mod Row
pub mod Moves
pub mod Cancel
pub mod Ends
pub mod Create
pub mod Claim
pub mod Replay
use Prim.Native.String.{String}
use text.Mathlib.Text.{◌==◌ as str_eq}
use rcab.Base.{
  ℕ, ◌+◌, ◌==◌, ◌&&◌, ◌||◌, ◌-◌, not, leb, ltb, max, Bool, true, false, Option, none, some, List,
  [], ◌∷◌, is_id, is_some, if◌then◌else◌, ◌⊎◌, inl, inr, find_where, update_where, exists_where,
}
use rcab.Store.{TripRef, solo, Point, RideStatus, RideType, Actor, Ride, Topic, Db}
use rcab.Trips.View.{find_ride}
use rcab.Offers.{is_requested, RevokedOffer, revoke_live_for_trip}
use rcab.Guards.{Outcome, commit, abort, acquire, Acquired, release, claim_solo_row}
use rcab.Outbox.{enqueue}

abbrev pub status_code : RideStatus → ℕ
status_code RideStatus.requested = 0
status_code RideStatus.dispatching = 1
status_code RideStatus.accepted = 2
status_code RideStatus.en_route = 3
status_code RideStatus.arrived = 4
status_code RideStatus.in_progress = 5
status_code RideStatus.completed = 6
status_code RideStatus.cancelled = 7
status_code RideStatus.no_show = 8
status_code RideStatus.no_driver = 9

abbrev pub same_status : RideStatus → RideStatus → Bool
same_status a b = status_code a == status_code b

-- TERMINAL_STATUSES.
abbrev pub is_terminal : RideStatus → Bool
is_terminal RideStatus.completed = true
is_terminal RideStatus.cancelled = true
is_terminal RideStatus.no_show = true
is_terminal _ = false

-- TIMESTAMP_FOR_STATUS: the column that a forward step stamps.
abbrev pub stamped : RideStatus → ℕ → Ride → Ride
stamped RideStatus.en_route now r = record r { en_route_at = some now }
stamped RideStatus.arrived now r = record r { arrived_at = some now }
stamped RideStatus.in_progress now r = record r { started_at = some now }
stamped RideStatus.completed now r = record r { completed_at = some now }
stamped _ now r = r

abbrev pub with_status : RideStatus → Ride → Ride
with_status s r = record r { status = s }

-- `UPDATE rides SET … WHERE id = …`.
abbrev pub set_ride : Db → ℕ → (Ride → Ride) → Db
set_ride db id f = record db { rides = update_where (λ r. r.id == id) f db.rides }

pub data RideFailure : Type 0 where
  not_found not_owner invalid_transition no_show_too_early unknown_event : RideFailure

-- The write of `transition`, once its checks have passed.
unfoldable pub advance : Db → ℕ → ℕ → ℕ → RideStatus → Db
advance db now id driver to =
    let db' = set_ride db id (λ r. with_status to (stamped to now r)) in
    if is_terminal to then (release db' driver (solo id)).0 else db'

unfoldable pub transition : Db → ℕ → ℕ → ℕ → RideStatus → RideStatus → Db × (RideFailure ⊎ Ride)
unfolding advance
transition db now id driver from to = elim (find_ride id db.rides) [
  | none ↦ (db, inl not_found)
  | some r ↦
      if is_id r.driver_id driver
      then (if same_status r.status from
          then (advance db now id driver to, inr (with_status to (stamped to now r)))
          else (db, inl invalid_transition))
      else (db, inl not_owner)
]

pub data RideEvent : Type 0 where
  start_en_route mark_arrived start_ride end_ride : RideEvent

-- RIDE_FORWARD_EVENTS: the events by name.
unfoldable pub ride_event : String → Option RideEvent
ride_event s =
    if str_eq s "start_en_route"
    then some start_en_route
    else if str_eq s "mark_arrived"
    then some mark_arrived
    else if str_eq s "start_ride"
    then some start_ride
    else if str_eq s "end_ride"
    then some end_ride
    else none

-- TRANSITIONS.
abbrev pub event_from : RideEvent → RideStatus
event_from start_en_route = RideStatus.accepted
event_from mark_arrived = RideStatus.en_route
event_from start_ride = RideStatus.arrived
event_from end_ride = RideStatus.in_progress

abbrev pub event_to : RideEvent → RideStatus
event_to start_en_route = RideStatus.en_route
event_to mark_arrived = RideStatus.arrived
event_to start_ride = RideStatus.in_progress
event_to end_ride = RideStatus.completed

unfoldable pub apply_event : Db → ℕ → ℕ → ℕ → RideEvent → Db × (RideFailure ⊎ Ride)
unfolding transition
apply_event db now id driver e = transition db now id driver (event_from e) (event_to e)

-- `RideStateMachine.apply`.
unfoldable pub apply : Db → ℕ → ℕ → ℕ → String → Db × (RideFailure ⊎ Ride)
unfolding apply_event ride_event
apply db now id driver name = elim (ride_event name) [
  | none ↦ (db, inl unknown_event)
  | some e ↦ apply_event db now id driver e
]

-- ===== src/Timers.antt =====
-- What timers do to a trip that still waits for a driver: the wake of a scheduled ride
-- (dispatch/dispatch-start.service.ts), its next window (scheduled/scheduled-retry.ts), and the hard
-- failure of a dispatch (`handleHardFail` of dispatch/dispatch.service.ts). The waves of offers that
-- a start runs, and the messages after a commit, are left out.
pub mod Moves
pub mod Windows
use rcab.Base.{
  ℕ, suc, ◌+◌, ◌-◌, ◌==◌, ◌&&◌, ◌||◌, not, leb, ltb, Bool, true, false, Option, none, some, List,
  is_some, if◌then◌else◌, update_where, exists_where,
}
use rcab.Store.{TripRef, solo, shared, RideType, Ride, Pool, Topic, Db}
use rcab.Trips.View.{find_ride, find_pool}
use rcab.Offers.{is_requested, RevokedOffer, revoke_live_for_trip}
use rcab.Guards.{abort_unclaimed_pool}
use rcab.Outbox.{enqueue}
use rcab.Rides.Cancel.{at_generation, mark_no_driver}
use rcab.Rides.Create.{is_scheduled}

pub data StartOutcome : Type 0 where
  started stale : StartOutcome

-- `startSolo`, up to the wave.
unfoldable pub start_solo : Db → ℕ → ℕ → StartOutcome
start_solo db id g = elim (find_ride id db.rides) [
  | none ↦ stale
  | some r ↦ if is_requested r.status && r.dispatch_generation == g then started else stale
]

-- `IN (generation - 1, generation)`; no row has a generation below 0.
abbrev pub wakes : ℕ → ℕ → Ride → Bool
wakes id g r =
    r.id == id
    && is_scheduled r.type
    && is_requested r.status
    && (suc r.dispatch_generation == g || r.dispatch_generation == g)

abbrev pub at_new_generation : ℕ → Ride → Ride
at_new_generation g r = record r { dispatch_generation = g }

-- `wakeScheduled`.
unfoldable pub wake_scheduled : Db → ℕ → ℕ → Db × StartOutcome
unfolding start_solo
wake_scheduled db id g =
    if exists_where (wakes id g) db.rides
    then (let db' = record db {
      rides = update_where (wakes id g) (at_new_generation g) db.rides;
    } in
        (db', start_solo db' id g))
    else (db, stale)

pub record Retry : Type 0 where
  pub passenger_id : ℕ
  pub previous_generation : ℕ
  pub generation : ℕ
  pub retry_count : ℕ
  pub first_retry : Bool
  pub revoked_offers : List RevokedOffer

abbrev pub rearmable : Option ℕ → Ride → Bool
rearmable expected r =
    is_scheduled r.type
    && is_requested r.status
    && not (is_some r.driver_id)
    && not (ltb r.dispatch_generation 1)
    && at_generation expected r.dispatch_generation

abbrev pub same_window : ℕ → ℕ → Ride → Bool
same_window id g r = r.id == id && r.dispatch_generation == g

-- The writes of `rearmScheduledRide`; `row` is the id of a new outbox row.
unfoldable pub rearm_row : Db → ℕ → ℕ → Ride → Db × Retry
rearm_row db now row r =
    let g = suc r.dispatch_generation in
    let db1 = record db {
      rides = update_where (same_window r.id r.dispatch_generation) (at_new_generation g) db.rides;
    } in
    let (db2, revoked) = revoke_live_for_trip db1 now (solo r.id) none in
    (
      enqueue db2 now row Topic.ride_dispatch_requested r.id g none,
      record {
        passenger_id = r.passenger_id;
        previous_generation = r.dispatch_generation;
        generation = g;
        retry_count = g - 1;
        first_retry = g == 2;
        revoked_offers = revoked;
      },
    )

unfoldable pub rearm_scheduled : Db → ℕ → ℕ → ℕ → Option ℕ → Db × Option Retry
unfolding rearm_row
rearm_scheduled db now row id expected = elim (find_ride id db.rides) [
  | none ↦ (db, none)
  | some r ↦
      if rearmable expected r
      then (let (db', retry) = rearm_row db now row r in (db', some retry))
      else (db, none)
]

-- `generation ?? pool.dispatchGeneration`.
abbrev pub or_current : Option ℕ → ℕ → ℕ
or_current none current = current
or_current (some g) current = g

-- The transaction that aborts a pool nobody took.
unfoldable pub abort_pool : Db → ℕ → ℕ → Option ℕ → Db × Option (List RevokedOffer)
abort_pool db now id given = elim (find_pool id db.pools) [
  | none ↦ (db, none)
  | some p ↦
      let g = or_current given p.dispatch_generation in
      if g == p.dispatch_generation && not (ltb g 1)
      then (let (db1, done) = abort_unclaimed_pool db id g in
          let (db2, revoked) = revoke_live_for_trip db1 now (shared id) none in
          if done then (db2, some revoked) else (db1, none))
      else (db, none)
]

abbrev pub is_scheduled_ride : Option Ride → Bool
is_scheduled_ride none = false
is_scheduled_ride (some r) = is_scheduled r.type

-- `handleHardFail`, up to the messages.
unfoldable pub hard_fail : Db → ℕ → ℕ → TripRef → Option ℕ → Db
unfolding rearm_scheduled abort_pool
hard_fail db now row (solo id) g =
    if is_scheduled_ride (find_ride id db.rides)
    then (rearm_scheduled db now row id g).0
    else (mark_no_driver db now id g).0
hard_fail db now row (shared id) g = (abort_pool db now id g).0

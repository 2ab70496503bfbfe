-- ===== src/Stops.antt =====
-- apps/api/src/modules/ride-lifecycle/ride-lifecycle.service.ts: a driver confirms the stops of a
-- pool, one after the other (`confirmStop` up to its commit), with the statements of
-- modules/matching/ride-stop.repository.ts.
pub mod Moves
pub mod Untouched
pub mod Counts
pub mod Answers
use rcab.Base.{
  ℕ, suc, ◌-◌, ◌==◌, ◌&&◌, not, leb, Bool, true, false, Option, none, some, List, is_some, is_id,
  ◌⊎◌, inl, inr, if◌then◌else◌, length, find_where, select_where, update_where, exists_where,
  sort_by,
}
use rcab.Store.{TripRef, shared, PoolState, Pool, StopType, RideStop, Db}
use rcab.Trips.View.{find_pool}
use rcab.Offers.{is_claimable}
use rcab.Guards.{Outcome, commit, abort, bumped, release, release_members}

pub record StopConfirm : Type 0 where
  pub ride_id : ℕ
  pub driver_id : ℕ
  pub sequence_index : ℕ
  pub type : StopType

pub data StopFailure : Type 0 where
  not_found not_owner wrong_type out_of_order : StopFailure

pub record Confirmed : Type 0 where
  pub stop : RideStop
  pub pending_after : ℕ
  pub ride_completed : Bool
  pub duplicate : Bool

-- `findByRideId`: in the order of their indexes.
unfoldable pub stops_of : Db → ℕ → List RideStop
stops_of db id =
    sort_by (λ s t. leb s.sequence_index t.sequence_index)
      (select_where (λ s. s.ride_id == id) db.stops)

abbrev pub is_open_stop : RideStop → Bool
is_open_stop s = not (is_some s.confirmed_at)

-- `countPending`.
unfoldable pub pending_stops : List RideStop → ℕ
pending_stops stops = length (select_where is_open_stop stops)

abbrev pub same_stop_type : StopType → StopType → Bool
same_stop_type StopType.pickup StopType.pickup = true
same_stop_type StopType.dropoff StopType.dropoff = true
same_stop_type StopType.pickup StopType.dropoff = false
same_stop_type StopType.dropoff StopType.pickup = false

abbrev pub confirmable : ℕ → ℕ → RideStop → Bool
confirmable id index s = s.ride_id == id && s.sequence_index == index && is_open_stop s

abbrev pub confirmed_stop : ℕ → RideStop → RideStop
confirmed_stop now s = record s { confirmed_at = some now }

-- `confirm`.
unfoldable pub confirm : Db → ℕ → ℕ → ℕ → Db × Option RideStop
confirm db now id index = elim (find_where (confirmable id index) db.stops) [
  | none ↦ (db, none)
  | some s ↦ (
    record db { stops = update_where (confirmable id index) (confirmed_stop now) db.stops },
    some (confirmed_stop now s),
  )
]

-- `markRideStarted`.
abbrev pub startable : ℕ → Pool → Bool
startable id p = p.ride_id == id && is_claimable p.pool_state

abbrev pub started_pool : Pool → Pool
started_pool p = bumped (record p { pool_state = PoolState.closed_started })

unfoldable pub mark_ride_started : Db → ℕ → Db
mark_ride_started db id = record db { pools = update_where (startable id) started_pool db.pools }

abbrev pub is_running : PoolState → Bool
is_running PoolState.closed_started = true
is_running s = is_claimable s

abbrev pub completable : ℕ → Pool → Bool
completable id p = p.ride_id == id && is_running p.pool_state

abbrev pub completed_pool : ℕ → Pool → Pool
completed_pool now p =
    bumped (record p { pool_state = PoolState.completed; completed_at = some now })

-- `markRideCompleted`, with the trigger that releases the members; it says whether a row was hit.
unfoldable pub mark_ride_completed : Db → ℕ → ℕ → Db × Bool
mark_ride_completed db now id =
    if exists_where (completable id) db.pools
    then (
      record db {
        pools = update_where (completable id) (completed_pool now) db.pools;
        members = release_members id db.members;
      },
      true,
    )
    else (db, false)

abbrev pub is_row : ℕ → Pool → Bool
is_row id p = p.ride_id == id

-- `touchPool`; a pool that is not there throws.
unfoldable pub touch_pool : Db → ℕ → Outcome (Unit {0})
touch_pool db id =
    if exists_where (is_row id) db.pools
    then commit (record db { pools = update_where (is_row id) bumped db.pools }) tt
    else abort

abbrev pub touched : {A : Type 0} → Outcome (Unit {0}) → A → Outcome A
touched (commit db u) a = commit db a
touched abort a = abort

-- The last stop completes the pool and frees the driver.
unfoldable pub complete_pool : Db → ℕ → StopConfirm → Confirmed → Outcome (StopFailure ⊎ Confirmed)
unfolding mark_ride_completed touch_pool
complete_pool db now c result =
    let (db1, done) = mark_ride_completed db now c.ride_id in
    if done
    then touched (touch_pool (release db1 c.driver_id (shared c.ride_id)).0 c.ride_id) (inr result)
    else abort

abbrev pub starts : StopConfirm → List RideStop → Bool
starts c stops = elim c.type [
  | StopType.pickup ↦ not (exists_where (λ s. is_some s.confirmed_at) stops)
  | StopType.dropoff ↦ false
]

-- The writes for the first stop that is not confirmed; `stops` are as they were read before.
unfoldable pub confirm_next :
    Db → ℕ → StopConfirm → List RideStop → Outcome (StopFailure ⊎ Confirmed)
unfolding confirm mark_ride_started pending_stops complete_pool
confirm_next db now c stops =
    let (db1, updated) = confirm db now c.ride_id c.sequence_index in
    elim updated [
      | none ↦ abort
      | some s ↦
          let db2 = if starts c stops then mark_ride_started db1 c.ride_id else db1 in
          let left = pending_stops stops - 1 in
          let result : Confirmed = record {
            stop = s;
            pending_after = left;
            ride_completed = left == 0;
            duplicate = false;
          } in
          if left == 0
          then complete_pool db2 now c result
          else touched (touch_pool db2 c.ride_id) (inr result)
    ]

abbrev pub is_completed : PoolState → Bool
is_completed PoolState.completed = true
is_completed _ = false

-- A stop that is confirmed already is answered from the rows.
abbrev pub repeated : Pool → List RideStop → RideStop → Confirmed
repeated p stops s = record {
  stop = s;
  pending_after = pending_stops stops;
  ride_completed = is_completed p.pool_state;
  duplicate = true;
}

abbrev pub is_at : ℕ → Option RideStop → Bool
is_at index none = false
is_at index (some s) = s.sequence_index == index

unfoldable pub confirm_target :
    Db → ℕ → StopConfirm → Pool → List RideStop → RideStop → Outcome (StopFailure ⊎ Confirmed)
unfolding confirm_next
confirm_target db now c p stops target =
    if not (same_stop_type target.type c.type)
    then commit db (inl wrong_type)
    else if is_some target.confirmed_at
    then commit db (inr (repeated p stops target))
    else if is_at c.sequence_index (find_where is_open_stop stops)
    then confirm_next db now c stops
    else commit db (inl out_of_order)

-- The transaction of `confirmStop`.
unfoldable pub confirm_stop : Db → ℕ → StopConfirm → Outcome (StopFailure ⊎ Confirmed)
unfolding confirm_target stops_of
confirm_stop db now c = elim (find_pool c.ride_id db.pools) [
  | none ↦ commit db (inl not_found)
  | some p ↦
      if is_id p.claimed_by_driver_id c.driver_id
      then (let stops = stops_of db c.ride_id in
          elim (find_where (λ s. s.sequence_index == c.sequence_index) stops) [
            | none ↦ commit db (inl not_found)
            | some target ↦ confirm_target db now c p stops target
          ])
      else commit db (inl not_owner)
]

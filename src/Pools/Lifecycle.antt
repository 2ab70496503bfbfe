-- ===== src/Pools/Lifecycle.antt =====
-- apps/api/src/modules/matching/pool-lifecycle.service.ts, with the statements of
-- shared-ride.repository.ts that it runs: a pool opens, is joined, and closes. The price of a seat
-- is the callback `quote`; none is an error that it throws. What follows a commit (Redis, sockets)
-- and the completion of an idempotency claim are left out.
use rcab.Base.{
  ℕ, suc, ◌+◌, ◌==◌, ◌&&◌, not, Bool, true, false, Option, none, some, List, [], ◌∷◌, ◌++◌, map,
  if◌then◌else◌, find_where, update_where, exists_where,
}
use rcab.Store.{Point, PoolState, Pool, RideStop, Topic, Db}
use rcab.Trips.View.{find_pool}
use rcab.Guards.{Outcome, commit, abort, bumped, aborted_pool, release_members}
use rcab.Outbox.{enqueue}
use rcab.Itinerary.{OfferStop, compute_stops}
use rcab.Pools.{is_opened, list_members}

pub record OpenPool : Type 0 where
  pub ride_id : ℕ
  pub origin : Point
  pub dest : Point
  pub max_seats : ℕ
  pub detour_budget_m : ℕ
  pub timeout_ms : ℕ

abbrev pub opened_pool : ℕ → OpenPool → Pool
opened_pool now p = record {
  ride_id = p.ride_id;
  seat_count = 0;
  max_seats = p.max_seats;
  pool_state = PoolState.opened;
  pool_opened_at = now;
  pool_closed_at = some (now + p.timeout_ms);
  detour_budget_m = p.detour_budget_m;
  origin = p.origin;
  dest = p.dest;
  claimed_by_driver_id = none;
  claimed_at = none;
  completed_at = none;
  dispatch_generation = 0;
  state_version = 0;
}

-- `insertOpenPool`; an id that is taken throws.
unfoldable pub insert_open_pool : Db → ℕ → OpenPool → Outcome ℕ
insert_open_pool db now p = elim (find_pool p.ride_id db.pools) [
  | some old ↦ abort
  | none ↦ commit (record db { pools = opened_pool now p ∷ db.pools }) (now + p.timeout_ms)
]

abbrev pub open_row : ℕ → Pool → Bool
open_row id p = p.ride_id == id && is_opened p.pool_state

abbrev pub closed_pool : ℕ → PoolState → Pool → Pool
closed_pool now reason p = bumped (record p {
  pool_state = reason;
  pool_closed_at = some now;
  dispatch_generation = suc p.dispatch_generation;
})

-- `closeOpen`.
unfoldable pub close_open : Db → ℕ → ℕ → PoolState → Db × Option ℕ
close_open db now id reason = elim (find_where (open_row id) db.pools) [
  | none ↦ (db, none)
  | some p ↦ (
    record db { pools = update_where (open_row id) (closed_pool now reason) db.pools },
    some (suc p.dispatch_generation),
  )
]

abbrev pub empty_row : ℕ → Pool → Bool
empty_row id p = open_row id p && p.seat_count == 0

abbrev pub aborted_open : ℕ → Pool → Pool
aborted_open now p = aborted_pool (record p { pool_closed_at = some now })

-- `abortEmptyOpen`, with the trigger on a pool that turns terminal.
unfoldable pub abort_empty_open : Db → ℕ → ℕ → Db × Bool
abort_empty_open db now id =
    if exists_where (empty_row id) db.pools
    then (
      record db {
        pools = update_where (empty_row id) (aborted_open now) db.pools;
        members = release_members id db.members;
      },
      true,
    )
    else (db, false)

abbrev pub stop_row : ℕ → OfferStop → RideStop
stop_row id s = record {
  ride_id = id;
  sequence_index = s.sequence_index;
  passenger_id = s.passenger_id;
  type = s.type;
  point = s.point;
  confirmed_at = none;
}

-- `insertItinerary`: a stop of the pool that is there already violates the primary key (a closure
-- numbers its stops from 0), and throws.
unfoldable pub insert_itinerary : Db → ℕ → List OfferStop → Outcome (Unit {0})
insert_itinerary db id [] = commit db tt
insert_itinerary db id (s ∷ ss) =
    if exists_where
      (λ r.
        r.ride_id == id
        && exists_where (λ (x : OfferStop). x.sequence_index == r.sequence_index) (s ∷ ss))
      db.stops
    then abort
    else commit (record db { stops = map (stop_row id) (s ∷ ss) ++ db.stops }) tt

pub data CloseResult : Type 0 where
  not_open aborted_empty closed : CloseResult

module _ (distance : Point → Point → ℕ) where
  -- `closeInTxn` after the guarded update.
  unfoldable pub record_closure : Db → ℕ → ℕ → Pool → ℕ → Outcome (Option ℕ)
  unfolding insert_itinerary
  record_closure db now row p g =
      elim (insert_itinerary db p.ride_id
        (compute_stops distance p.origin (list_members db p.ride_id))) [
          | abort ↦ abort
          | commit db2 _ ↦
              commit (enqueue db2 now row Topic.pool_dispatch_requested p.ride_id g none) (some g)
        ]

  -- `closeInTxn`: `p` is the row as it was locked, `row` the id of a new outbox row.
  unfoldable pub close_in_txn : Db → ℕ → ℕ → Pool → PoolState → Outcome (Option ℕ)
  unfolding close_open record_closure
  close_in_txn db now row p reason =
      let (db1, bumped_to) = close_open db now p.ride_id reason in
      elim bumped_to [ none ↦ commit db1 none | some g ↦ record_closure db1 now row p g ]

  -- `closeIfOpen`.
  unfoldable pub close_if_open : Db → ℕ → ℕ → ℕ → Outcome CloseResult
  unfolding abort_empty_open close_in_txn
  close_if_open db now row id = elim (find_pool id db.pools) [
    | none ↦ commit db not_open
    | some p ↦
        if not (is_opened p.pool_state)
        then commit db not_open
        else if p.seat_count == 0
        then (let (db', done) = abort_empty_open db now id in
            commit db' (if done then aborted_empty else not_open))
        else (elim (close_in_txn db now row p PoolState.closed_timeout) [
          | abort ↦ abort
          | commit db' none ↦ commit db' not_open
          | commit db' (some g) ↦ commit db' closed
        ])
  ]

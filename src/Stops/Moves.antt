-- ===== src/Stops/Moves.antt =====
-- The confirmation of a stop keeps drivers and trips exclusive: the pool stays its driver's until the
-- last stop, which frees the driver.
use mathlib.Core.Option
use rcab.Base.{
  ℕ, ◌==◌, ◌-◌, ◌≡◌, ◌≢◌, refl, sym, ap, ◌∙◌, Bool, true, false, not, some, List, inl, inr, ◌⊎◌,
  Bool-cases, Option-cases, arith, is_id, is_some, ==_iff, update_where, delete_where, exists_where,
  find_where, find_by-key, find_by-update_where, if◌then◌else◌,
}
use rcab.Store.{TripRef, TripRef-discrete, shared, Pool, RideStop, Db}
use rcab.Trips.Ledger.{bound, closed, claimable, Move, settle, finish}
use rcab.Trips.View.{ledger, find_pool, of_pool, trip_state, IsSound}
use rcab.Trips.PoolRows.{pool_update-at, pool_update-other, pool_update-alike}
use rcab.Trips.Exclusive.{Move-IsExclusive}
use rcab.Guards.{after, bumped, release, release_members, binds}
use rcab.Rides.Cancel.{release_bound}
use rcab.Rides.Row.{ended-offerless, release_bound-from, release_bound-keeps}
use rcab.Pools.{is_opened}
use rcab.Stops.{
  StopConfirm, Confirmed, confirm, startable, started_pool, mark_ride_started, completable,
  completed_pool, mark_ride_completed, is_running, touch_pool, is_row, touched, complete_pool,
  starts, confirm_next, confirm_target, confirm_stop, stops_of, same_stop_type, is_at, is_open_stop,
  pending_stops, confirmable,
}

-- A pool that a driver has, when its last stop is confirmed.
module _ (db : Db) (v : IsSound db) (now : ℕ) (c : StopConfirm) (q : Pool)
    (found : find_pool c.ride_id db.pools ≡ some q)
    (by : q.claimed_by_driver_id ≡ some c.driver_id) where
  abbrev done_db : Db
  done_db = record db {
    pools = update_where (completable c.ride_id) (completed_pool now) db.pools;
    members = release_members c.ride_id db.members;
    guards = delete_where (binds c.driver_id (shared c.ride_id)) db.guards;
  }

  key : (q.ride_id == c.ride_id) ≡ true
  key =
      (==_iff q.ride_id c.ride_id).1
        (find_by-key (λ (p : Pool). p.ride_id) c.ride_id db.pools q found)

  -- A pool that does not run has ended, since no driver has an open one.
  ended : is_running q.pool_state ≡ false → of_pool (some q) ≡ closed
  ended still = elim (Bool-cases (is_opened q.pool_state)) [
    | inl ready ↦
        absurd
          (v.no_stray (shared c.ride_id) c.driver_id (ap of_pool found ∙ ground (arith, ready, by)))
    | inr shut ↦ ground (arith, still, shut)
  ]

  done_at : trip_state done_db (shared c.ride_id) ≡ closed
  done_at =
      pool_update-at db (completable c.ride_id) (completed_pool now) (λ p. refl) c.ride_id (some q)
        found
      ∙ hit (Bool-cases (is_running q.pool_state))
    where
      hit :
          (is_running q.pool_state ≡ true) ⊎ (is_running q.pool_state ≡ false)
          → of_pool (some (if completable c.ride_id q then completed_pool now q else q)) ≡ closed
      hit (inl runs) = rw (key, runs) refl
      hit (inr still) = rw (key, still) (ended still)

  not_waiting : trip_state db (shared c.ride_id) ≢ claimable
  not_waiting h = ground (arith, ap of_pool found, by, h)

  owned : (d : ℕ) → trip_state db (shared c.ride_id) ≡ bound d → some c.driver_id ≡ some d
  owned d h = ground (arith, ap of_pool found, by, h)

  done_db-Move : Move (ledger db) (ledger done_db)
  done_db-Move =
      finish (shared c.ride_id) done_at
        (pool_update-other db (completable c.ride_id) (completed_pool now) (λ p. refl) c.ride_id
          (λ p h. ground (arith, h)))
        (unfold release_bound release in
          release_bound-from db v (shared c.ride_id) (some c.driver_id) owned)
        (unfold release_bound release in
          release_bound-keeps db v (shared c.ride_id) (some c.driver_id))
        (λ o lv. (
          lv,
          ended-offerless db v (shared c.ride_id) (trip_state db (shared c.ride_id)) refl
              not_waiting o lv,
        ))
        (λ o sp. sp)

-- A touch of the pool's row.
touch-IsSound :
    {A : Type 0} (start db : Db) (id : ℕ) (a : A)
    → IsSound start
    → IsSound db
    → IsSound (after start (touched (touch_pool db id) a))
unfolding touch_pool
touch-IsSound start db id a w v = elim (Bool-cases (exists_where (is_row id) db.pools)) [
  | inr gone ↦ rw gone w
  | inl there ↦ rw there (
      Move-IsExclusive
        (settle (pool_update-alike db (is_row id) bumped (λ p. refl) (λ p h. refl)) refl
          (λ o lv. lv) (λ o sp. sp))
        v)
]

complete-IsSound :
    (start db : Db) (now : ℕ) (c : StopConfirm) (result : Confirmed) (q : Pool)
    → IsSound start
    → IsSound db
    → find_pool c.ride_id db.pools ≡ some q
    → q.claimed_by_driver_id ≡ some c.driver_id
    → IsSound (after start (complete_pool db now c result))
unfolding complete_pool mark_ride_completed release
complete-IsSound start db now c result q w v found by =
    elim (Bool-cases (exists_where (completable c.ride_id) db.pools)) [
      | inr gone ↦ rw gone w
      | inl there ↦ rw there (
          touch-IsSound start (done_db db v now c q found by) c.ride_id (inr result) w
            (Move-IsExclusive (done_db-Move db v now c q found by) v))
    ]

-- The first pickup starts the pool, which stays its driver's.
module _ (db : Db) (id d : ℕ) (q : Pool) (found : find_pool id db.pools ≡ some q)
    (by : q.claimed_by_driver_id ≡ some d) where
  started_same : (t : TripRef) → trip_state (mark_ride_started db id) t ≡ trip_state db t
  unfolding mark_ride_started
  started_same t = elim (TripRef-discrete t (shared id)) [
    | no other ↦
        pool_update-other db (startable id) started_pool (λ p. refl) id (λ p h. ground (arith, h)) t
          other
    | yes at ↦ rw at (
        pool_update-at db (startable id) started_pool (λ p. refl) id (some q) found
        ∙ kept (Bool-cases (startable id q))
        ∙ sym (ap of_pool found))
  ]
    where
      kept :
          (startable id q ≡ true) ⊎ (startable id q ≡ false)
          → of_pool (some (if startable id q then started_pool q else q)) ≡ of_pool (some q)
      kept (inl hit) = rw hit (ground (arith, hit, by))
      kept (inr miss) = rw miss refl

  started-Move : Move (ledger db) (ledger (mark_ride_started db id))
  unfolding mark_ride_started
  started-Move = settle started_same refl (λ o lv. lv) (λ o sp. sp)

  started-IsSound : IsSound db → IsSound (mark_ride_started db id)
  started-IsSound v = Move-IsExclusive started-Move v

  -- The pool's row, started or not.
  started_pool_found :
      (r : Pool) × (find_pool id (mark_ride_started db id).pools ≡ some r)
      × (r.claimed_by_driver_id ≡ some d)
  unfolding mark_ride_started
  started_pool_found = (
    (if startable id q then started_pool q else q),
    find_by-update_where (λ (p : Pool). p.ride_id) (startable id) started_pool (λ p. refl) id
          db.pools
        ∙ ap (Option.map (λ p. if startable id p then started_pool p else p)) found,
    kept (Bool-cases (startable id q)),
  )
    where
      kept :
          (startable id q ≡ true) ⊎ (startable id q ≡ false)
          → (if startable id q then started_pool q else q).claimed_by_driver_id ≡ some d
      kept (inl hit) = rw hit by
      kept (inr miss) = rw miss by

module _ (db : Db) (now : ℕ) (c : StopConfirm) (q : Pool) (v : IsSound db)
    (found : find_pool c.ride_id db.pools ≡ some q)
    (by : q.claimed_by_driver_id ≡ some c.driver_id) where
  -- From the tables with the stop confirmed, and the pool started or not.
  rest-IsSound :
      (first : Bool) (db1 : Db) (result : Confirmed) (last : Bool)
      → IsSound db1
      → find_pool c.ride_id db1.pools ≡ some q
      → IsSound (
          after db (
            if last
            then complete_pool (if first then mark_ride_started db1 c.ride_id else db1) now c result
            else touched
                (touch_pool (if first then mark_ride_started db1 c.ride_id else db1) c.ride_id)
                (inr result)))
  rest-IsSound true db1 result true w at =
      let (r, there, own) = started_pool_found db1 c.ride_id c.driver_id q at by in
      complete-IsSound db (mark_ride_started db1 c.ride_id) now c result r v
        (started-IsSound db1 c.ride_id c.driver_id q at by w) there own
  rest-IsSound false db1 result true w at = complete-IsSound db db1 now c result q v w at by
  rest-IsSound true db1 result false w at =
      touch-IsSound db (mark_ride_started db1 c.ride_id) c.ride_id (inr result) v
        (started-IsSound db1 c.ride_id c.driver_id q at by w)
  rest-IsSound false db1 result false w at = touch-IsSound db db1 c.ride_id (inr result) v w

  confirm-IsSound : IsSound (confirm db now c.ride_id c.sequence_index).0
  unfolding confirm
  confirm-IsSound =
      elim (Option-cases (find_where (confirmable c.ride_id c.sequence_index) db.stops)) [
        | inl gone ↦ rw (gone, confirm) v
        | inr (s, hit) ↦ rw (hit, confirm) v
      ]

  confirm-pools : (confirm db now c.ride_id c.sequence_index).0.pools ≡ db.pools
  unfolding confirm
  confirm-pools =
      elim (Option-cases (find_where (confirmable c.ride_id c.sequence_index) db.stops)) [
        | inl gone ↦ rw (gone, confirm) refl
        | inr (s, hit) ↦ rw (hit, confirm) refl
      ]

  next-IsSound : (stops : List RideStop) → IsSound (after db (confirm_next db now c stops))
  unfolding confirm_next
  next-IsSound stops =
      let db1 : Db = (confirm db now c.ride_id c.sequence_index).0 in
      elim (Option-cases ((confirm db now c.ride_id c.sequence_index).1)) [
        | inl gone ↦ rw (gone, confirm_next) v
        | inr (s, hit) ↦
            let left : ℕ = pending_stops stops - 1 in
            rw (hit, confirm_next)
              (rest-IsSound (starts c stops) db1
                (record {
                  stop = s;
                  pending_after = left;
                  ride_completed = left == 0;
                  duplicate = false;
                })
                (left == 0) confirm-IsSound (rw confirm-pools found))
      ]

-- A confirmation, in whatever way it ends.
pub confirm_stop-IsSound :
    (db : Db) (now : ℕ) (c : StopConfirm) → IsSound db → IsSound (after db (confirm_stop db now c))
unfolding confirm_stop confirm_target
confirm_stop-IsSound db now c v = elim (Option-cases (find_pool c.ride_id db.pools)) [
  | inl gone ↦ rw (gone, confirm_stop) v
  | inr (q, found) ↦
      rw (found, confirm_stop)
        (elim (Bool-cases (is_id q.claimed_by_driver_id c.driver_id)) [
          | inr other ↦ rw other v
          | inl mine ↦
              rw (mine, confirm_stop)
                (elim (Option-cases (
                  find_where (λ s. s.sequence_index == c.sequence_index) (stops_of db c.ride_id))) [
                    | inl none_there ↦ rw (none_there, confirm_stop) v
                    | inr (target, at) ↦ rw (at, confirm_stop) (ending q found mine target)
                  ])
        ])
]
  where
    ending :
        (q : Pool)
        → find_pool c.ride_id db.pools ≡ some q
        → is_id q.claimed_by_driver_id c.driver_id ≡ true
        → (target : RideStop)
        → IsSound (after db (confirm_target db now c q (stops_of db c.ride_id) target))
    ending q found mine target = elim (Bool-cases (not (same_stop_type target.type c.type))) [
      | inl wrong ↦ rw wrong v
      | inr right ↦ rw right (elim (Bool-cases (is_some target.confirmed_at)) [
        | inl done ↦ rw done v
        | inr pending ↦
            rw pending
              (elim (Bool-cases
                (is_at c.sequence_index (find_where is_open_stop (stops_of db c.ride_id)))) [
                  | inr early ↦ rw early v
                  | inl turn ↦ rw turn (
                      next-IsSound db now c q v found (ground (arith, mine))
                        (stops_of db c.ride_id))
                ])
      ])
    ]

-- ===== src/Reconciler.antt =====
-- apps/api/src/modules/outbox/dispatch-reconciler.service.ts: a pass that finds trips whose work is lost, and
-- puts it back. A queue is a function from the ids of jobs (outbox.jobs.ts) to the jobs that it holds; a job
-- that has ended is always removed when asked. During a pass nothing else runs, and Redis answers.
-- The times at which rows were last changed are arguments, and so are the ids of new outbox rows.
pub mod Growth
pub mod Restores
pub mod Dispatching
pub mod Passes
use rcab.Base.{
  ℕ, suc, ◌+◌, ◌-◌, ◌==◌, ◌&&◌, ◌||◌, not, leb, ltb, min, Bool, true, false, Option, none, some,
  List, [], ◌∷◌, is_some, if◌then◌else◌, length, take, select_where,
}
use rcab.Store.{
  TripRef, solo, shared, trip_id, same_trip, RideStatus, RideType, Ride, PoolState, Pool, Offer,
  Topic, Db,
}
use rcab.Offers.{is_requested, is_claimable}
use rcab.Outbox.{enqueue, rearm}
use rcab.Pools.{is_opened}
use rcab.Rides.Create.{is_scheduled}
use rcab.Timers.{rearm_scheduled}

pub data JobId : Type 0 where
  dispatch_start hard_fail_of wave2_of scheduled_wake : ℕ → ℕ → JobId
  legacy_hard_fail legacy_wave2 legacy_wake pool_expire legacy_pool_expire : ℕ → JobId

abbrev pub same_job : JobId → JobId → Bool
same_job (dispatch_start a g) (dispatch_start b h) = a == b && g == h
same_job (hard_fail_of a g) (hard_fail_of b h) = a == b && g == h
same_job (wave2_of a g) (wave2_of b h) = a == b && g == h
same_job (scheduled_wake a g) (scheduled_wake b h) = a == b && g == h
same_job (legacy_hard_fail a) (legacy_hard_fail b) = a == b
same_job (legacy_wave2 a) (legacy_wave2 b) = a == b
same_job (legacy_wake a) (legacy_wake b) = a == b
same_job (pool_expire a) (pool_expire b) = a == b
same_job (legacy_pool_expire a) (legacy_pool_expire b) = a == b
same_job _ _ = false

pub data JobState : Type 0 where
  waiting delayed active prioritized waiting_children completed failed : JobState

-- LIVE_STATES.
abbrev pub is_live_state : JobState → Bool
is_live_state completed = false
is_live_state failed = false
is_live_state _ = true

-- A job, with the instant at which it is due.
pub record QueueJob : Type 0 where
  pub state : JobState
  pub due_at : ℕ

abbrev pub is_live : Option QueueJob → Bool
is_live none = false
is_live (some j) = is_live_state j.state

abbrev pub Queues : Type 0
Queues = JobId → Option QueueJob

-- `hasLiveJob`.
unfoldable pub has_live_job : Queues → List JobId → Bool
has_live_job q [] = false
has_live_job q (id ∷ ids) = is_live (q id) || has_live_job q ids

abbrev pub put : Queues → JobId → Option QueueJob → Queues
put q id j k = if same_job k id then j else q k

-- `removeFinished`.
unfoldable pub remove_finished : Queues → JobId → Queues
remove_finished q id = if is_live (q id) then q else put q id none

-- `queue.add`: nothing, where the id is taken.
unfoldable pub add_job : Queues → JobId → ℕ → Queues
add_job q id due_at =
    if is_some (q id) then q else put q id (some (record { state = delayed; due_at = due_at }))

pub record ReconcileReport : Type 0 where
  pub wake_rearmed : ℕ
  pub dispatch_rearmed : ℕ
  pub timers_restored : ℕ
  pub scheduled_retried : ℕ
  pub pool_expire_rearmed : ℕ

pub record Pass : Type 0 where
  pub db : Db
  pub queues : Queues
  pub report : ReconcileReport

-- The configuration that a pass reads.
pub record Windows : Type 0 where
  pub wave_one_ms : ℕ
  pub hard_fail_ms : ℕ
  pub scheduled_wave_one_ms : ℕ
  pub scheduled_hard_fail_ms : ℕ
  pub pool_timeout_ms : ℕ

abbrev pub grace_ms : ℕ
grace_ms = 15000

abbrev pub max_per_pass : ℕ
max_per_pass = 500

-- The number of a trip's offers of a generation, and when the first went out.
abbrev pub is_offer_of : TripRef → ℕ → Offer → Bool
is_offer_of trip g o = same_trip o.trip trip && o.generation == g

unfoldable pub first_offered : List Offer → Option ℕ
first_offered [] = none
first_offered (o ∷ os) =
    let rest = first_offered os in
    elim rest [ none ↦ some o.offered_at | some t ↦ some (min o.offered_at t) ]

abbrev pub topic_of : TripRef → Topic
topic_of (solo id) = Topic.ride_dispatch_requested
topic_of (shared id) = Topic.pool_dispatch_requested

-- One row after the other.
unfoldable pub reconcile_all : {A : Type 0} → (Pass → A → Pass) → Pass → List A → Pass
reconcile_all f s [] = s
reconcile_all f s (x ∷ xs) = reconcile_all f (f s x) xs

-- When an open pool is to end: where the row does not say, its timeout after it was opened.
abbrev pub planned_end : ℕ → ℕ → Option ℕ → ℕ
planned_end pool_timeout_ms opened_at none = opened_at + pool_timeout_ms
planned_end pool_timeout_ms opened_at (some at) = at

module _ (new_row : Topic → ℕ → ℕ → ℕ) (now : ℕ) where
  -- `rearm`, and a new intent where there is none.
  unfoldable pub rearm_or_enqueue : Db → Topic → ℕ → ℕ → Option ℕ → Db
  rearm_or_enqueue db topic id g instant =
      let (db1, exists) = rearm db now topic id g in
      if exists then db1 else enqueue db1 now (new_row topic id g) topic id g instant

  abbrev pub is_unwoken : Ride → Bool
  is_unwoken r = is_scheduled r.type && is_requested r.status && r.dispatch_generation == 0

  -- `reconcileUnwokenScheduled`, for one ride.
  unfoldable pub reconcile_unwoken : Pass → Ride → Pass
  unfolding rearm_or_enqueue
  reconcile_unwoken s r = elim r.scheduled_for [
    | none ↦ s
    | some at ↦
        if has_live_job s.queues (scheduled_wake r.id 1 ∷ legacy_wake r.id ∷ [])
        then s
        else record {
          db = rearm_or_enqueue s.db Topic.ride_wake_schedule r.id 1 (some at);
          queues = remove_finished s.queues (scheduled_wake r.id 1);
          report = record s.report { wake_rearmed = suc s.report.wake_rearmed };
        }
  ]

  -- `reconcileOpenPools`, for one pool.
  unfoldable pub reconcile_open_pool : ℕ → Pass → Pool → Pass
  unfolding rearm_or_enqueue
  reconcile_open_pool timeout s p =
      if has_live_job s.queues (pool_expire p.ride_id ∷ legacy_pool_expire p.ride_id ∷ [])
      then s
      else record {
        db =
            rearm_or_enqueue s.db Topic.pool_expire_schedule p.ride_id 0
              (some (planned_end timeout p.pool_opened_at p.pool_closed_at));
        queues = remove_finished s.queues (pool_expire p.ride_id);
        report = record s.report { pool_expire_rearmed = suc s.report.pool_expire_rearmed };
      }

  -- The timers that a wave set, put back with the delay that remains.
  unfoldable pub restore_hard_fail : Pass → TripRef → ℕ → ℕ → Bool → Pass
  restore_hard_fail s trip g due_at true = s
  restore_hard_fail s trip g due_at false = record s {
    queues =
        add_job (remove_finished s.queues (hard_fail_of (trip_id trip) g))
          (hard_fail_of (trip_id trip) g) (now + (due_at - now));
    report = record s.report { timers_restored = suc s.report.timers_restored };
  }

  unfoldable pub restore_wave2 : Pass → TripRef → ℕ → ℕ → Pass
  restore_wave2 s trip g ends_at =
      let id = trip_id trip in
      if ltb now ends_at && not (has_live_job s.queues (wave2_of id g ∷ legacy_wave2 id ∷ []))
      then record s {
        queues =
            add_job (remove_finished s.queues (wave2_of id g)) (wave2_of id g)
              (now + (ends_at - now));
        report = record s.report { timers_restored = suc s.report.timers_restored };
      }
      else s

  -- A dispatch that offered nothing and has no hard failure to come is started again.
  unfoldable pub restart_dispatch : Pass → TripRef → ℕ → Pass
  unfolding rearm_or_enqueue
  restart_dispatch s trip g =
      let id = trip_id trip in
      record {
        db = rearm_or_enqueue s.db (topic_of trip) id g none;
        queues =
            remove_finished (remove_finished s.queues (dispatch_start id g)) (hard_fail_of id g);
        report = record s.report { dispatch_rearmed = suc s.report.dispatch_rearmed };
      }

  -- A scheduled ride whose window is over gets a new one.
  unfoldable pub retry_scheduled : Pass → ℕ → ℕ → Pass
  retry_scheduled s id g =
      let (db', retry) =
        rearm_scheduled s.db now (new_row Topic.ride_dispatch_requested id (suc g)) id (some g) in
      if is_some retry
      then record s {
        db = db';
        report = record s.report { scheduled_retried = suc s.report.scheduled_retried };
      }
      else s

  -- Past the test of the start job: `first` is when the first offer went out.
  unfoldable pub reconcile_offers : Windows → Pass → TripRef → ℕ → Bool → ℕ → Option ℕ → Bool → Pass
  unfolding restart_dispatch restore_hard_fail restore_wave2 retry_scheduled
  reconcile_offers w s trip g planned idle_since first has_hard_fail =
      let hard_fail_ms = if planned then w.scheduled_hard_fail_ms else w.hard_fail_ms in
      let wave_one_ms = if planned then w.scheduled_wave_one_ms else w.wave_one_ms in
      let start : ℕ = elim first [ none ↦ idle_since | some t ↦ t ] in
      if planned && not has_hard_fail && leb (start + hard_fail_ms) now
      then retry_scheduled s (trip_id trip) g
      else elim first [
        | none ↦ if has_hard_fail then s else restart_dispatch s trip g
        | some t ↦
            restore_wave2 (restore_hard_fail s trip g (t + hard_fail_ms) has_hard_fail) trip g
              (t + wave_one_ms)
      ]

  -- `reconcileDispatching`.
  unfoldable pub reconcile_dispatching : Windows → Pass → TripRef → ℕ → Bool → ℕ → Pass
  unfolding reconcile_offers
  reconcile_dispatching w s trip g planned idle_since =
      if has_live_job s.queues (dispatch_start (trip_id trip) g ∷ [])
      then s
      else reconcile_offers w s trip g planned idle_since
          (first_offered (select_where (is_offer_of trip g) s.db.offers))
          (has_live_job s.queues
            (hard_fail_of (trip_id trip) g ∷ legacy_hard_fail (trip_id trip) ∷ []))

  module _ (w : Windows) (updated : TripRef → ℕ) where
    abbrev pub is_dispatching : Ride → Bool
    is_dispatching r =
        is_requested r.status
        && ltb 0 r.dispatch_generation
        && ltb (updated (solo r.id) + grace_ms) now

    abbrev pub is_gathering : Pool → Bool
    is_gathering p = is_opened p.pool_state && ltb (updated (shared p.ride_id) + grace_ms) now

    abbrev pub is_closed_unclaimed : Pool → Bool
    is_closed_unclaimed p =
        is_claimable p.pool_state
        && not (is_some p.claimed_by_driver_id)
        && ltb 0 p.dispatch_generation
        && ltb (updated (shared p.ride_id) + grace_ms) now

    unfoldable pub reconcile_solo : Pass → Ride → Pass
    unfolding reconcile_dispatching
    reconcile_solo s r =
        reconcile_dispatching w s (solo r.id) r.dispatch_generation (is_scheduled r.type)
          (updated (solo r.id))

    unfoldable pub reconcile_closed_pool : Pass → Pool → Pass
    unfolding reconcile_dispatching
    reconcile_closed_pool s p =
        reconcile_dispatching w s (shared p.ride_id) p.dispatch_generation false now

    -- The steps of `pass`, each with its own reading of the rows.
    unfoldable pub unwoken_step : Pass → Pass
    unfolding reconcile_all reconcile_unwoken
    unwoken_step s =
        reconcile_all reconcile_unwoken s (take max_per_pass (select_where is_unwoken s.db.rides))

    unfoldable pub solo_step : Pass → Pass
    unfolding reconcile_all reconcile_solo
    solo_step s =
        reconcile_all reconcile_solo s (take max_per_pass (select_where is_dispatching s.db.rides))

    unfoldable pub open_pools_step : Pass → Pass
    unfolding reconcile_all reconcile_open_pool
    open_pools_step s =
        reconcile_all (reconcile_open_pool w.pool_timeout_ms) s
          (take max_per_pass (select_where is_gathering s.db.pools))

    unfoldable pub closed_pools_step : Pass → Pass
    unfolding reconcile_all reconcile_closed_pool
    closed_pools_step s =
        reconcile_all reconcile_closed_pool s
          (take max_per_pass (select_where is_closed_unclaimed s.db.pools))

    unfoldable pub pass : Pass → Pass
    unfolding unwoken_step solo_step open_pools_step closed_pools_step
    pass s = closed_pools_step (open_pools_step (solo_step (unwoken_step s)))

-- ===== src/Tests/Reconcile.antt =====
-- Redis was flushed: a scheduled ride that was not woken, one that is being dispatched, an open pool and a
-- closed one that nobody took have no jobs, and the outbox is empty.
use rcab.Base.{ℕ, ◌≡◌, refl, none, some, Option, false, [], ◌∷◌}
use rcab.Store.{Ride, RideType, Pool, PoolState, Topic}
use rcab.Rides.Create.{NewRide, created_ride}
use rcab.Reconciler.{Pass, Windows, pass}
use rcab.Reconciler.Passes.{IsRestored, pass-IsRestored}
use rcab.Tests.Dispatch.{empty, request}
use rcab.Tests.Stops.{riding}

abbrev later : NewRide
later = record request { type = RideType.scheduled; scheduled_for = some 9000000 }

abbrev sleeping : Ride
sleeping = created_ride 1 later

abbrev woken : Ride
woken = record (created_ride 2 later) { dispatch_generation = 1 }

abbrev gathering_pool : Pool
gathering_pool = record riding { pool_state = PoolState.opened; claimed_by_driver_id = none }

abbrev untaken_pool : Pool
untaken_pool = record riding { ride_id = 6; claimed_by_driver_id = none }

abbrev flushed : Pass
flushed = record {
  db = record empty { rides = sleeping ∷ woken ∷ []; pools = gathering_pool ∷ untaken_pool ∷ [] };
  queues = λ id. none;
  report = record {
    wake_rearmed = 0;
    dispatch_rearmed = 0;
    timers_restored = 0;
    scheduled_retried = 0;
    pool_expire_rearmed = 0;
  };
}

abbrev windows : Windows
windows = record {
  wave_one_ms = 30000;
  hard_fail_ms = 60000;
  scheduled_wave_one_ms = 300000;
  scheduled_hard_fail_ms = 600000;
  pool_timeout_ms = 300000;
}

abbrev row_id : Topic → ℕ → ℕ → ℕ
row_id topic id g = id

pass-IsRestored_example :
    IsRestored row_id 8000000 windows
      (λ t. 0)
      flushed
      (pass row_id 8000000 windows (λ t. 0) flushed)
pass-IsRestored_example = pass-IsRestored row_id 8000000 windows (λ t. 0) flushed

-- In this pass each kind of work was put back once, and the ride in dispatch got a new window.
restored_counts : (pass row_id 8000000 windows (λ t. 0) flushed).report ≡ record {
  wake_rearmed = 1;
  dispatch_rearmed = 1;
  timers_restored = 0;
  scheduled_retried = 1;
  pool_expire_rearmed = 1;
}
unfolding pass rcab.Base.select_where rcab.Reconciler.has_live_job rcab.Reconciler.first_offered
    rcab.Base.find_by rcab.Base.find_where rcab.Reconciler.remove_finished
    rcab.Reconciler.retry_scheduled rcab.Timers.rearm_scheduled rcab.Outbox.rearm
    rcab.Outbox.enqueue rcab.Base.exists_where rcab.Base.update_where
    rcab.Offers.revoke_live_for_trip
restored_counts = refl

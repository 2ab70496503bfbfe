-- ===== src/Tests/Windows.antt =====
-- A scheduled ride whose window closed is re-armed, and not a second time.
use rcab.Base.{ℕ, ◌≡◌, refl, Option, none, some, List, [], ◌∷◌, true, false}
use rcab.Store.{Point, RideType, Db}
use rcab.Rides.Create.{NewRide, created_ride}
use rcab.Timers.{Retry, at_new_generation, rearm_scheduled}
use rcab.Timers.Windows.{rearm_scheduled-once}
use rcab.Tests.Dispatch.{empty}

abbrev place : Point
place = record { lat = 1; lng = 2 }

abbrev planned : NewRide
planned = record {
  passenger_id = 100;
  origin = place;
  dest = place;
  fare_cents = 30000;
  key = "k2";
  type = RideType.scheduled;
  scheduled_for = some 900000;
  fingerprint = none;
}

-- The ride after its wake.
abbrev awake : Db
awake = record empty { rides = at_new_generation 1 (created_ride 4 planned) ∷ [] }

abbrev first_retry : Retry
first_retry = record {
  passenger_id = 100;
  previous_generation = 1;
  generation = 2;
  retry_count = 1;
  first_retry = true;
  revoked_offers = [];
}

rearmed_first : (rearm_scheduled awake 50 70 4 (some 1)).1 ≡ some first_retry
unfolding rearm_scheduled rcab.Base.find_by rcab.Offers.revoke_live_for_trip rcab.Base.select_where
rearmed_first = refl

rearm_scheduled-once_example :
    rearm_scheduled (rearm_scheduled awake 50 70 4 (some 1)).0 60 71 4 (some 1)
    ≡ ((rearm_scheduled awake 50 70 4 (some 1)).0, none)
rearm_scheduled-once_example = rearm_scheduled-once awake 50 70 4 1 60 71 first_retry rearmed_first

-- ===== src/Tests/Waves.antt =====
-- The first wave of a ride: of the two drivers near it, the one chosen first gets an offer.
use rcab.Base.{ℕ, ◌+◌, true, none, some, List, [], ◌∷◌}
use rcab.Store.{solo, Point, Db}
use rcab.Offers.{new_offer}
use rcab.Guards.{after}
use rcab.Rides.Create.{created_ride}
use rcab.Waves.{WaveNumber, first, Wave, DispatchParams, offer_ttl_ms, run_solo_wave}
use rcab.Tests.Dispatch.{request, db1}

abbrev settings : DispatchParams
settings = record { k1 = 1; k2 = 2; r1_meters = 2000; r2_meters = 4000 }

abbrev nearby : Point → ℕ → ℕ → List ℕ
nearby at radius count = 8 ∷ 7 ∷ []

abbrev fresh_ids : ℕ → ℕ
fresh_ids driver = 50 + driver

abbrev ticking : ℕ → ℕ
ticking n = 20 + n

-- Nobody else writes during the wave.
abbrev alone : ℕ → Db → Db
alone n db = db

abbrev waved : Db
waved =
    after db1 (
      run_solo_wave settings nearby fresh_ids ticking alone 20 db1 (created_ride 1 request) first 1)

abbrev first_wave : Wave
first_wave = record {
  offers = new_offer 20 58 (solo 1) 8 1 1 offer_ttl_ms ∷ [];
  arms_timers = true;
}

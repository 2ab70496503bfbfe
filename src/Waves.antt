-- ===== src/Waves.antt =====
-- The waves of offers of apps/api/src/modules/dispatch/dispatch.service.ts (`runSoloWave`, `runPoolWave`,
-- `handleWaveTimeout` and `selectCandidates`), with `eligibleCandidates` of offer.repository.ts. The index
-- of positions is a function that gives the nearest drivers; ids of drivers are numbers here, so the
-- test that they are UUIDs holds. Each offer is a transaction of its own, at its own instant: `clock` gives the
-- instant of the n-th one, `others` what others did to the tables before it, and `ids` the new rows' ids.
pub mod Candidates
pub mod Offered
use rcab.Base.{
  take, ℕ, suc, zero, ◌+◌, ◌*◌, ◌==◌, ◌&&◌, ◌||◌, Bool, true, false, not, leb, ltb, Option, none,
  some, List, [], ◌∷◌, is_some, if◌then◌else◌, length, find_where, select_where, exists_where,
}
use rcab.Store.{TripRef, solo, shared, Point, RideType, Ride, Pool, Offer, User, Vehicle, Db}
use rcab.Trips.View.{find_ride, find_pool}
use rcab.Offers.{is_requested, is_offered, is_claimable, create_offer, offered_driver_ids}
use rcab.Guards.{Outcome, commit, abort}
use rcab.Rides.Create.{is_scheduled}
use rcab.Stops.{stops_of}
use rcab.Timers.{or_current}

-- `new Set(…)`, in the order of first occurrence.
unfoldable pub distinct : List ℕ → List ℕ
unfolding select_where
distinct [] = []
distinct (x ∷ xs) = x ∷ select_where (λ y. not (y == x)) (distinct xs)

abbrev pub is_driver_row : ℕ → User → Bool
is_driver_row driver u = u.id == driver && u.is_active && u.is_driver && u.has_driver_row

abbrev pub has_live_offer : ℕ → ℕ → Offer → Bool
has_live_offer now driver o = o.driver_id == driver && is_offered o.state && ltb now o.expires_at

abbrev pub fits : ℕ → ℕ → Vehicle → Bool
fits driver seats v = v.driver_id == driver && v.active && leb seats v.seats

-- A row of the query of `eligibleCandidates`.
unfoldable pub is_candidate : Db → ℕ → ℕ → ℕ → Bool
is_candidate db now seats driver =
    exists_where (is_driver_row driver) db.users
    && not (exists_where (λ h. h.driver_id == driver) db.guards)
    && not (exists_where (has_live_offer now driver) db.offers)
    && exists_where (fits driver seats) db.vehicles

-- `eligibleCandidates`.
unfoldable pub eligible_candidates : Db → ℕ → List ℕ → ℕ → List ℕ
eligible_candidates db now ids seats = select_where (is_candidate db now seats) (distinct ids)

-- The settings of the waves: how many drivers, and how far away.
pub record WaveParams : Type 0 where
  pub k : ℕ
  pub radius_meters : ℕ

pub data WaveNumber : Type 0 where
  first second : WaveNumber

pub record DispatchParams : Type 0 where
  pub k1 : ℕ
  pub k2 : ℕ
  pub r1_meters : ℕ
  pub r2_meters : ℕ

abbrev pub wave_params : DispatchParams → WaveNumber → WaveParams
wave_params p first = record { k = p.k1; radius_meters = p.r1_meters }
wave_params p second = record { k = p.k2; radius_meters = p.r2_meters }

abbrev pub candidate_headroom : ℕ
candidate_headroom = 4

abbrev pub offer_ttl_ms : ℕ
offer_ttl_ms = 12000

abbrev pub wave_code : WaveNumber → ℕ
wave_code first = 1
wave_code second = 2

abbrev pub starts_timers : WaveNumber → Bool
starts_timers first = true
starts_timers second = false

-- What a wave leaves besides rows: the offers to send, and whether the timers are armed.
pub record Wave : Type 0 where
  pub offers : List Offer
  pub arms_timers : Bool

module _ (georadius : Point → ℕ → ℕ → List ℕ) (now : ℕ) where
  -- `selectCandidates`.
  unfoldable pub select_candidates : Db → TripRef → ℕ → Point → WaveParams → ℕ → List ℕ
  unfolding eligible_candidates
  select_candidates db trip g origin p seats =
      let offered = offered_driver_ids db trip g in
      let raw =
        georadius origin p.radius_meters (p.k * candidate_headroom + length (distinct offered)) in
      let fresh = select_where (λ id. not (exists_where (λ d. d == id) offered)) raw in
      take p.k (eligible_candidates db now fresh seats)

module _ (ids : ℕ → ℕ) (clock : ℕ → ℕ) (others : ℕ → Db → Db) where
  -- The loop over the candidates, from its n-th transaction on.
  unfoldable pub offer_each : Db → TripRef → ℕ → WaveNumber → ℕ → List ℕ → Db × List Offer
  offer_each db trip g w n [] = (db, [])
  offer_each db trip g w n (d ∷ ds) =
      let (db1, made) =
        create_offer (others n db) (clock n) (ids d) trip d g (wave_code w) offer_ttl_ms in
      let (db2, rest) = offer_each db1 trip g w (suc n) ds in
      (db2, elim made [ none ↦ rest | some o ↦ o ∷ rest ])

abbrev pub sent : WaveNumber → Db × List Offer → Outcome Wave
sent w (db, offers) = commit db (record { offers = offers; arms_timers = starts_timers w })

module _ (params : DispatchParams) (georadius : Point → ℕ → ℕ → List ℕ) (ids : ℕ → ℕ)
    (clock : ℕ → ℕ) (others : ℕ → Db → Db) (now : ℕ) where
  -- `runSoloWave`.
  unfoldable pub run_solo_wave : Db → Ride → WaveNumber → ℕ → Outcome Wave
  unfolding select_candidates offer_each
  run_solo_wave db r w g =
      if ltb g 1
      then abort
      else sent w (
          offer_each ids clock others db (solo r.id) g w 0
            (select_candidates georadius now db (solo r.id) g r.origin (wave_params params w) 1))

  -- `runPoolWave`; without a whole itinerary there are no offers.
  unfoldable pub run_pool_wave : Db → Pool → WaveNumber → ℕ → Outcome Wave
  unfolding select_candidates offer_each
  run_pool_wave db p w g =
      if ltb g 1
      then abort
      else if ltb p.seat_count 1 || not (length (stops_of db p.ride_id) == 2 * p.seat_count)
      then sent w (db, [])
      else sent w (
          offer_each ids clock others db (shared p.ride_id) g w 0 (
            select_candidates georadius now db (shared p.ride_id) g p.origin (wave_params params w)
              p.seat_count))

  abbrev pub no_wave : Wave
  no_wave = record { offers = []; arms_timers = false }

  abbrev pub wave_for_solo : Db → WaveNumber → Option ℕ → Option Ride → Outcome Wave
  unfolding run_solo_wave
  wave_for_solo db w given none = commit db no_wave
  wave_for_solo db w given (some r) =
      if is_requested r.status
        && not (is_some r.driver_id)
        && or_current given r.dispatch_generation == r.dispatch_generation
        && not (ltb r.dispatch_generation 1)
      then run_solo_wave db r w r.dispatch_generation
      else commit db no_wave

  abbrev pub wave_for_pool : Db → WaveNumber → Option ℕ → Option Pool → Outcome Wave
  unfolding run_pool_wave
  wave_for_pool db w given none = commit db no_wave
  wave_for_pool db w given (some p) =
      if not (is_some p.claimed_by_driver_id)
        && is_claimable p.pool_state
        && or_current given p.dispatch_generation == p.dispatch_generation
        && not (ltb p.dispatch_generation 1)
      then run_pool_wave db p w p.dispatch_generation
      else commit db no_wave

  -- `handleWaveTimeout`.
  unfoldable pub handle_wave_timeout : Db → WaveNumber → TripRef → Option ℕ → Outcome Wave
  unfolding wave_for_solo wave_for_pool
  handle_wave_timeout db w (solo id) given = wave_for_solo db w given (find_ride id db.rides)
  handle_wave_timeout db w (shared id) given = wave_for_pool db w given (find_pool id db.pools)

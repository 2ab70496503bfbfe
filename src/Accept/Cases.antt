-- ===== src/Accept/Cases.antt =====
-- Every way in which an acceptance ends, with what has been checked on that way.
use rcab.Base.{
  ℕ, ◌==◌, ◌≡◌, ◌≢◌, refl, true, false, some, [], ◌⊎◌, arith, inl, inr, Bool-cases, Option-cases,
  Memᴰ, ==_iff, find_by, find_by-mem, find_where, find_where-mem, exists_where-false, ◌&&◌, false,
}
use rcab.Store.{TripRef, solo, shared, OfferState, Offer, Guard, User, Db}
use rcab.Trips.Ledger.{claimable, Live}
use rcab.Trips.View.{ledger, trip_state, IsSound}
use rcab.Offers.{offer_key, lock_for_update, resolve_live, lapsed}
use rcab.Guards.{commit, find_by_trip, Eligibility, driver_eligibility, has_driver}
use rcab.Accept.{
  AcceptFailure, AcceptOutcome, assigned, refuse, TripLock, lock_trip, generation_of, trip_needs,
  driver_busy, driver_ineligible, vehicle_capacity, offer_expired, offer_stale, trip_not_claimable,
  offer_declined, offer_not_found, check_driver, accept_live, is_guard_of, accept_state,
  accept_locked, accept_in_tx,
}
use rcab.Accept.Bind.{AtGeneration, bound_db, beaten, bind_trip-total}

-- The driver's own offer, as it was read.
pub record Own (db : Db) (id driver : ℕ) (o : Offer) : Type 0 where
  pub read : lock_for_update db id ≡ some o
  pub mine : o.driver_id ≡ driver

pub data Ending (db : Db) (now id driver : ℕ) (t : TripRef) (out : AcceptOutcome) : Type 0 where
  refused : (reason : AcceptFailure) → out ≡ refuse db reason → Ending db now id driver t out
  replayed :
      (o : Offer) (locked : TripLock)
      → lock_trip db t ≡ some locked
      → Own db id driver o
      → o.state ≡ OfferState.accepted
      → is_guard_of o (find_by_trip db t) ≡ true
      → out ≡ commit db (assigned t o.generation true, [])
      → Ending db now id driver t out
  resolved :
      (to : OfferState) (o : Offer) (reason : AcceptFailure)
      → to ≢ OfferState.offered
      → to ≢ OfferState.accepted
      → out ≡ refuse (resolve_live db now o.id to).0 reason
      → Ending db now id driver t out
  bound_by :
      (o : Offer)
      → Own db id driver o
      → Live o (ledger db)
      → trip_state db t ≡ claimable
      → AtGeneration db t o.generation
      → ((h : Guard) → Memᴰ h db.guards → h.driver_id ≢ o.driver_id)
      → out ≡ commit (bound_db db now t o) (assigned t o.generation false, beaten db now t o)
      → Ending db now id driver t out

eligibility_cases :
    (e : Eligibility)
    → (e ≡ Eligibility.eligible)
      ⊎ ((e ≡ Eligibility.driver_ineligible) ⊎ (e ≡ Eligibility.vehicle_capacity))
eligibility_cases Eligibility.eligible = inl refl
eligibility_cases Eligibility.driver_ineligible = inr (inl refl)
eligibility_cases Eligibility.vehicle_capacity = inr (inr refl)

sum_cases : {A B : Type 0} (x : A ⊎ B) → ((a : A) × (x ≡ inl a)) ⊎ ((b : B) × (x ≡ inr b))
sum_cases (inl a) = inl (a, refl)
sum_cases (inr b) = inr (b, refl)

-- Who may drive has a row of `driver`.
eligible-has_driver :
    (db : Db) (driver seats : ℕ)
    → driver_eligibility db driver seats ≡ Eligibility.eligible
    → has_driver db driver ≡ true
unfolding driver_eligibility find_by
eligible-has_driver db driver seats fit =
    elim (Option-cases (find_where (λ (u : User). u.id == driver) db.users)) [
      | inl gone ↦ absurd (refused (rw (gone, driver_eligibility) at fit))
      | inr (u, found) ↦
          let (m, mine) = find_where-mem (λ (u : User). u.id == driver) db.users u found in
          elim (Bool-cases (has_driver db driver)) [
            | inl known ↦ known
            | inr unknown ↦
                let no_row =
                  exists_where-false (λ (u : User). u.id == driver && u.has_driver_row) db.users u
                    unknown m in
                let idle : (u.is_active && u.is_driver && u.has_driver_row) ≡ false =
                  ground (arith, no_row, mine) in
                absurd (refused (rw (found, idle, driver_eligibility) at fit))
          ]
    ]
  where
    refused : Eligibility.driver_ineligible ≡ Eligibility.eligible → ⊥
    refused e = cc

module _ (db : Db) (now id driver : ℕ) where
  lock-claimable :
      (t : TripRef) (locked : TripLock) (n : ℕ)
      → lock_trip db t ≡ some locked
      → trip_needs db locked ≡ inr n
      → trip_state db t ≡ claimable
  unfolding lock_trip trip_needs
  lock-claimable (solo k) locked n e h = ground arith
  lock-claimable (shared k) locked n e h = ground arith

  lock-AtGeneration :
      (t : TripRef) (locked : TripLock) (g : ℕ)
      → lock_trip db t ≡ some locked
      → (g == generation_of locked) ≡ true
      → AtGeneration db t g
  unfolding lock_trip
  lock-AtGeneration (solo k) locked g e h = tt
  lock-AtGeneration (shared k) locked g e h = λ p found. ground arith

  module _ (v : IsSound db) (t : TripRef) (o : Offer) (own : Own db id driver o) where
    check_driver-Ending :
        (n : ℕ)
        → Live o (ledger db)
        → trip_state db t ≡ claimable
        → AtGeneration db t o.generation
        → Ending db now id driver t (check_driver db now t o n)
    unfolding check_driver
    check_driver-Ending n live waits at =
        elim (eligibility_cases (driver_eligibility db o.driver_id n)) [
          | inl fit ↦
              rw (fit, check_driver)
                (elim (bind_trip-total db now t o v live waits at
                  (eligible-has_driver db o.driver_id n fit)) [
                    | inl busy ↦ refused driver_busy busy
                    | inr (done, free) ↦ bound_by o own live waits at free done
                  ])
          | inr (inl unfit) ↦ rw (unfit, check_driver) (refused driver_ineligible refl)
          | inr (inr small) ↦ rw (small, check_driver) (refused vehicle_capacity refl)
        ]

    accept_live-Ending :
        (locked : TripLock)
        → lock_trip db t ≡ some locked
        → Live o (ledger db)
        → Ending db now id driver t (accept_live db now t locked o)
    unfolding accept_live
    accept_live-Ending locked found live = elim (Bool-cases (lapsed now o)) [
      | inl late ↦ rw late (resolved OfferState.expired o offer_expired (λ e. cc) (λ e. cc) refl)
      | inr timely ↦ rw timely (elim (Bool-cases (o.generation == generation_of locked)) [
        | inr stale ↦ rw stale (resolved OfferState.revoked o offer_stale (λ e. cc) (λ e. cc) refl)
        | inl current ↦ rw current (elim (sum_cases (trip_needs db locked)) [
          | inl (reason, e) ↦ rw e (refused reason refl)
          | inr (n, e) ↦ rw e (
              check_driver-Ending n live (lock-claimable t locked n found e)
                (lock-AtGeneration t locked o.generation found current))
        ])
      ])
    ]

    accept_state-Ending :
        (locked : TripLock) (s : OfferState)
        → lock_trip db t ≡ some locked
        → o.state ≡ s
        → Ending db now id driver t (accept_state s db now t locked o)
    unfolding accept_state
    accept_state-Ending locked OfferState.offered found e =
        accept_live-Ending locked found (find_by-mem offer_key id db.offers o own.read, e)
    accept_state-Ending locked OfferState.accepted found e =
        elim (Bool-cases (is_guard_of o (find_by_trip db t))) [
          | inl held ↦ rw held (replayed o locked found own e held refl)
          | inr gone ↦ rw gone (refused trip_not_claimable refl)
        ]
    accept_state-Ending locked OfferState.declined found e = refused offer_declined refl
    accept_state-Ending locked OfferState.expired found e = refused offer_expired refl
    accept_state-Ending locked OfferState.revoked found e = refused _ refl

  accept_locked-Ending :
      (t : TripRef) (locked : TripLock)
      → IsSound db
      → lock_trip db t ≡ some locked
      → Ending db now id driver t (accept_locked db now id driver t locked)
  unfolding accept_locked
  accept_locked-Ending t locked v found = elim (Option-cases (lock_for_update db id)) [
    | inl gone ↦ rw (gone, accept_locked) (refused offer_not_found refl)
    | inr (o, e) ↦
        rw (e, accept_locked)
          (elim (Bool-cases (o.driver_id == driver)) [
            | inl mine ↦ rw mine (
                accept_state-Ending v t o
                  (record { read = e; mine = (==_iff o.driver_id driver).0 mine }) locked o.state
                  found refl)
            | inr other ↦ rw other (refused offer_not_found refl)
          ])
  ]

  pub accept_in_tx-Ending :
      (t : TripRef) → IsSound db → Ending db now id driver t (accept_in_tx db now id driver t)
  unfolding accept_in_tx
  accept_in_tx-Ending t v = elim (Option-cases (lock_trip db t)) [
    | inl gone ↦ rw (gone, accept_in_tx) (refused trip_not_claimable refl)
    | inr (locked, e) ↦ rw (e, accept_in_tx) (accept_locked-Ending t locked v e)
  ]

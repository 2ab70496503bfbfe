-- ===== src/Accept.antt =====
-- `DispatchService.acceptOffer` and `acceptInTx` (apps/api/src/modules/dispatch/dispatch.service.ts):
-- one transaction on the locked trip and offer. The lock order plays no part, since the
-- transaction is one step here; its clock is an argument.
pub mod Bind
pub mod Cases
pub mod Outcomes
pub mod Replay
use rcab.Base.{
  ℕ, ◌*◌, ◌==◌, ◌&&◌, leb, Bool, true, false, not, Option, none, some, List, [], ◌⊎◌, inl, inr,
  is_id, is_some, if◌then◌else◌, length, select_where, exists_where,
}
use rcab.Store.{
  TripRef, solo, shared, same_trip, OfferState, Ride, Pool, Offer, Guard, RideStop, Db,
}
use rcab.Trips.View.{find_ride, find_pool}
use rcab.Offers.{
  is_requested, is_claimable, is_offered, is_accepted, lapsed, lock_for_update, find_for_driver,
  resolve_live, RevokedOffer, revoke_live_for_trip,
}
use rcab.Guards.{
  Outcome, commit, abort, acquire, Acquired, find_by_trip, claim_solo_row, claim_shared_row,
  driver_eligibility, Eligibility,
}

pub data AcceptFailure : Type 0 where
  offer_not_found offer_expired offer_declined offer_revoked offer_stale : AcceptFailure
  trip_taken trip_not_claimable itinerary_missing : AcceptFailure
  driver_busy driver_ineligible vehicle_capacity : AcceptFailure

pub data AcceptResult : Type 0 where
  -- The trip, its generation, and whether the answer replays an earlier one.
  assigned : TripRef → ℕ → Bool → AcceptResult
  rejected : AcceptFailure → AcceptResult

abbrev pub AcceptOutcome : Type 0
AcceptOutcome = Outcome (AcceptResult × List RevokedOffer)

abbrev pub refuse : Db → AcceptFailure → AcceptOutcome
refuse db reason = commit db (rejected reason, [])

abbrev pub chain {ℓ κ} : {A : Type ℓ} {B : Type κ} → Outcome A → (Db → A → Outcome B) → Outcome B
chain (commit db a) k = k db a
chain abort k = abort

pub data TripLock : Type 0 where
  solo_lock : Ride → TripLock
  shared_lock : Pool → TripLock

-- `lockSoloTrip` and `lockSharedTrip`.
unfoldable pub lock_trip : Db → TripRef → Option TripLock
lock_trip db (solo id) = elim (find_ride id db.rides) [ none ↦ none | some r ↦ some (solo_lock r) ]
lock_trip db (shared id) = elim (find_pool id db.pools) [
  | none ↦ none
  | some p ↦ some (shared_lock p)
]

abbrev pub taken_by : TripLock → Option ℕ
taken_by (solo_lock r) = r.driver_id
taken_by (shared_lock p) = p.claimed_by_driver_id

abbrev pub generation_of : TripLock → ℕ
generation_of (solo_lock r) = r.dispatch_generation
generation_of (shared_lock p) = p.dispatch_generation

-- `RideStopRepository.countAll`.
unfoldable pub count_all : Db → ℕ → ℕ
count_all db id = length (select_where (λ (s : RideStop). s.ride_id == id) db.stops)

-- Step 5: what the trip needs of the driver's vehicle, if it can be claimed.
unfoldable pub trip_needs : Db → TripLock → AcceptFailure ⊎ ℕ
trip_needs db (solo_lock r) =
    if is_some r.driver_id
    then inl trip_taken
    else if is_requested r.status
    then inr 1
    else inl trip_not_claimable
trip_needs db (shared_lock p) =
    if is_some p.claimed_by_driver_id
    then inl trip_taken
    else if is_claimable p.pool_state
    then (if leb 1 p.seat_count && count_all db p.ride_id == 2 * p.seat_count
        then inr p.seat_count
        else inl itinerary_missing)
    else inl trip_not_claimable

-- The claim of the trip's row.
unfoldable pub claim_row : Db → ℕ → TripRef → ℕ → ℕ → Outcome (Unit {0})
claim_row db now (solo id) driver g =
    chain (claim_solo_row db now id driver g) (λ db' _. commit db' tt)
claim_row db now (shared id) driver g = claim_shared_row db now id driver g

abbrev pub is_accept_of : TripRef → ℕ → Offer → Bool
is_accept_of trip g o = same_trip o.trip trip && o.generation == g && is_accepted o.state

-- `markAccepted`: an offer that is not live is a bug, and throws; so does a second acceptance of a
-- trip's generation, by the unique indexes on accepted offers.
unfoldable pub mark_accepted : Db → ℕ → ℕ → Outcome (Unit {0})
mark_accepted db now id =
    let hit = λ (o : Offer). o.id == id && is_offered o.state in
    if exists_where (λ o. hit o && exists_where (is_accept_of o.trip o.generation) db.offers)
      db.offers
    then abort
    else (let (db', live) = resolve_live db now id OfferState.accepted in
        if live then commit db' tt else abort)

-- Step 8: bind the trip, resolve the offer, revoke the rest.
unfoldable pub bind_acquired : Db → ℕ → TripRef → Offer → AcceptOutcome
unfolding claim_row mark_accepted
bind_acquired db now trip o = chain (claim_row db now trip o.driver_id o.generation) λ db1 _.
    chain (mark_accepted db1 now o.id) λ db2 _.
      let (db3, revoked) = revoke_live_for_trip db2 now trip (some o.id) in
      commit db3 (assigned trip o.generation false, revoked)

-- Step 7: the guard.
unfoldable pub bind_trip : Db → ℕ → TripRef → Offer → AcceptOutcome
unfolding bind_acquired
bind_trip db now trip o =
    chain (acquire db now o.driver_id trip (some o.id) o.generation) λ db1 got. elim got [
      | Acquired.acquired ↦ bind_acquired db1 now trip o
      | Acquired.driver_busy ↦ refuse db1 driver_busy
      | Acquired.trip_taken ↦ refuse db1 trip_taken
    ]

-- Step 6.
unfoldable pub check_driver : Db → ℕ → TripRef → Offer → ℕ → AcceptOutcome
unfolding bind_trip
check_driver db now trip o seats = elim (driver_eligibility db o.driver_id seats) [
  | Eligibility.eligible ↦ bind_trip db now trip o
  | Eligibility.driver_ineligible ↦ refuse db driver_ineligible
  | Eligibility.vehicle_capacity ↦ refuse db vehicle_capacity
]

-- Step 4: deadline and generation, then step 5.
unfoldable pub accept_live : Db → ℕ → TripRef → TripLock → Offer → AcceptOutcome
unfolding check_driver trip_needs
accept_live db now trip locked o =
    if lapsed now o
    then refuse (resolve_live db now o.id OfferState.expired).0 offer_expired
    else if o.generation == generation_of locked
    then (elim (trip_needs db locked) [
      | inl reason ↦ refuse db reason
      | inr seats ↦ check_driver db now trip o seats
    ])
    else refuse (resolve_live db now o.id OfferState.revoked).0 offer_stale

abbrev pub is_guard_of : Offer → Option Guard → Bool
is_guard_of o none = false
is_guard_of o (some g) = g.driver_id == o.driver_id && g.generation == o.generation

-- `takenBy && takenBy !== driverId`.
abbrev pub is_other : Option ℕ → ℕ → Bool
is_other none driver = false
is_other (some d) driver = not (d == driver)

-- Step 3, and the refusals of an offer that is over.
unfoldable pub accept_state : OfferState → Db → ℕ → TripRef → TripLock → Offer → AcceptOutcome
unfolding accept_live
accept_state OfferState.offered db now trip locked o = accept_live db now trip locked o
accept_state OfferState.accepted db now trip locked o =
    if is_guard_of o (find_by_trip db trip)
    then commit db (assigned trip o.generation true, [])
    else refuse db trip_not_claimable
accept_state OfferState.declined db now trip locked o = refuse db offer_declined
accept_state OfferState.expired db now trip locked o = refuse db offer_expired
accept_state OfferState.revoked db now trip locked o =
    refuse db (if is_other (taken_by locked) o.driver_id then trip_taken else offer_revoked)

-- Step 2: the offer's own driver only.
unfoldable pub accept_locked : Db → ℕ → ℕ → ℕ → TripRef → TripLock → AcceptOutcome
unfolding accept_state
accept_locked db now id driver trip locked = elim (lock_for_update db id) [
  | none ↦ refuse db offer_not_found
  | some o ↦
      if o.driver_id == driver
      then accept_state o.state db now trip locked o
      else refuse db offer_not_found
]

unfoldable pub accept_in_tx : Db → ℕ → ℕ → ℕ → TripRef → AcceptOutcome
unfolding accept_locked lock_trip
accept_in_tx db now id driver trip = elim (lock_trip db trip) [
  | none ↦ refuse db trip_not_claimable
  | some locked ↦ accept_locked db now id driver trip locked
]

-- `acceptOffer`, up to the notifications: the unlocked read names the trip.
unfoldable pub accept_offer : Db → ℕ → ℕ → ℕ → AcceptOutcome
unfolding accept_in_tx
accept_offer db now id driver = elim (find_for_driver db id driver) [
  | none ↦ refuse db offer_not_found
  | some seen ↦ accept_in_tx db now id driver seen.trip
]

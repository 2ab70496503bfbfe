-- ===== src/Rides/Ends.antt =====
-- A cancellation, a no-show and the end of a fruitless dispatch are moves of the ledger, and so is
-- the creation of a ride.
use rcab.Base.{
  ℕ, ◌==◌, ◌&&◌, ◌≡◌, ◌≢◌, refl, sym, ap, subst, ◌∙◌, Bool, true, false, not, Option, none, some,
  List, inl, inr, ◌∷◌, ◌⊎◌, Bool-cases, Option-cases, arith, Memᴰ, is_id, is_some, ==_iff, ==_refl,
  find_by, find_where, exists_where,
}
use rcab.Store.{TripRef, solo, shared, RideStatus, Ride, Topic, Db}
use rcab.Trips.Ledger.{claimable, closed, bound, absent, is_over, Ledger, Move, finish, arise}
use rcab.Trips.View.{ledger, find_ride, ride_state, trip_state, IsSound, of_ride}
use rcab.Trips.Exclusive.{claimable-ne-stray, claimable-ne-bound, closed-ne-bound}
use rcab.Offers.{is_requested, revoke_live_for_trip}
use rcab.Offers.Live.{stay, revoked-spent}
use rcab.Guards.{release}
use rcab.Outbox.{enqueue, is_intent}
use rcab.Rides.{with_status}
use rcab.Rides.Cancel.{
  CancelRequest, owns, cancel_target, cancelled_ride, release_bound, end_ride_as, cancel,
  at_generation, mark_no_driver,
}
use rcab.Rides.Create.{NewRide, created_ride}
use rcab.Rides.Row.{
  set_ride-at, set_ride-other, find-state, ride_state-driver, ended-offerless, release_bound-from,
  release_bound-keeps, revoked-others,
}

sum_cases : {A B : Type 0} (x : A ⊎ B) → ((a : A) × (x ≡ inl a)) ⊎ ((b : B) × (x ≡ inr b))
sum_cases (inl a) = inl (a, refl)
sum_cases (inr b) = inr (b, refl)

-- A request that is granted ends the ride.
cancel_target-closed :
    (now : ℕ) (c : CancelRequest) (r : Ride) (to : RideStatus) (d : Option ℕ)
    → cancel_target now c r ≡ inr to
    → ride_state to d ≡ closed
unfolding cancel_target
cancel_target-closed now c r to d h = ground arith

module _ (db : Db) (now : ℕ) (v : IsSound db) where
  end_ride_as-Move :
      (c : CancelRequest) (r : Ride) (to : RideStatus)
      → find_ride c.ride_id db.rides ≡ some r
      → cancel_target now c r ≡ inr to
      → Move (ledger db) (ledger (end_ride_as db now c r.driver_id to).0)
  unfolding end_ride_as revoke_live_for_trip release rcab.Base.update_where
  end_ride_as-Move c r to e granted = go r.driver_id refl
    where
      owned : (d : ℕ) → trip_state db (solo c.ride_id) ≡ bound d → r.driver_id ≡ some d
      owned d h = ride_state-driver r d (sym (find-state db c.ride_id r e) ∙ h)

      go :
          (owner : Option ℕ)
          → r.driver_id ≡ owner
          → Move (ledger db) (ledger (end_ride_as db now c owner to).0)
      go none by =
          finish (solo c.ride_id)
            (set_ride-at db c.ride_id (cancelled_ride now c to) (λ x. refl) r e
              ∙ cancel_target-closed now c r to r.driver_id granted)
            (set_ride-other db c.ride_id (cancelled_ride now c to) (λ x. refl))
            (unfold release_bound in
              release_bound-from db v (solo c.ride_id) none (λ d h. sym by ∙ owned d h))
            (unfold release_bound in release_bound-keeps db v (solo c.ride_id) none)
            (λ o lv. revoked-others db.offers now (solo c.ride_id) o lv.0 lv.1)
            (revoked-spent db.offers now (solo c.ride_id) none)
      go (some d) by =
          finish (solo c.ride_id)
            (set_ride-at db c.ride_id (cancelled_ride now c to) (λ x. refl) r e
              ∙ cancel_target-closed now c r to r.driver_id granted)
            (set_ride-other db c.ride_id (cancelled_ride now c to) (λ x. refl))
            (unfold release_bound release in
              release_bound-from db v (solo c.ride_id) (some d) (λ d' h. sym by ∙ owned d' h))
            (unfold release_bound release in release_bound-keeps db v (solo c.ride_id) (some d))
            (λ o lv. revoked-others db.offers now (solo c.ride_id) o lv.0 lv.1)
            (revoked-spent db.offers now (solo c.ride_id) none)

  -- A cancellation or a no-show, granted or refused.
  pub cancel-Move : (c : CancelRequest) → Move (ledger db) (ledger (cancel db now c).0)
  unfolding cancel
  cancel-Move c = elim (Option-cases (find_ride c.ride_id db.rides)) [
    | inl gone ↦ rw (gone, cancel) (stay (ledger db))
    | inr (r, found) ↦
        rw (found, cancel)
          (elim (Bool-cases (owns c r)) [
            | inr other ↦ rw other (stay (ledger db))
            | inl mine ↦ rw mine (elim (sum_cases (cancel_target now c r)) [
              | inl (reason, e) ↦ rw e (stay (ledger db))
              | inr (to, e) ↦ rw e (end_ride_as-Move c r to found e)
            ])
          ])
  ]

  -- The end of a dispatch that found no driver.
  pub mark_no_driver-Move :
      (id : ℕ) (g : Option ℕ) → Move (ledger db) (ledger (mark_no_driver db now id g).0)
  unfolding mark_no_driver revoke_live_for_trip
  mark_no_driver-Move id g = elim (Option-cases (find_ride id db.rides)) [
    | inl gone ↦ rw (gone, mark_no_driver) (stay (ledger db))
    | inr (r, found) ↦
        rw (found, mark_no_driver)
          (elim (Bool-cases (
            is_requested r.status
            && not (is_some r.driver_id)
            && at_generation g r.dispatch_generation)) [
              | inr stale ↦ rw stale (stay (ledger db))
              | inl waits ↦
                  let now_closed =
                    set_ride-at db id (with_status RideStatus.no_driver) (λ x. refl) r found in
                  let was : trip_state db (solo id) ≡ claimable =
                    find-state db id r found ∙ ground (arith, waits) in
                  rw waits (
                    arise (solo id) (λ d h. claimable-ne-bound (sym was ∙ h)) (ap is_over was)
                      (λ d h. closed-ne-bound (sym now_closed ∙ h)) (λ d h. cc)
                      (set_ride-other db id (with_status RideStatus.no_driver) (λ x. refl)) refl
                      (λ o lv. revoked-others db.offers now (solo id) o lv.0 lv.1)
                      (revoked-spent db.offers now (solo id) none))
            ])
  ]

pub enqueue-ledger :
    (db : Db) (now id : ℕ) (t : Topic) (a g : ℕ) (at : Option ℕ)
    → ledger (enqueue db now id t a g at) ≡ ledger db
unfolding enqueue
enqueue-ledger db now id t a g at = elim (Bool-cases (exists_where (is_intent t a g) db.outbox)) [
  | inl old ↦ rw old
  | inr new ↦ rw new
]

-- A ride that is created under a new id waits for a driver.
pub created_ride-Move :
    (db : Db) (id : ℕ) (n : NewRide)
    → IsSound db
    → find_ride id db.rides ≡ none
    → Move (ledger db) (ledger (record db { rides = created_ride id n ∷ db.rides }))
unfolding find_by find_where
created_ride-Move db id n v new =
    arise (solo id) (λ d h. ground (arith, new, h)) (ap (λ o. is_over (of_ride o)) new)
      (λ d h. claimable-ne-bound (sym now ∙ h)) (λ d h. claimable-ne-stray (sym now ∙ h)) others
      refl (λ o lv. (lv, ended-offerless db v (solo id) absent (ap of_ride new) (λ h. cc) o lv))
      (λ o sp. sp)
  where
    m : Ledger
    m = ledger (record db { rides = created_ride id n ∷ db.rides })

    now : m.state (solo id) ≡ claimable
    now = rw (==_refl id) refl

    others : (u : TripRef) → u ≢ solo id → m.state u ≡ trip_state db u
    others (shared k) other = refl
    others (solo k) other = elim (Bool-cases (id == k)) [
      | inl e ↦ absurd (other (ap solo (sym ((==_iff id k).0 e))))
      | inr e ↦ rw e refl
    ]

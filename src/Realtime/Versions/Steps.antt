-- ===== src/Realtime/Versions/Steps.antt =====
-- Each transaction takes the versions of rides forward.
use rcab.Base.{
  sum_cases, ℕ, suc, ◌≤◌, ◌≡◌, refl, sym, ap, subst, ◌∙◌, ◌==◌, ◌&&◌, not, max, ltb, Bool, true,
  false, Option, none, some, List, ◌∷◌, ◌⊎◌, inl, inr, Bool-cases, Option-cases, ==_iff, arith,
  is_id, is_some, find_by-key, find_where, exists_where,
}
use rcab.Store.{TripRef, solo, shared, RideStatus, Ride, Topic, Db}
use rcab.Trips.View.{find_ride, find_pool, IsSound, ride_key}
use rcab.Offers.{
  is_requested, create_offer, insert_offer, expire_driver, dispatchable, conflicts,
  revoke_live_for_trip, find_for_driver, resolve_live,
}
use rcab.Guards.{after, release, claimable_row, claimed_ride, abort_unclaimed_pool, claimable_pool}
use rcab.Outbox.{enqueue, is_intent}
use rcab.Accept.{AcceptOutcome, accept_offer}
use rcab.Accept.Bind.{claimed_rides}
use rcab.Accept.Cases.{Ending, refused, replayed, resolved, bound_by, accept_in_tx-Ending}
use rcab.Rides.{
  set_ride, same_status, RideEvent, start_en_route, mark_arrived, start_ride, end_ride, event_from,
  event_to, advance, transition, apply_event, with_status,
}
use rcab.Rides.Cancel.{
  CancelRequest, owns, cancel_target, cancelled_ride, end_ride_as, cancel, at_generation,
  mark_no_driver, release_bound,
}
use rcab.Timers.{
  wakes, wake_scheduled, rearm_row, rearmable, rearm_scheduled, abort_pool, or_current,
  is_scheduled_ride, hard_fail, same_window, at_new_generation,
}
use rcab.Realtime.{ride_status_version}
use rcab.Realtime.Versions.{IsAhead, IsForward, IsForward-refl, update-IsForward}

pub enqueue-rides :
    (db : Db) (now row : ℕ) (t : Topic) (id g : ℕ) (at : Option ℕ)
    → (enqueue db now row t id g at).rides ≡ db.rides
unfolding enqueue
enqueue-rides db now row t id g at = elim (Bool-cases (exists_where (is_intent t id g) db.outbox)) [
  | inl there ↦ rw there refl
  | inr new ↦ rw new refl
]

-- An update of the row with an id, whose row is known.
set_ride-IsForward :
    (db : Db) (id : ℕ) (r : Ride) (f : Ride → Ride)
    → ((x : Ride) → (f x).id ≡ x.id)
    → find_ride id db.rides ≡ some r
    → IsAhead r (f r)
    → IsForward db.rides (set_ride db id f).rides
set_ride-IsForward db id r f same found ahead =
    update-IsForward db.rides (λ x. x.id == id) f same
      λ k x e hit.
        let at : x.id ≡ id = (==_iff x.id id).0 hit in
        let key : x.id ≡ k = find_by-key ride_key k db.rides x e in
        let here : some x ≡ some r =
          sym e ∙ ap (λ n. find_ride n db.rides) (sym key ∙ at) ∙ found in
        subst (λ y. IsAhead y (f y)) (it here) ahead
  where
    it : {x r : Ride} → some x ≡ some r → r ≡ x
    it e = cc

-- A ride that leaves a status for a later one.
pub moved-IsAhead :
    (r r' : Ride)
    → suc (ride_status_version r.status) ≤ ride_status_version r'.status
    → IsAhead r r'
moved-IsAhead r r' more = record { forward = ground arith; still = λ e. absurd (ground arith) }

module _ (db : Db) (now : ℕ) where
  -- A forward event, accepted or refused.
  pub apply_event-IsForward :
      (id driver : ℕ) (e : RideEvent) → IsForward db.rides (apply_event db now id driver e).0.rides
  unfolding apply_event transition advance release
  apply_event-IsForward id driver e = elim (Option-cases (find_ride id db.rides)) [
    | inl gone ↦ rw (gone, transition) (IsForward-refl db.rides)
    | inr (r, found) ↦
        rw (found, transition)
          (elim (Bool-cases (is_id r.driver_id driver)) [
            | inr other ↦ rw other (IsForward-refl db.rides)
            | inl mine ↦ rw mine (elim (Bool-cases (same_status r.status (event_from e))) [
              | inr stale ↦ rw stale (IsForward-refl db.rides)
              | inl current ↦ rw current (advanced e r found current)
            ])
          ])
  ]
    where
      advanced :
          (e : RideEvent) (r : Ride)
          → find_ride id db.rides ≡ some r
          → same_status r.status (event_from e) ≡ true
          → IsForward db.rides (advance db now id driver (event_to e)).rides
      advanced start_en_route r found h =
          set_ride-IsForward db id r _ (λ x. refl) found (moved-IsAhead r _ (ground arith))
      advanced mark_arrived r found h =
          set_ride-IsForward db id r _ (λ x. refl) found (moved-IsAhead r _ (ground arith))
      advanced start_ride r found h =
          set_ride-IsForward db id r _ (λ x. refl) found (moved-IsAhead r _ (ground arith))
      advanced end_ride r found h =
          set_ride-IsForward db id r _ (λ x. refl) found (moved-IsAhead r _ (ground arith))

  release_bound-rides :
      (d : Db) (driver : Option ℕ) (t : TripRef) → (release_bound d driver t).rides ≡ d.rides
  unfolding release_bound release
  release_bound-rides d none t = refl
  release_bound-rides d (some k) t = refl

  cancel_target-ahead :
      (c : CancelRequest) (r : Ride) (to : RideStatus)
      → cancel_target now c r ≡ inr to
      → suc (ride_status_version r.status) ≤ ride_status_version to
  unfolding cancel_target
  cancel_target-ahead c r to h = ground arith

  ended :
      (c : CancelRequest) (r : Ride) (to : RideStatus)
      → cancel_target now c r ≡ inr to
      → IsAhead r (cancelled_ride now c to r)
  ended c r to e = moved-IsAhead r (cancelled_ride now c to r) (cancel_target-ahead c r to e)

  pub cancel-IsForward : (c : CancelRequest) → IsForward db.rides (cancel db now c).0.rides
  unfolding cancel end_ride_as revoke_live_for_trip
  cancel-IsForward c = elim (Option-cases (find_ride c.ride_id db.rides)) [
    | inl gone ↦ rw (gone, cancel) (IsForward-refl db.rides)
    | inr (r, found) ↦
        rw (found, cancel)
          (elim (Bool-cases (owns c r)) [
            | inr other ↦ rw other (IsForward-refl db.rides)
            | inl mine ↦
                rw (mine, cancel)
                  (elim (sum_cases (cancel_target now c r)) [
                    | inl (why, e) ↦ rw (e, cancel) (IsForward-refl db.rides)
                    | inr (to, e) ↦
                        rw (e, cancel)
                          (subst (IsForward db.rides)
                            (sym (release_bound-rides _ r.driver_id (solo c.ride_id)))
                            (set_ride-IsForward db c.ride_id r (cancelled_ride now c to) (λ x. refl)
                              found (ended c r to e)))
                  ])
          ])
  ]

  pub mark_no_driver-IsForward :
      (id : ℕ) (g : Option ℕ) → IsForward db.rides (mark_no_driver db now id g).0.rides
  unfolding mark_no_driver revoke_live_for_trip
  mark_no_driver-IsForward id g = elim (Option-cases (find_ride id db.rides)) [
    | inl gone ↦ rw (gone, mark_no_driver) (IsForward-refl db.rides)
    | inr (r, found) ↦
        rw (found, mark_no_driver)
          (elim (Bool-cases (
            is_requested r.status
            && not (is_some r.driver_id)
            && at_generation g r.dispatch_generation)) [
              | inr other ↦ rw other (IsForward-refl db.rides)
              | inl fits ↦ rw fits (
                  set_ride-IsForward db id r (with_status RideStatus.no_driver) (λ x. refl) found
                    (moved-IsAhead r _ (ground (arith, fits))))
            ])
  ]

  pub claimed_rides-IsForward :
      (t : TripRef) (d g : ℕ) → IsForward db.rides (claimed_rides now t d g db.rides)
  claimed_rides-IsForward (shared id) d g = IsForward-refl db.rides
  claimed_rides-IsForward (solo id) d g =
      update-IsForward db.rides (claimable_row id) (claimed_ride now d g) (λ x. refl)
        λ k x e hit. record {
          forward = ground (arith, hit);
          still = λ same. absurd (ground (arith, hit, same));
        }

  -- An update that keeps the status.
  regenerated-IsForward :
      (p : Ride → Bool) (g : ℕ)
      → IsForward db.rides (rcab.Base.update_where p (at_new_generation g) db.rides)
  regenerated-IsForward p g =
      update-IsForward db.rides p (at_new_generation g) (λ x. refl)
        λ k x e hit. record { forward = ground arith; still = λ same. refl }

  pub wake_scheduled-IsForward : (id g : ℕ) → IsForward db.rides (wake_scheduled db id g).0.rides
  unfolding wake_scheduled
  wake_scheduled-IsForward id g = elim (Bool-cases (exists_where (wakes id g) db.rides)) [
    | inr gone ↦ rw gone (IsForward-refl db.rides)
    | inl woken ↦ rw woken (regenerated-IsForward (wakes id g) g)
  ]

  pub rearm_scheduled-IsForward :
      (row id : ℕ) (expected : Option ℕ)
      → IsForward db.rides (rearm_scheduled db now row id expected).0.rides
  unfolding rearm_scheduled rearm_row revoke_live_for_trip
  rearm_scheduled-IsForward row id expected = elim (Option-cases (find_ride id db.rides)) [
    | inl gone ↦ rw (gone, rearm_scheduled) (IsForward-refl db.rides)
    | inr (r, found) ↦
        rw (found, rearm_scheduled)
          (elim (Bool-cases (rearmable expected r)) [
            | inr calm ↦ rw calm (IsForward-refl db.rides)
            | inl due ↦ rw due (
                subst (IsForward db.rides)
                  (sym (
                    enqueue-rides _ now row Topic.ride_dispatch_requested r.id
                      (suc r.dispatch_generation) none))
                  (regenerated-IsForward (same_window r.id r.dispatch_generation)
                    (suc r.dispatch_generation)))
          ])
  ]

  abort_pool-rides : (id : ℕ) (given : Option ℕ) → (abort_pool db now id given).0.rides ≡ db.rides
  unfolding abort_pool revoke_live_for_trip abort_unclaimed_pool
  abort_pool-rides id given = elim (Option-cases (find_pool id db.pools)) [
    | inl gone ↦ rw (gone, abort_pool) refl
    | inr (p, found) ↦
        let g = or_current given p.dispatch_generation in
        rw (found, abort_pool)
          (elim (Bool-cases (g == p.dispatch_generation && not (ltb g 1))) [
            | inr old ↦ rw old refl
            | inl current ↦
                rw current (elim (Bool-cases (exists_where (claimable_pool id g) db.pools)) [
                  | inr none_left ↦ rw none_left refl
                  | inl waits ↦ rw waits refl
                ])
          ])
  ]

  pub hard_fail-IsForward :
      (row : ℕ) (t : TripRef) (g : Option ℕ) → IsForward db.rides (hard_fail db now row t g).rides
  unfolding hard_fail
  hard_fail-IsForward row (shared id) g =
      subst (IsForward db.rides) (sym (abort_pool-rides id g)) (IsForward-refl db.rides)
  hard_fail-IsForward row (solo id) g =
      elim (Bool-cases (is_scheduled_ride (find_ride id db.rides))) [
        | inl planned ↦ rw planned (rearm_scheduled-IsForward row id g)
        | inr soon ↦ rw soon (mark_no_driver-IsForward id g)
      ]

  pub create_offer-rides :
      (id : ℕ) (t : TripRef) (driver g wave ttl : ℕ)
      → (create_offer db now id t driver g wave ttl).0.rides ≡ db.rides
  unfolding create_offer insert_offer expire_driver
  create_offer-rides id t driver g wave ttl = elim (Bool-cases (dispatchable db t g)) [
    | inr other ↦ rw other refl
    | inl fits ↦
        rw fits
          (elim (Bool-cases
            (exists_where (conflicts id t g driver) (expire_driver db driver now).offers)) [
              | inl held ↦ rw held refl
              | inr free ↦ rw free refl
            ])
  ]

  -- An acceptance, in whatever way it ends.
  Ending-IsForward :
      (id driver : ℕ) (t : TripRef) (out : AcceptOutcome)
      → Ending db now id driver t out
      → IsForward db.rides (after db out).rides
  unfolding resolve_live
  Ending-IsForward id driver t out (refused reason e) = rw e (IsForward-refl db.rides)
  Ending-IsForward id driver t out (replayed o locked found own spent held e) =
      rw e (IsForward-refl db.rides)
  Ending-IsForward id driver t out (resolved to o reason dead other e) =
      rw e (IsForward-refl db.rides)
  Ending-IsForward id driver t out (bound_by o own live waits at free e) =
      rw e (claimed_rides-IsForward t o.driver_id o.generation)

  pub accept_offer-IsForward :
      (id driver : ℕ)
      → IsSound db
      → IsForward db.rides (after db (accept_offer db now id driver)).rides
  unfolding accept_offer
  accept_offer-IsForward id driver v = elim (Option-cases (find_for_driver db id driver)) [
    | inl gone ↦ rw (gone, accept_offer) (IsForward-refl db.rides)
    | inr (seen, e) ↦
        rw (e, accept_offer)
          (Ending-IsForward id driver seen.trip _
            (accept_in_tx-Ending db now id driver seen.trip v))
  ]

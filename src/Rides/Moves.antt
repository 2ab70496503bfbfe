-- ===== src/Rides/Moves.antt =====
-- The operations on a solo ride are moves of the ledger: a step forward keeps the driver bound, and
-- an end frees the driver and takes the offers back.
use rcab.Base.{ℕ, ◌≡◌, refl, sym, ◌∙◌, true, some, inl, inr, Bool-cases, Option-cases, arith, is_id}
use rcab.Store.{TripRef, TripRef-discrete, solo, Ride, Db}
use rcab.Trips.Ledger.{bound, Move, settle, finish}
use rcab.Trips.View.{ledger, find_ride, ride_state, trip_state, IsSound}
use rcab.Offers.Live.{stay}
use rcab.Guards.{release}
use rcab.Rides.{
  set_ride, same_status, RideEvent, start_en_route, mark_arrived, start_ride, end_ride, event_from,
  event_to, advance, transition, apply_event,
}
use rcab.Rides.Cancel.{release_bound}
use rcab.Rides.Row.{
  set_ride-at, set_ride-other, find-state, ended-offerless, release_bound-from, release_bound-keeps,
}

module _ (db : Db) (now id : ℕ) where
  -- An update of the row that leaves the trip what it is to drivers.
  pub settle_ride :
      (f : Ride → Ride)
      → ((x : Ride) → (f x).id ≡ x.id)
      → (r : Ride) → find_ride id db.rides ≡ some r
      → ride_state (f r).status (f r).driver_id ≡ ride_state r.status r.driver_id
      → (u : TripRef) → trip_state (set_ride db id f) u ≡ trip_state db u
  settle_ride f same r e alike u = elim (TripRef-discrete u (solo id)) [
    | yes at ↦ rw at (set_ride-at db id f same r e ∙ alike ∙ sym (find-state db id r e))
    | no other ↦ set_ride-other db id f same u other
  ]

  module _ (v : IsSound db) (driver : ℕ) where
    advance-Move :
        (e : RideEvent) (r : Ride)
        → find_ride id db.rides ≡ some r
        → r.driver_id ≡ some driver
        → r.status ≡ event_from e
        → Move (ledger db) (ledger (advance db now id driver (event_to e)))
    unfolding advance release
    advance-Move start_en_route r e by at =
        settle (settle_ride _ (λ x. refl) r e (ground arith)) refl (λ o lv. lv) (λ o sp. sp)
    advance-Move mark_arrived r e by at =
        settle (settle_ride _ (λ x. refl) r e (ground arith)) refl (λ o lv. lv) (λ o sp. sp)
    advance-Move start_ride r e by at =
        settle (settle_ride _ (λ x. refl) r e (ground arith)) refl (λ o lv. lv) (λ o sp. sp)
    advance-Move end_ride r e by at =
        finish (solo id) (set_ride-at db id _ (λ x. refl) r e) (set_ride-other db id _ (λ x. refl))
          (unfold release_bound in release_bound-from db v (solo id) (some driver) owned)
          (unfold release_bound in release_bound-keeps db v (solo id) (some driver))
          (λ o lv. (lv, ended-offerless db v (solo id) (bound driver) here (λ h. cc) o lv))
          (λ o sp. sp)
      where
        here : trip_state db (solo id) ≡ bound driver
        here = find-state db id r e ∙ ground arith

        owned : (d : ℕ) → trip_state db (solo id) ≡ bound d → some driver ≡ some d
        owned d h = ground (arith, h, here)

    -- A forward event, accepted or refused.
    pub apply_event-Move :
        (e : RideEvent) → Move (ledger db) (ledger (apply_event db now id driver e).0)
    unfolding apply_event transition
    apply_event-Move e = elim (Option-cases (find_ride id db.rides)) [
      | inl gone ↦ rw (gone, transition) (stay (ledger db))
      | inr (r, found) ↦
          rw (found, transition)
            (elim (Bool-cases (is_id r.driver_id driver)) [
              | inr other ↦ rw other (stay (ledger db))
              | inl mine ↦ rw mine (elim (Bool-cases (same_status r.status (event_from e))) [
                | inr stale ↦ rw stale (stay (ledger db))
                | inl current ↦
                    rw current
                      (advance-Move e r found (ground (arith, mine)) (from_status e r current))
              ])
            ])
    ]
      where
        from_status :
            (e : RideEvent) (r : Ride)
            → same_status r.status (event_from e) ≡ true
            → r.status ≡ event_from e
        from_status start_en_route r h = ground arith
        from_status mark_arrived r h = ground arith
        from_status start_ride r h = ground arith
        from_status end_ride r h = ground arith

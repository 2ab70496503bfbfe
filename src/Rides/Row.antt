-- ===== src/Rides/Row.antt =====
-- The update of one ride's row, and the end of a trip, as they show in the ledger.
use rcab.Base.{
  ℕ, ◌==◌, ◌≡◌, ◌≢◌, refl, sym, ap, ◌∙◌, false, Option, none, some, List, inl, inr, Bool-cases,
  arith, update_where, find_by-update_hit, find_by-update_other, find_by-key, ==_iff,
  mem-delete_where, delete_where-mem, Memᴰ,
}
use rcab.Store.{TripRef, solo, shared, same_trip, same_trip_iff, OfferState, Ride, Offer, Guard, Db}
use rcab.Trips.Ledger.{TripState, claimable, bound, Live}
use rcab.Trips.View.{ledger, ride_key, find_ride, of_ride, ride_state, trip_state, IsSound}
use rcab.Offers.{live_of, resolve}
use rcab.Offers.Live.{live-update}
use rcab.Guards.{release, binds}
use rcab.Rides.{set_ride}
use rcab.Rides.Cancel.{release_bound}

module _ (db : Db) (id : ℕ) (f : Ride → Ride) (same : (r : Ride) → (f r).id ≡ r.id) where
  pub set_ride-at :
      (r : Ride)
      → find_ride id db.rides ≡ some r
      → trip_state (set_ride db id f) (solo id) ≡ ride_state (f r).status (f r).driver_id
  set_ride-at r e = ap of_ride (
      find_by-update_hit ride_key (λ x. x.id == id) f same id db.rides r e
        ((==_iff r.id id).1 (find_by-key ride_key id db.rides r e)))

  pub set_ride-other :
      (u : TripRef) → u ≢ solo id → trip_state (set_ride db id f) u ≡ trip_state db u
  set_ride-other (shared k) other = refl
  set_ride-other (solo k) other = ap of_ride (
      find_by-update_other ride_key (λ x. x.id == id) f same id k db.rides
        (λ x h. (==_iff x.id id).0 h) (λ e. other (ap solo e)))

pub find-state :
    (db : Db) (id : ℕ) (r : Ride)
    → find_ride id db.rides ≡ some r
    → trip_state db (solo id) ≡ ride_state r.status r.driver_id
find-state db id r e = ap of_ride e

-- A driver who has the ride is the one in its row.
pub ride_state-driver :
    (r : Ride) (d : ℕ) → ride_state r.status r.driver_id ≡ bound d → r.driver_id ≡ some d
ride_state-driver r d h = ground arith

module _ (db : Db) (v : IsSound db) (t : TripRef) where
  pub ended-offerless :
      (s : TripState)
      → trip_state db t ≡ s
      → s ≢ claimable
      → (o : Offer) → Live o (ledger db)
      → o.trip ≢ t
  ended-offerless s e other o lv same =
      other (sym e ∙ ap (trip_state db) (sym same) ∙ v.live_claimable o lv)

  -- With the bound driver's guard gone, those that are left are the others.
  pub release_bound-from :
      (owner : Option ℕ)
      → ((d : ℕ) → trip_state db t ≡ bound d → owner ≡ some d)
      → (h : Guard) → Memᴰ h (release_bound db owner t).guards
      → Memᴰ h db.guards × (h.trip ≢ t)
  unfolding release_bound release
  release_bound-from none owned h m = (
    m,
    λ same. ground (arith, owned h.driver_id (ap (trip_state db) (sym same) ∙ v.guard_bound h m)),
  )
  release_bound-from (some d) owned h m =
      let (old, kept) = mem-delete_where (binds d t) db.guards m in
      (
        old,
        λ same.
            let by = owned h.driver_id (ap (trip_state db) (sym same) ∙ v.guard_bound h old) in
            ground (arith, kept, by, (same_trip_iff h.trip t).1 same),
      )

  pub release_bound-keeps :
      (owner : Option ℕ) (h : Guard)
      → Memᴰ h db.guards
      → h.trip ≢ t
      → Memᴰ h (release_bound db owner t).guards
  unfolding release_bound release
  release_bound-keeps none h m other = m
  release_bound-keeps (some d) h m other = delete_where-mem (binds d t) db.guards m miss
    where
      miss : binds d t h ≡ false
      miss = elim (Bool-cases (same_trip h.trip t)) [
        | inl same ↦ absurd (other ((same_trip_iff h.trip t).0 same))
        | inr differs ↦ ground (arith, differs)
      ]

-- The offers that a revocation of the trip's offers leaves.
pub revoked-others :
    (os : List Offer) (now : ℕ) (t : TripRef) (o : Offer)
    → Memᴰ o (update_where (live_of t none) (resolve OfferState.revoked now) os)
    → o.state ≡ OfferState.offered
    → (Memᴰ o os × (o.state ≡ OfferState.offered)) × (o.trip ≢ t)
revoked-others os now t o m live =
    let old = live-update (live_of t none) OfferState.revoked now os o (λ e. cc) m live in
    ((old.0, live), λ same. ground (arith, old.1, live, (same_trip_iff o.trip t).1 same))

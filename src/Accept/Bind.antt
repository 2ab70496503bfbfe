-- ===== src/Accept/Bind.antt =====
-- Steps 7 and 8 of an acceptance: for a claimable trip and a live offer they bind the driver, or
-- find the driver busy, and no error rolls them back.
use rcab.Base.{
  ℕ, ◌==◌, ◌&&◌, ◌≡◌, ◌≢◌, refl, sym, ap, ◌∙◌, Bool, true, false, some, List, ◌∷◌, ◌⊎◌, arith, inl,
  inr, is_id, Bool-cases, update_where, exists_where, exists_where-false, exists_where-none,
  exists_where-true, mem-update_where, Memᴰ, subst, select_where, map, ==_refl,
}
use rcab.Store.{
  TripRef, solo, shared, same_trip, same_trip_iff, OfferState, Ride, Pool, Offer, Guard, Db,
}
use rcab.Trips.Ledger.{claimable, bound, Live, Spent, is_over, Move, claim}
use rcab.Trips.View.{ledger, trip_state, IsSound, find_pool}
use rcab.Trips.Exclusive.{claimable-ne-bound}
use rcab.Offers.{is_offered, resolve, resolve_live, live_of, revoke_live_for_trip, RevokedOffer}
use rcab.Offers.Live.{live-update, revoked-spent}
use rcab.Guards.{
  commit, new_guard, acquire, has_driver, same_offer, claimable_row, claimed_ride, claimable_pool,
  claimed_pool,
}
use rcab.Guards.Claims.{
  claim_solo_row-total, claims_ride-bound, claims_ride-other, claim_shared_row-total,
  claims_pool-bound, claims_pool-other,
}
use rcab.Accept.{
  assigned, refuse, driver_busy, claim_row, is_accept_of, mark_accepted, bind_acquired, bind_trip,
}

-- The trip's row is at this generation, where its claim asks for it.
abbrev pub AtGeneration : Db → TripRef → ℕ → Type 0
AtGeneration db (solo id) g = Unit {0}
AtGeneration db (shared id) g =
    (p : Pool) → find_pool id db.pools ≡ some p → p.dispatch_generation ≡ g

abbrev pub claimed_rides : ℕ → TripRef → ℕ → ℕ → List Ride → List Ride
claimed_rides now (solo id) d g rides = update_where (claimable_row id) (claimed_ride now d g) rides
claimed_rides now (shared id) d g rides = rides

abbrev pub claimed_pools : ℕ → TripRef → ℕ → ℕ → List Pool → List Pool
claimed_pools now (solo id) d g pools = pools
claimed_pools now (shared id) d g pools =
    update_where (claimable_pool id g) (claimed_pool now d) pools

-- The tables after the claim of a trip's row.
abbrev pub claimed_db : Db → ℕ → TripRef → ℕ → ℕ → Db
claimed_db db now t d g = record db {
  rides = claimed_rides now t d g db.rides;
  pools = claimed_pools now t d g db.pools;
}

module _ (db : Db) (now d g : ℕ) where
  claim_row-total :
      (t : TripRef)
      → trip_state db t ≡ claimable
      → AtGeneration db t g
      → claim_row db now t d g ≡ commit (claimed_db db now t d g) tt
  unfolding claim_row
  claim_row-total (solo id) h at = rw ((claim_solo_row-total db now id d g h).1)
  claim_row-total (shared id) h at = claim_shared_row-total db now id d g h at

  pub claimed_db-bound :
      (t : TripRef)
      → trip_state db t ≡ claimable
      → AtGeneration db t g
      → trip_state (claimed_db db now t d g) t ≡ bound d
  claimed_db-bound (solo id) h at = claims_ride-bound db now id d g h
  claimed_db-bound (shared id) h at = claims_pool-bound db now id d g h at

  claimed_db-other :
      (t u : TripRef) → u ≢ t → trip_state (claimed_db db now t d g) u ≡ trip_state db u
  claimed_db-other (solo id) (solo k) other = claims_ride-other db now id d g (solo k) other
  claimed_db-other (solo id) (shared k) other = refl
  claimed_db-other (shared id) (solo k) other = refl
  claimed_db-other (shared id) (shared k) other = claims_pool-other db now id d g (shared k) other

abbrev pub accepts : ℕ → Offer → Bool
accepts id o = o.id == id && is_offered o.state

-- The tables after a whole acceptance of `o`.
abbrev pub bound_db : Db → ℕ → TripRef → Offer → Db
bound_db db now t o = record (claimed_db db now t o.driver_id o.generation) {
  guards = new_guard now o.driver_id t (some o.id) o.generation ∷ db.guards;
  offers =
      update_where (live_of t (some o.id)) (resolve OfferState.revoked now)
        (update_where (accepts o.id) (resolve OfferState.accepted now) db.offers);
}

module _ (db : Db) (now : ℕ) (t : TripRef) (o : Offer) where
  -- The offers that the acceptance revokes.
  abbrev pub beaten : List RevokedOffer
  beaten =
      map (λ x. record { offer_id = x.id; driver_id = x.driver_id })
        (select_where (live_of t (some o.id))
          (update_where (accepts o.id) (resolve OfferState.accepted now) db.offers))

module _ (db : Db) (now : ℕ) (t : TripRef) (o : Offer) (v : IsSound db) (live : Live o (ledger db))
    (waits : trip_state db t ≡ claimable) (at : AtGeneration db t o.generation) where
  abbrev guarded : Db
  guarded = record db { guards = new_guard now o.driver_id t (some o.id) o.generation ∷ db.guards }

  live_found : exists_where (accepts o.id) db.offers ≡ true
  live_found = elim (Bool-cases (exists_where (accepts o.id) db.offers)) [
    | inl hit ↦ hit
    | inr gone ↦
        let miss = exists_where-false (accepts o.id) db.offers o gone live.0 in
        absurd (ground (arith, miss, live.1, ==_refl o.id))
  ]

  -- No offer of a trip that waits for a driver was accepted.
  no_clash :
      exists_where
        (λ y. accepts o.id y && exists_where (is_accept_of y.trip y.generation) db.offers)
        db.offers
      ≡ false
  no_clash = exists_where-none _ db.offers λ y my. elim (Bool-cases (accepts o.id y)) [
    | inr miss ↦ rw miss refl
    | inl hit ↦ elim (Bool-cases (exists_where (is_accept_of y.trip y.generation) db.offers)) [
      | inr clear ↦ rw (hit, clear) refl
      | inl there ↦
          let (z, mz, taken) =
            exists_where-true (is_accept_of y.trip y.generation) db.offers there in
          let same : z.trip ≡ y.trip = (same_trip_iff z.trip y.trip).0 (ground (arith, taken)) in
          let over = v.accepted_over z (mz, ground (arith, taken)) in
          let free = v.live_claimable y (my, ground (arith, hit)) in
          absurd (ground (arith, ap is_over (ap (trip_state db) same ∙ free), over))
    ]
  ]

  bind_acquired-total :
      bind_acquired guarded now t o
      ≡ commit (bound_db db now t o) (assigned t o.generation false, beaten db now t o)
  unfolding bind_acquired mark_accepted resolve_live revoke_live_for_trip
  bind_acquired-total =
      rw (claim_row-total guarded now o.driver_id o.generation t waits at)
        (rw (no_clash, live_found) refl)

  -- The acceptance either refuses a busy driver, or commits `bound_db`.
  pub bind_trip-total :
      has_driver db o.driver_id ≡ true
      → (bind_trip db now t o ≡ refuse db driver_busy)
        ⊎ ((bind_trip db now t o
              ≡ commit (bound_db db now t o) (assigned t o.generation false, beaten db now t o))
            × ((h : Guard) → Memᴰ h db.guards → h.driver_id ≢ o.driver_id))
  unfolding bind_trip acquire
  bind_trip-total known =
      elim (Bool-cases (exists_where (λ h. h.driver_id == o.driver_id) db.guards)) [
        | inl busy ↦ inl (rw busy)
        | inr free ↦ inr (
          rw (free, no_trip, no_offer, known) bind_acquired-total,
          λ h mh same. ground (arith, exists_where-false _ db.guards h free mh, same),
        )
      ]
    where
      no_trip : exists_where (λ h. same_trip h.trip t) db.guards ≡ false
      no_trip = exists_where-none _ db.guards λ h mh. elim (Bool-cases (same_trip h.trip t)) [
        | inl same ↦ absurd (
            claimable-ne-bound (
              sym waits
              ∙ ap (trip_state db) (sym ((same_trip_iff h.trip t).0 same))
              ∙ v.guard_bound h mh))
        | inr other ↦ other
      ]

      no_offer : exists_where (same_offer (some o.id)) db.guards ≡ false
      no_offer = exists_where-none _ db.guards λ h mh. elim (Bool-cases (is_id h.offer_id o.id)) [
        | inl same ↦ absurd (v.offer_spent h o mh live (ground (arith, same)))
        | inr other ↦ other
      ]

  -- The committed tables are a claim of the ledger.
  pub bound_db-Move :
      ((h : Guard) → Memᴰ h db.guards → h.driver_id ≢ o.driver_id)
      → o.trip ≡ t
      → Move (ledger db) (ledger (bound_db db now t o))
  bound_db-Move free of_trip =
      claim (new_guard now o.driver_id t (some o.id) o.generation) waits free
        (claimed_db-bound db now o.driver_id o.generation t waits at)
        (claimed_db-other db now o.driver_id o.generation t) refl others spent
    where
      spent :
          (x : Offer) → Spent x (ledger (bound_db db now t o)) → Spent x (ledger db) ⊎ (x.trip ≡ t)
      spent x sp =
          let kept =
            revoked-spent (update_where (accepts o.id) (resolve OfferState.accepted now) db.offers)
              now t (some o.id) x sp in
          let (y, my, e) =
            mem-update_where (accepts o.id) (resolve OfferState.accepted now) db.offers kept.0 in
          elim (Bool-cases (accepts o.id y)) [
            | inr miss ↦
                let same : x ≡ y = rw miss at e in
                inl (subst (λ z. Memᴰ z db.offers) (sym same) my, sp.1)
            | inl hit ↦
                let moved : x ≡ resolve OfferState.accepted now y = rw hit at e in
                let it : y ≡ o =
                  v.one_live_id y o (my, ground (arith, hit)) live (ground (arith, hit)) in
                inr (ap (λ (z : Offer). z.trip) moved ∙ ap (λ (z : Offer). z.trip) it ∙ of_trip)
          ]

      others :
          (x : Offer)
          → Live x (ledger (bound_db db now t o))
          → Live x (ledger db) × (x.trip ≢ t) × (some o.id ≢ some x.id)
      others x lv =
          let kept =
            live-update (live_of t (some o.id)) OfferState.revoked now
              (update_where (accepts o.id) (resolve OfferState.accepted now) db.offers) x (λ e. cc)
              lv.0 lv.1 in
          let old =
            live-update (accepts o.id) OfferState.accepted now db.offers x (λ e. cc) kept.0 lv.1 in
          (
            (old.0, lv.1),
            λ same. ground (arith, kept.1, old.1, lv.1, (same_trip_iff x.trip t).1 same),
            λ same. ground (arith, old.1, lv.1, same),
          )

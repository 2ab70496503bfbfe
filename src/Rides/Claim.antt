-- ===== src/Rides/Claim.antt =====
-- An assignment without an offer: it is a claim of the ledger or leaves it as it is, and throws
-- only for a driver without a row.
use rcab.Base.{
  ℕ, ◌==◌, ◌&&◌, ◌≡◌, ◌⊎◌, refl, sym, ap, ◌∙◌, true, false, not, Option, none, some, ◌∷◌, inl, inr,
  arith, max, Bool-cases, Option-cases, is_some, exists_where, exists_where-false,
  exists_where-none, update_where,
}
use rcab.Store.{solo, same_trip, same_trip_iff, OfferState, Ride, Db}
use rcab.Trips.Ledger.{claimable, Move, claim}
use rcab.Trips.View.{ledger, find_ride, trip_state, IsSound}
use rcab.Trips.Exclusive.{claimable-ne-bound}
use rcab.Offers.{is_requested, resolve, live_of, revoke_live_for_trip}
use rcab.Offers.Live.{stay, revoked-spent}
use rcab.Guards.{
  Outcome, commit, abort, acquire, has_driver, new_guard, same_offer, claimable_row, claimed_ride,
}
use rcab.Guards.Claims.{claim_solo_row-total, claims_ride-bound, claims_ride-other}
use rcab.Rides.Row.{find-state, revoked-others}
use rcab.Rides.Create.{claim_requested, claim_solo}

module _ (db : Db) (now id d : ℕ) (v : IsSound db) where
  -- The tables after the assignment.
  abbrev assigned_db : ℕ → Db
  assigned_db g = record db {
    guards = new_guard now d (solo id) none g ∷ db.guards;
    rides = update_where (claimable_row id) (claimed_ride now d g) db.rides;
    offers = update_where (live_of (solo id) none) (resolve OfferState.revoked now) db.offers;
  }

  -- A claim throws, for a driver without a row, or commits a move of the ledger.
  abbrev Claims : Outcome (Option Ride) → Type 0
  Claims out =
      ((out ≡ abort) × (has_driver db d ≡ false))
      ⊎ ((db' : Db) × (row : Option Ride) × (out ≡ commit db' row) × Move (ledger db) (ledger db'))

  claim_requested-Claims :
      (g : ℕ) → trip_state db (solo id) ≡ claimable → Claims (claim_requested db now id d g)
  unfolding claim_requested acquire revoke_live_for_trip
  claim_requested-Claims g waits =
      elim (Bool-cases (exists_where (λ h. h.driver_id == d) db.guards)) [
        | inl busy ↦ inr (db, none, rw (busy, claim_requested) refl, stay (ledger db))
        | inr free ↦ elim (Bool-cases (has_driver db d)) [
          | inr unknown ↦ inl (rw (free, no_trip, no_offer, unknown, claim_requested) refl, unknown)
          | inl known ↦
              let guarded : Db = record db {
                guards = new_guard now d (solo id) none g ∷ db.guards;
              } in
              let (r, e) = claim_solo_row-total guarded now id d g waits in
              inr (
                assigned_db g,
                some r,
                rw (free, no_trip, no_offer, known, claim_requested) (rw e refl),
                claim (new_guard now d (solo id) none g) waits
                    (λ h mh same. ground (arith, exists_where-false _ db.guards h free mh, same))
                    (claims_ride-bound db now id d g waits) (claims_ride-other db now id d g) refl
                    (λ o lv.
                      let old = revoked-others db.offers now (solo id) o lv.0 lv.1 in
                      (old.0, old.1, λ e. cc))
                    (λ o sp. inl (revoked-spent db.offers now (solo id) none o sp)),
              )
        ]
      ]
    where
      no_trip : exists_where (λ h. same_trip h.trip (solo id)) db.guards ≡ false
      no_trip = exists_where-none _ db.guards λ h mh.
          elim (Bool-cases (same_trip h.trip (solo id))) [
            | inl same ↦ absurd (
                claimable-ne-bound (
                  sym waits
                  ∙ ap (trip_state db) (sym ((same_trip_iff h.trip (solo id)).0 same))
                  ∙ v.guard_bound h mh))
            | inr other ↦ other
          ]

      no_offer : exists_where (same_offer none) db.guards ≡ false
      no_offer = exists_where-none _ db.guards (λ h mh. refl)

  -- The whole transaction.
  pub claim_solo-Claims : Claims (claim_solo db now id d)
  unfolding claim_solo
  claim_solo-Claims = elim (Option-cases (find_ride id db.rides)) [
    | inl gone ↦ rw (gone, claim_solo) (inr (db, none, refl, stay (ledger db)))
    | inr (r, found) ↦
        rw (found, claim_solo)
          (elim (Bool-cases (is_requested r.status && not (is_some r.driver_id))) [
            | inr stale ↦ rw stale (inr (db, none, refl, stay (ledger db)))
            | inl waits ↦ rw waits (
                claim_requested-Claims (max r.dispatch_generation 1)
                  (find-state db id r found ∙ ground (arith, waits)))
          ])
  ]

  -- on sound tables a direct assignment of a ride to a driver who has a driver row commits, so its
  -- claim is never refused after the guard is taken, and what it commits is a move of the ledger.
  pub claim_solo-Move :
      has_driver db d ≡ true
      → (db' : Db) × (row : Option Ride) × (claim_solo db now id d ≡ commit db' row)
        × Move (ledger db) (ledger db')
  claim_solo-Move known = elim claim_solo-Claims [
    | inl (threw, unknown) ↦ absurd (ground (arith, known, unknown))
    | inr committed ↦ committed
  ]

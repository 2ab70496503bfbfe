-- ===== src/Timers/Moves.antt =====
-- Timers move the ledger by one move: a wake and a new window leave the trip what it is and take
-- offers back, and a hard failure closes it.
use rcab.Base.{
  ℕ, suc, ◌==◌, ◌&&◌, ◌≡◌, ◌≢◌, refl, sym, ap, subst, ◌∙◌, Bool, true, false, not, Option, none,
  some, inl, inr, Bool-cases, Option-cases, arith, exists_where, update_where, find_by-update_where,
  if◌then◌else◌, ltb,
}
use mathlib.Core.Option
use rcab.Store.{TripRef, TripRef-discrete, solo, shared, OfferState, Ride, Pool, Topic, Db}
use rcab.Trips.Ledger.{claimable, closed, is_over, Move, settle, arise, Ledger}
use rcab.Trips.View.{ledger, ride_key, find_ride, find_pool, of_ride, of_pool, trip_state, IsSound}
use rcab.Trips.PoolRows.{pool_update-at, pool_update-other}
use rcab.Trips.Exclusive.{claimable-ne-bound, closed-ne-bound, closed-ne-stray}
use rcab.Offers.{resolve, live_of, revoke_live_for_trip}
use rcab.Offers.Live.{stay, revoked-spent}
use rcab.Guards.{claimable_pool, aborted_pool, abort_unclaimed_pool, release_members}
use rcab.Rides.Row.{revoked-others}
use rcab.Rides.Ends.{enqueue-ledger, mark_no_driver-Move}
use rcab.Timers.{
  wakes, at_new_generation, wake_scheduled, rearmable, same_window, rearm_row, rearm_scheduled,
  or_current, abort_pool, is_scheduled_ride, hard_fail,
}

-- A new generation leaves a trip what it is to drivers.
regenerated :
    (db : Db) (c : Ride → Bool) (g : ℕ) (t : TripRef)
    → trip_state (record db { rides = update_where c (at_new_generation g) db.rides }) t
      ≡ trip_state db t
regenerated db c g (shared k) = refl
regenerated db c g (solo k) =
    ap of_ride (find_by-update_where ride_key c (at_new_generation g) (λ r. refl) k db.rides)
    ∙ mapped (find_ride k db.rides)
  where
    mapped :
        (o : Option Ride)
        → of_ride (Option.map (λ r. if c r then at_new_generation g r else r) o) ≡ of_ride o
    mapped none = refl
    mapped (some r) = elim (Bool-cases (c r)) [ inl hit ↦ rw hit refl | inr miss ↦ rw miss refl ]

-- The abort of the pools that still wait at a generation, with the trip's offers taken back.
module _ (db : Db) (now id g : ℕ) (v : IsSound db) where
  abbrev aborted_db : Db
  aborted_db = record db {
    pools = update_where (claimable_pool id g) aborted_pool db.pools;
    members = release_members id db.members;
    offers = update_where (live_of (shared id) none) (resolve OfferState.revoked now) db.offers;
  }

  others : (u : TripRef) → u ≢ shared id → trip_state aborted_db u ≡ trip_state db u
  others =
      pool_update-other db (claimable_pool id g) aborted_pool (λ p. refl) id
        (λ p h. ground (arith, h))

  at_id :
      (p : Pool)
      → find_pool id db.pools ≡ some p
      → trip_state aborted_db (shared id)
        ≡ of_pool (some (if claimable_pool id g p then aborted_pool p else p))
  at_id p e = pool_update-at db (claimable_pool id g) aborted_pool (λ p. refl) id (some p) e

  unchanged :
      trip_state aborted_db (shared id) ≡ trip_state db (shared id)
      → (t : TripRef) → trip_state aborted_db t ≡ trip_state db t
  unchanged e t = elim (TripRef-discrete t (shared id)) [
    | yes at ↦ rw at e
    | no other ↦ others t other
  ]

  aborted_db-Move :
      (p : Pool) → find_pool id db.pools ≡ some p → Move (ledger db) (ledger aborted_db)
  aborted_db-Move p found = elim (Bool-cases (claimable_pool id g p)) [
    | inl hit ↦
        let was : trip_state db (shared id) ≡ claimable = ap of_pool found ∙ waited hit in
        let over : trip_state aborted_db (shared id) ≡ closed = at_id p found ∙ gone hit in
        arise (shared id) (λ d h. claimable-ne-bound (sym was ∙ h)) (ap is_over was)
          (λ d h. closed-ne-bound (sym over ∙ h)) (λ d h. closed-ne-stray (sym over ∙ h)) others
          refl (λ o lv. revoked-others db.offers now (shared id) o lv.0 lv.1)
          (revoked-spent db.offers now (shared id) none)
    | inr miss ↦
        settle (unchanged (at_id p found ∙ kept miss ∙ sym (ap of_pool found))) refl
          (λ o lv. (revoked-others db.offers now (shared id) o lv.0 lv.1).0)
          (revoked-spent db.offers now (shared id) none)
  ]
    where
      waited : claimable_pool id g p ≡ true → of_pool (some p) ≡ claimable
      waited hit = ground (arith, hit)

      gone :
          claimable_pool id g p ≡ true
          → of_pool (some (if claimable_pool id g p then aborted_pool p else p)) ≡ closed
      gone hit = rw hit refl

      kept :
          claimable_pool id g p ≡ false
          → of_pool (some (if claimable_pool id g p then aborted_pool p else p)) ≡ of_pool (some p)
      kept miss = rw miss refl

module _ (db : Db) where
  pub wake_scheduled-Move : (id g : ℕ) → Move (ledger db) (ledger (wake_scheduled db id g).0)
  unfolding wake_scheduled
  wake_scheduled-Move id g = elim (Bool-cases (exists_where (wakes id g) db.rides)) [
    | inr gone ↦ rw gone (stay (ledger db))
    | inl woken ↦ rw woken (settle (regenerated db (wakes id g) g) refl (λ o lv. lv) (λ o sp. sp))
  ]

  rearm_row-Move : (now row : ℕ) (r : Ride) → Move (ledger db) (ledger (rearm_row db now row r).0)
  unfolding rearm_row revoke_live_for_trip
  rearm_row-Move now row r =
      let g = suc r.dispatch_generation in
      subst (λ (l : Ledger). Move (ledger db) l)
        (sym (enqueue-ledger _ now row Topic.ride_dispatch_requested r.id g none))
        (settle (regenerated db (same_window r.id r.dispatch_generation) g) refl
          (λ o lv. (revoked-others db.offers now (solo r.id) o lv.0 lv.1).0)
          (revoked-spent db.offers now (solo r.id) none))

  pub rearm_scheduled-Move :
      (now row id : ℕ) (expected : Option ℕ)
      → Move (ledger db) (ledger (rearm_scheduled db now row id expected).0)
  unfolding rearm_scheduled
  rearm_scheduled-Move now row id expected = elim (Option-cases (find_ride id db.rides)) [
    | inl gone ↦ rw (gone, rearm_scheduled) (stay (ledger db))
    | inr (r, found) ↦
        rw (found, rearm_scheduled)
          (elim (Bool-cases (rearmable expected r)) [
            | inr calm ↦ rw calm (stay (ledger db))
            | inl due ↦ rw due (rearm_row-Move now row r)
          ])
  ]

  abort_pool-Move :
      (now id : ℕ) (given : Option ℕ)
      → IsSound db
      → Move (ledger db) (ledger (abort_pool db now id given).0)
  unfolding abort_pool revoke_live_for_trip abort_unclaimed_pool
  abort_pool-Move now id given v = elim (Option-cases (find_pool id db.pools)) [
    | inl gone ↦ rw (gone, abort_pool) (stay (ledger db))
    | inr (p, found) ↦
        let g = or_current given p.dispatch_generation in
        rw (found, abort_pool)
          (elim (Bool-cases (g == p.dispatch_generation && not (ltb g 1))) [
            | inr old ↦ rw old (stay (ledger db))
            | inl current ↦
                rw current (elim (Bool-cases (exists_where (claimable_pool id g) db.pools)) [
                  | inr none_left ↦ rw none_left (stay (ledger db))
                  | inl waits ↦ rw waits (aborted_db-Move db now id g v p found)
                ])
          ])
  ]

  -- The hard failure of a dispatch.
  pub hard_fail-Move :
      (now row : ℕ) (t : TripRef) (g : Option ℕ)
      → IsSound db
      → Move (ledger db) (ledger (hard_fail db now row t g))
  unfolding hard_fail
  hard_fail-Move now row (shared id) g v = abort_pool-Move now id g v
  hard_fail-Move now row (solo id) g v =
      elim (Bool-cases (is_scheduled_ride (find_ride id db.rides))) [
        | inl planned ↦ rw planned (rearm_scheduled-Move now row id g)
        | inr soon ↦ rw soon (mark_no_driver-Move db now v id g)
      ]

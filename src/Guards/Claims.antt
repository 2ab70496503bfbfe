-- ===== src/Guards/Claims.antt =====
-- The claim of a trip's row, for a trip that waits for a driver: it succeeds, and only that trip
-- changes.
use rcab.Base.{
  ℕ, ◌≡◌, ◌≢◌, refl, ap, ◌∙◌, true, Option, none, some, arith, inl, inr, Option-cases, Bool-cases,
  find_where, update_where, exists_where, find_where-none, exists_where-false, find_by-key,
  find_by-mem, find_by-update_hit, find_by-update_other,
}
use rcab.Store.{TripRef, solo, shared, Ride, Pool, Db}
use rcab.Trips.Ledger.{claimable, bound}
use rcab.Trips.View.{ride_key, pool_key, find_ride, find_pool, of_ride, of_pool, trip_state}
use rcab.Offers.{is_requested, is_claimable}
use rcab.Guards.{
  commit, claimable_row, claimed_ride, claim_solo_row, claimable_pool, claimed_pool,
  claim_shared_row,
}

-- A ride that a driver can claim.
pub claimable_ride :
    (o : Option Ride)
    → of_ride o ≡ claimable
    → (r : Ride) × (o ≡ some r) × (is_requested r.status ≡ true) × (r.driver_id ≡ none)
claimable_ride none h = cc
claimable_ride (some r) h = (r, refl, ground arith, ground arith)

pub claimable_pool_row :
    (o : Option Pool)
    → of_pool o ≡ claimable
    → (p : Pool) × (o ≡ some p)
      × (is_claimable p.pool_state ≡ true)
      × (p.claimed_by_driver_id ≡ none)
claimable_pool_row none h = cc
claimable_pool_row (some p) h = (p, refl, ground arith, ground arith)

module _ (db : Db) (now id driver g : ℕ) where
  abbrev pub claims_ride : Db
  claims_ride = record db {
    rides = update_where (claimable_row id) (claimed_ride now driver g) db.rides;
  }

  pub claim_solo_row-total :
      trip_state db (solo id) ≡ claimable
      → (r : Ride) × (claim_solo_row db now id driver g ≡ commit claims_ride r)
  unfolding claim_solo_row
  claim_solo_row-total h =
      let (r, e, req, free) = claimable_ride (find_ride id db.rides) h in
      let key = find_by-key ride_key id db.rides r e in
      elim (Option-cases (find_where (claimable_row id) db.rides)) [
        | inl gone ↦
            let miss =
              find_where-none (claimable_row id) db.rides r gone
                (find_by-mem ride_key id db.rides r e) in
            absurd (ground (arith, miss, key, req, free))
        | inr (r', hit) ↦ (claimed_ride now driver g r', rw (hit, claim_solo_row))
      ]

  pub claims_ride-bound :
      trip_state db (solo id) ≡ claimable → trip_state claims_ride (solo id) ≡ bound driver
  claims_ride-bound h =
      let (r, e, req, free) = claimable_ride (find_ride id db.rides) h in
      ap of_ride (
        find_by-update_hit ride_key (claimable_row id) (claimed_ride now driver g) (λ x. refl) id
          db.rides r e (ground (arith, find_by-key ride_key id db.rides r e, req, free)))

  pub claims_ride-other : (u : TripRef) → u ≢ solo id → trip_state claims_ride u ≡ trip_state db u
  claims_ride-other (shared k) other = refl
  claims_ride-other (solo k) other = ap of_ride (
      find_by-update_other ride_key (claimable_row id) (claimed_ride now driver g) (λ x. refl) id k
        db.rides (λ x h. ground arith) (λ e. other (ap solo e)))

  abbrev pub claims_pool : Db
  claims_pool = record db {
    pools = update_where (claimable_pool id g) (claimed_pool now driver) db.pools;
  }

  module _ (h : trip_state db (shared id) ≡ claimable)
      (at : (p : Pool) → find_pool id db.pools ≡ some p → p.dispatch_generation ≡ g) where
    pub claim_shared_row-total : claim_shared_row db now id driver g ≡ commit claims_pool tt
    unfolding claim_shared_row
    claim_shared_row-total =
        let (p, e, req, free) = claimable_pool_row (find_pool id db.pools) h in
        elim (Bool-cases (exists_where (claimable_pool id g) db.pools)) [
          | inl hit ↦ rw hit
          | inr gone ↦
              let miss =
                exists_where-false (claimable_pool id g) db.pools p gone
                  (find_by-mem pool_key id db.pools p e) in
              absurd (ground (arith, miss, find_by-key pool_key id db.pools p e, req, free, at p e))
        ]

    pub claims_pool-bound : trip_state claims_pool (shared id) ≡ bound driver
    claims_pool-bound =
        let (p, e, req, free) = claimable_pool_row (find_pool id db.pools) h in
        ap of_pool (
          find_by-update_hit pool_key (claimable_pool id g) (claimed_pool now driver) (λ x. refl) id
            db.pools p e (ground (arith, find_by-key pool_key id db.pools p e, req, free, at p e)))
        ∙ ground (arith, req)

  pub claims_pool-other : (u : TripRef) → u ≢ shared id → trip_state claims_pool u ≡ trip_state db u
  claims_pool-other (solo k) other = refl
  claims_pool-other (shared k) other = ap of_pool (
      find_by-update_other pool_key (claimable_pool id g) (claimed_pool now driver) (λ x. refl) id k
        db.pools (λ x h. ground arith) (λ e. other (ap shared e)))

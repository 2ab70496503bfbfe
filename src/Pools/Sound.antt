-- ===== src/Pools/Sound.antt =====
-- The transactions on pools keep drivers and trips exclusive: a pool that is open has no driver and
-- no offers, and when it closes it waits for one.
use rcab.Base.{
  ℕ, ◌==◌, ◌≡◌, ◌≢◌, refl, sym, ap, ◌∙◌, Bool, true, false, Option, none, some, ◌∷◌, inl, inr,
  arith, Bool-cases, Option-cases, if◌then◌else◌, ==_iff, ==_refl, find_by, find_where,
  update_where,
}
use mathlib.Core.Option
use rcab.Store.{TripRef, TripRef-discrete, solo, shared, PoolState, Pool, Db}
use rcab.Trips.Ledger.{absent, gathering, is_over, bound, stray, Move, settle, arise}
use rcab.Trips.View.{ledger, find_pool, pool_state, of_pool, trip_state, IsSound}
use rcab.Trips.Exclusive.{Move-IsExclusive, closed-ne-bound, closed-ne-stray}
use rcab.Trips.PoolRows.{with_pools, pool_update-at, pool_update-other, pool_update-alike}
use rcab.Offers.{is_claimable}
use rcab.Pools.{is_opened, with_seat}
use rcab.Pools.Lifecycle.{OpenPool, opened_pool, open_row, closed_pool, empty_row, aborted_open}
use rcab.Pools.Kept.{IsKept}
use rcab.Rides.Row.{ended-offerless}

gathering-ne-bound : {d : ℕ} → gathering ≡ bound d → ⊥
gathering-ne-bound h = cc

-- An update of open pools with one id, which takes them out of the open state.
module _ (db : Db) (v : IsSound db) (id : ℕ) (c : Pool → Bool) (f : Pool → Pool)
    (same : (p : Pool) → (f p).ride_id ≡ p.ride_id)
    (here : (p : Pool) → c p ≡ true → (p.ride_id ≡ id) × (is_opened p.pool_state ≡ true))
    (ends : (p : Pool)
      → p.claimed_by_driver_id ≡ none
      → ((d : ℕ) → pool_state (f p).pool_state (f p).claimed_by_driver_id ≢ bound d)
        × ((d : ℕ) → pool_state (f p).pool_state (f p).claimed_by_driver_id ≢ stray d)) where
  abbrev after_end : Db
  after_end = with_pools db (update_where c f db.pools)

  others : (u : TripRef) → u ≢ shared id → trip_state after_end u ≡ trip_state db u
  others = pool_update-other db c f same id (λ p h. (here p h).0)

  at_id :
      (o : Option Pool)
      → find_pool id db.pools ≡ o
      → trip_state after_end (shared id) ≡ of_pool (Option.map (λ p. if c p then f p else p) o)
  at_id o e = pool_update-at db c f same id o e

  unchanged :
      trip_state after_end (shared id) ≡ trip_state db (shared id)
      → (t : TripRef) → trip_state after_end t ≡ trip_state db t
  unchanged e t = elim (TripRef-discrete t (shared id)) [
    | yes at ↦ rw at e
    | no other ↦ others t other
  ]

  -- The pool is open, so no driver has it.
  unclaimed :
      (p : Pool)
      → find_pool id db.pools ≡ some p
      → is_opened p.pool_state ≡ true
      → p.claimed_by_driver_id ≡ none
  unclaimed p found ready = elim (Option-cases p.claimed_by_driver_id) [
    | inl free ↦ free
    | inr (d, taken) ↦
        absurd (v.no_stray (shared id) d (ap of_pool found ∙ ground (arith, ready, taken)))
  ]

  gathers :
      (p : Pool)
      → find_pool id db.pools ≡ some p
      → is_opened p.pool_state ≡ true
      → trip_state db (shared id) ≡ gathering
  gathers p found ready = ap of_pool found ∙ ground (arith, ready, unclaimed p found ready)

  ended-Move :
      (p : Pool) → find_pool id db.pools ≡ some p → c p ≡ true → Move (ledger db) (ledger after_end)
  ended-Move p found hit =
      let ready = (here p hit).1 in
      let was = gathers p found ready in
      let now : trip_state after_end (shared id)
          ≡ pool_state (f p).pool_state (f p).claimed_by_driver_id =
        at_id (some p) found ∙ rw hit refl in
      let over = ends p (unclaimed p found ready) in
      arise (shared id) (λ d h. gathering-ne-bound (sym was ∙ h)) (ap is_over was)
        (λ d h. over.0 d (sym now ∙ h)) (λ d h. over.1 d (sym now ∙ h)) others refl
        (λ o lv. (lv, ended-offerless db v (shared id) gathering was (λ h. cc) o lv)) (λ o sp. sp)

  ends-Move : Move (ledger db) (ledger after_end)
  ends-Move = elim (Option-cases (find_pool id db.pools)) [
    | inl gone ↦
        settle (unchanged (at_id none gone ∙ sym (ap of_pool gone))) refl (λ o lv. lv) (λ o sp. sp)
    | inr (p, found) ↦ elim (Bool-cases (c p)) [
      | inl hit ↦ ended-Move p found hit
      | inr miss ↦
          settle (unchanged (at_id (some p) found ∙ kept p miss ∙ sym (ap of_pool found))) refl
            (λ o lv. lv) (λ o sp. sp)
    ]
  ]
    where
      kept : (p : Pool) → c p ≡ false → of_pool (some (if c p then f p else p)) ≡ of_pool (some p)
      kept p miss = rw miss refl

open_row-here :
    (id : ℕ) (p : Pool) → open_row id p ≡ true → (p.ride_id ≡ id) × (is_opened p.pool_state ≡ true)
open_row-here id p h = ground arith

empty_row-here :
    (id : ℕ) (p : Pool) → empty_row id p ≡ true → (p.ride_id ≡ id) × (is_opened p.pool_state ≡ true)
empty_row-here id p h = ground arith

closed_pool-ends :
    (now : ℕ) (reason : PoolState) (p : Pool)
    → is_claimable reason ≡ true
    → p.claimed_by_driver_id ≡ none
    → ((d : ℕ) → pool_state reason p.claimed_by_driver_id ≢ bound d)
      × ((d : ℕ) → pool_state reason p.claimed_by_driver_id ≢ stray d)
closed_pool-ends now reason p dispatches free =
    (λ d h. ground (arith, dispatches, free, h), λ d h. ground (arith, dispatches, free, h))

opened_pool-Move :
    (db : Db) (now : ℕ) (o : OpenPool)
    → IsSound db
    → find_pool o.ride_id db.pools ≡ none
    → Move (ledger db) (ledger (with_pools db (opened_pool now o ∷ db.pools)))
unfolding find_by find_where
opened_pool-Move db now o v new =
    arise (shared o.ride_id) (λ d h. ground (arith, new, h)) (ap (λ p. is_over (of_pool p)) new)
      (λ d h. gathering-ne-bound (sym fresh ∙ h)) (λ d h. gathering-ne-stray (sym fresh ∙ h)) others
      refl
      (λ x lv. (lv, ended-offerless db v (shared o.ride_id) absent (ap of_pool new) (λ h. cc) x lv))
      (λ o sp. sp)
  where
    gathering-ne-stray : {d : ℕ} → gathering ≡ stray d → ⊥
    gathering-ne-stray h = cc

    fresh : trip_state (with_pools db (opened_pool now o ∷ db.pools)) (shared o.ride_id) ≡ gathering
    fresh = rw (==_refl o.ride_id) refl

    others :
        (u : TripRef)
        → u ≢ shared o.ride_id
        → trip_state (with_pools db (opened_pool now o ∷ db.pools)) u ≡ trip_state db u
    others (solo k) other = refl
    others (shared k) other = elim (Bool-cases (o.ride_id == k)) [
      | inl e ↦ absurd (other (ap shared (sym ((==_iff o.ride_id k).0 e))))
      | inr e ↦ rw e refl
    ]

-- Drivers and trips stay exclusive under the writes of the pools' transactions.
pub IsSound-IsKept : IsKept IsSound
IsSound-IsKept = record {
  outbox = λ db rows v. v;
  stops = λ db rows v. v;
  seats = λ db now n p v found ready room free.
      Move-IsExclusive
        (settle
          (pool_update-alike db (λ q. q.ride_id == n.pool_id) with_seat (λ q. refl) (λ q h. refl))
          refl (λ o lv. lv) (λ o sp. sp))
        v;
  opens = λ db now o v new. Move-IsExclusive (opened_pool-Move db now o v new) v;
  closes = λ db now id reason v dispatches.
      Move-IsExclusive
        (ends-Move db v id (open_row id) (closed_pool now reason) (λ p. refl) (open_row-here id)
          (λ p free. closed_pool-ends now reason p dispatches free))
        v;
  aborts = λ db now id v.
      Move-IsExclusive
        (ends-Move db v id (empty_row id) (aborted_open now) (λ p. refl) (empty_row-here id)
          (λ p free. (λ d h. closed-ne-bound h, λ d h. closed-ne-stray h)))
        v;
}

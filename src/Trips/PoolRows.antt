-- ===== src/Trips/PoolRows.antt =====
-- What an update of the pools' table does to the trips that it holds.
use mathlib.Core.Option
use rcab.Base.{
  ℕ, ◌≡◌, ◌≢◌, refl, ap, ◌∙◌, Bool, true, Option, none, some, List, inl, inr, if◌then◌else◌,
  Bool-cases, update_where, find_by-update_where, find_by-update_other,
}
use rcab.Store.{TripRef, solo, shared, Pool, Db}
use rcab.Trips.View.{pool_key, find_pool, pool_state, of_pool, trip_state}

abbrev pub with_pools : Db → List Pool → Db
with_pools db pools = record db { pools = pools }

module _ (db : Db) (c : Pool → Bool) (f : Pool → Pool)
    (same : (p : Pool) → (f p).ride_id ≡ p.ride_id) where
  -- The trip of the id whose pool is known.
  pub pool_update-at :
      (id : ℕ) (o : Option Pool)
      → find_pool id db.pools ≡ o
      → trip_state (with_pools db (update_where c f db.pools)) (shared id)
        ≡ of_pool (Option.map (λ p. if c p then f p else p) o)
  pool_update-at id o e = ap of_pool (
      find_by-update_where pool_key c f same id db.pools
      ∙ ap (Option.map (λ p. if c p then f p else p)) e)

  -- The other trips.
  pub pool_update-other :
      (id : ℕ)
      → ((p : Pool) → c p ≡ true → p.ride_id ≡ id)
      → (u : TripRef) → u ≢ shared id
      → trip_state (with_pools db (update_where c f db.pools)) u ≡ trip_state db u
  pool_update-other id here (solo k) other = refl
  pool_update-other id here (shared k) other =
      ap of_pool
        (find_by-update_other pool_key c f same id k db.pools here (λ e. other (ap shared e)))

  -- An update that leaves each pool what it is to drivers.
  pub pool_update-alike :
      ((p : Pool)
        → c p ≡ true
        → pool_state (f p).pool_state (f p).claimed_by_driver_id
          ≡ pool_state p.pool_state p.claimed_by_driver_id)
      → (t : TripRef) → trip_state (with_pools db (update_where c f db.pools)) t ≡ trip_state db t
  pool_update-alike keeps (solo k) = refl
  pool_update-alike keeps (shared k) =
      pool_update-at k (find_pool k db.pools) refl ∙ mapped (find_pool k db.pools)
    where
      mapped : (o : Option Pool) → of_pool (Option.map (λ p. if c p then f p else p) o) ≡ of_pool o
      mapped none = refl
      mapped (some p) = elim (Bool-cases (c p)) [
        | inl hit ↦ rw hit (keeps p hit)
        | inr miss ↦ rw miss refl
      ]

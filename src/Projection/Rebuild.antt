-- ===== src/Projection/Rebuild.antt =====
-- A rebuild of the projection brings every pool that runs up to its row.
use rcab.Base.{
  ℕ, ◌≡◌, refl, sym, subst, ◌∙◌, false, Option, some, List, [], ◌∷◌, Memᴰ, map-mem,
  select_where-mem, inl, inr, Bool-cases, Option-cases, ◌==◌, ==_iff, ==_refl, find_by-key,
  find_by-mem,
}
use rcab.Store.{Pool, Db}
use rcab.Trips.View.{find_pool, pool_key}
use rcab.Realtime.{is_terminal_pool}
use rcab.Projection.{
  PoolHash, project_pool_eval, write_pool, project, list_non_terminal_ids, project_each,
  rebuild_all,
}
use rcab.Projection.Behind.{Shows, IsBehind, AreBehind, IsHashOf-IsBehind, project_pool_eval-Shows}

module _ (db : Db) (now : ℕ) (p : Pool) (found : find_pool p.ride_id db.pools ≡ some p) where
  Shows-AreBehind : (o : Option PoolHash) → Shows p o → AreBehind p o
  Shows-AreBehind o (g, e, s) h e' =
      let same : some g ≡ some h = sym e ∙ e' in
      subst (IsBehind p) (inner same) (IsHashOf-IsBehind p g s)
    where
      inner : {g h : PoolHash} → some g ≡ some h → g ≡ h
      inner e = cc

  -- The hash of the pool after the projection of an id.
  project-own :
      (redis : ℕ → Option PoolHash)
      → (project db redis now p.ride_id).0 p.ride_id ≡ (project_pool_eval (redis p.ride_id) now p).0
  unfolding project write_pool
  project-own redis = rw (found, project) (rw (==_refl p.ride_id) refl)

  project-other :
      (redis : ℕ → Option PoolHash) (id : ℕ)
      → (p.ride_id == id) ≡ false
      → (project db redis now id).0 p.ride_id ≡ redis p.ride_id
  unfolding project write_pool
  project-other redis id miss = elim (Option-cases (find_pool id db.pools)) [
    | inl gone ↦ rw (gone, project) refl
    | inr (q, e) ↦
        let key : q.ride_id ≡ id = find_by-key pool_key id db.pools q e in
        rw (e, project) (rw (key, miss) refl)
  ]

  project-AreBehind :
      (redis : ℕ → Option PoolHash) (id : ℕ)
      → AreBehind p (redis p.ride_id)
      → AreBehind p ((project db redis now id).0 p.ride_id)
  project-AreBehind redis id b = elim (Bool-cases (p.ride_id == id)) [
    | inl same ↦
        let e : p.ride_id ≡ id = (==_iff p.ride_id id).0 same in
        subst (λ k. AreBehind p ((project db redis now k).0 p.ride_id)) e
          (rw (project-own redis)
            (Shows-AreBehind _ (project_pool_eval-Shows p (redis p.ride_id) now b)))
    | inr miss ↦ rw (project-other redis id miss) b
  ]

  project-Shows :
      (redis : ℕ → Option PoolHash) (id : ℕ)
      → Shows p (redis p.ride_id)
      → Shows p ((project db redis now id).0 p.ride_id)
  project-Shows redis id s = elim (Bool-cases (p.ride_id == id)) [
    | inl same ↦
        let e : p.ride_id ≡ id = (==_iff p.ride_id id).0 same in
        subst (λ k. Shows p ((project db redis now k).0 p.ride_id)) e
          (rw (project-own redis)
            (project_pool_eval-Shows p (redis p.ride_id) now (Shows-AreBehind _ s)))
    | inr miss ↦ rw (project-other redis id miss) s
  ]

  project_each-Shows :
      (ids : List ℕ) (redis : ℕ → Option PoolHash)
      → Shows p (redis p.ride_id)
      → Shows p ((project_each db redis now ids).0 p.ride_id)
  unfolding project_each
  project_each-Shows [] redis s = s
  project_each-Shows (id ∷ ids) redis s =
      project_each-Shows ids (project db redis now id).0 (project-Shows redis id s)

  project_each-reaches :
      (ids : List ℕ) (redis : ℕ → Option PoolHash)
      → Memᴰ p.ride_id ids
      → AreBehind p (redis p.ride_id)
      → Shows p ((project_each db redis now ids).0 p.ride_id)
  unfolding project_each
  project_each-reaches [] redis m b = elim m [ ]
  project_each-reaches (id ∷ ids) redis (Memᴰ.tail m) b =
      project_each-reaches ids (project db redis now id).0 m (project-AreBehind redis id b)
  project_each-reaches (id ∷ ids) redis (Memᴰ.head e) b =
      project_each-Shows ids (project db redis now id).0 (
        subst (λ k. Shows p ((project db redis now k).0 p.ride_id)) e
          (rw (project-own redis) (project_pool_eval-Shows p (redis p.ride_id) now b)))

  -- a rebuild brings the hash of every pool that has not ended up to its row, whatever older state
  -- or loss of data Redis had.
  pub rebuild_all-Shows :
      (redis : ℕ → Option PoolHash)
      → is_terminal_pool p.pool_state ≡ false
      → AreBehind p (redis p.ride_id)
      → Shows p ((rebuild_all db redis now).0 p.ride_id)
  unfolding rebuild_all list_non_terminal_ids
  rebuild_all-Shows redis runs b =
      project_each-reaches (list_non_terminal_ids db) redis
        (map-mem (λ p. p.ride_id) _
          (select_where-mem _ db.pools (find_by-mem pool_key p.ride_id db.pools p found)
            (rw runs refl)))
        b

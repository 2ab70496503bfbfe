-- ===== src/Reconciler/Passes.antt =====
-- A whole pass: what each of its steps restored is there at the end.
use rcab.Base.{
  ℕ, suc, ◌≢◌, sym, subst, Bool, false, none, List, [], ◌∷◌, Memᴰ, inl, inr, take, select_where,
}
use rcab.Store.{TripRef, solo, shared, Ride, Pool, Topic}
use rcab.Rides.Create.{is_scheduled}
use rcab.Reconciler.{
  scheduled_wake, legacy_wake, pool_expire, legacy_pool_expire, Pass, Windows, reconcile_unwoken,
  reconcile_open_pool, reconcile_solo, reconcile_closed_pool, reconcile_all, unwoken_step,
  solo_step, open_pools_step, closed_pools_step, pass, max_per_pass, is_unwoken, is_gathering,
  is_closed_unclaimed, is_dispatching, topic_of,
}
use rcab.Reconciler.Growth.{Grows, Grows-refl, Grows-trans}
use rcab.Reconciler.Restores.{
  HasWork, HasWork-Grows, unwoken-Grows, unwoken-HasWork, open_pool-Grows, open_pool-HasWork,
}
use rcab.Reconciler.Dispatching.{dispatching-Grows, dispatching-GoesOn, GoesOn, dispatch_jobs}

module _ {A : Type 0} (f : Pass → A → Pass) (grows : (s : Pass) (x : A) → Grows s (f s x)) where
  all-Grows : (s : Pass) (xs : List A) → Grows s (reconcile_all f s xs)
  unfolding reconcile_all
  all-Grows s [] = Grows-refl s
  all-Grows s (x ∷ xs) = Grows-trans s (f s x) _ (grows s x) (all-Grows (f s x) xs)

  -- What a row needs, and keeps once it has it.
  module _ (W : Pass → A → Type 0)
      (keeps : (s s' : Pass) (x : A) → Grows s s' → W s x → W s' x) where
    all-reaches :
        (s : Pass) (xs : List A) (x : A)
        → Memᴰ x xs
        → ((s : Pass) → W (f s x) x)
        → W (reconcile_all f s xs) x
    unfolding reconcile_all
    all-reaches s [] x m makes = elim m [ ]
    all-reaches s (y ∷ xs) x (Memᴰ.tail m) makes = all-reaches (f s y) xs x m makes
    all-reaches s (y ∷ xs) x (Memᴰ.head e) makes =
        keeps (f s y) _ x (all-Grows (f s y) xs) (subst (λ z. W (f s z) x) e (makes s))

abbrev pub HasWake : Pass → Ride → Type 0
HasWake s r =
    HasWork s (scheduled_wake r.id 1 ∷ legacy_wake r.id ∷ []) Topic.ride_wake_schedule r.id 1

abbrev pub HasExpiry : Pass → Pool → Type 0
HasExpiry s p =
    HasWork s (pool_expire p.ride_id ∷ legacy_pool_expire p.ride_id ∷ []) Topic.pool_expire_schedule
      p.ride_id 0

abbrev pub HasDispatch : Pass → Pool → Type 0
HasDispatch s p = GoesOn s (shared p.ride_id) p.dispatch_generation

HasWake-Grows : (s s' : Pass) (r : Ride) → Grows s s' → HasWake s r → HasWake s' r
HasWake-Grows s s' r f w =
    HasWork-Grows s s' (scheduled_wake r.id 1 ∷ legacy_wake r.id ∷ []) Topic.ride_wake_schedule r.id
      1 f w

HasExpiry-Grows : (s s' : Pass) (p : Pool) → Grows s s' → HasExpiry s p → HasExpiry s' p
HasExpiry-Grows s s' p f w =
    HasWork-Grows s s' (pool_expire p.ride_id ∷ legacy_pool_expire p.ride_id ∷ [])
      Topic.pool_expire_schedule p.ride_id 0 f w

HasDispatch-Grows : (s s' : Pass) (p : Pool) → Grows s s' → HasDispatch s p → HasDispatch s' p
HasDispatch-Grows s s' p f (inl w) = inl (
    HasWork-Grows s s' (dispatch_jobs (shared p.ride_id) p.dispatch_generation)
      (topic_of (shared p.ride_id)) p.ride_id p.dispatch_generation f w)
HasDispatch-Grows s s' p f (inr i) =
    inr (f.pending Topic.ride_dispatch_requested p.ride_id (suc p.dispatch_generation) i)

-- The rows that a pass looks at.
abbrev pub looked_at : {A : Type 0} → (A → Bool) → List A → List A
looked_at p xs = take max_per_pass (select_where p xs)

module _ (new_id : Topic → ℕ → ℕ → ℕ) (now : ℕ) (w : Windows) (updated : TripRef → ℕ) where
  solo-Grows : (s : Pass) (r : Ride) → Grows s (reconcile_solo new_id now w updated s r)
  unfolding reconcile_solo
  solo-Grows s r =
      dispatching-Grows new_id now w s (solo r.id) r.dispatch_generation (is_scheduled r.type)
        (updated (solo r.id))

  closed_pool-Grows :
      (s : Pass) (p : Pool) → Grows s (reconcile_closed_pool new_id now w updated s p)
  unfolding reconcile_closed_pool
  closed_pool-Grows s p =
      dispatching-Grows new_id now w s (shared p.ride_id) p.dispatch_generation false now

  closed_pool-HasDispatch :
      (s : Pass) (p : Pool) → HasDispatch (reconcile_closed_pool new_id now w updated s p) p
  unfolding reconcile_closed_pool
  closed_pool-HasDispatch s p =
      dispatching-GoesOn new_id now w s (shared p.ride_id) p.dispatch_generation false now (λ e. cc)

  unwoken_step-Grows : (s : Pass) → Grows s (unwoken_step new_id now w updated s)
  unfolding unwoken_step
  unwoken_step-Grows s =
      all-Grows (reconcile_unwoken new_id now) (unwoken-Grows new_id now) s
        (looked_at (is_unwoken new_id now) s.db.rides)

  solo_step-Grows : (s : Pass) → Grows s (solo_step new_id now w updated s)
  unfolding solo_step
  solo_step-Grows s =
      all-Grows (reconcile_solo new_id now w updated) solo-Grows s
        (looked_at (is_dispatching new_id now w updated) s.db.rides)

  open_pools_step-Grows : (s : Pass) → Grows s (open_pools_step new_id now w updated s)
  unfolding open_pools_step
  open_pools_step-Grows s =
      all-Grows (reconcile_open_pool new_id now w.pool_timeout_ms)
        (open_pool-Grows new_id now w.pool_timeout_ms) s
        (looked_at (is_gathering new_id now w updated) s.db.pools)

  closed_pools_step-Grows : (s : Pass) → Grows s (closed_pools_step new_id now w updated s)
  unfolding closed_pools_step
  closed_pools_step-Grows s =
      all-Grows (reconcile_closed_pool new_id now w updated) closed_pool-Grows s
        (looked_at (is_closed_unclaimed new_id now w updated) s.db.pools)

  pub record IsRestored (s s' : Pass) : Type 0 where
    pub wakes :
        (r : Ride)
        → Memᴰ r (looked_at (is_unwoken new_id now) s.db.rides)
        → r.scheduled_for ≢ none
        → HasWake s' r
    pub expiries :
        (p : Pool)
        → Memᴰ p (looked_at (is_gathering new_id now w updated) s.db.pools)
        → HasExpiry s' p
    pub dispatches :
        (p : Pool)
        → Memᴰ p (looked_at (is_closed_unclaimed new_id now w updated) s.db.pools)
        → HasDispatch s' p

  -- after a pass, whatever was lost of queues and outbox, of the rows that it looks at, which are
  -- the first 500 of each kind and, for pools, those not written for 15 seconds: each scheduled
  -- ride with a time that was not woken has a wake job that will run or a pending intent of one,
  -- each open pool has its expiry so, and each closed pool that nobody took has a job that carries
  -- its dispatch on, or a pending intent.
  pub pass-IsRestored : (s : Pass) → IsRestored s (pass new_id now w updated s)
  unfolding pass unwoken_step open_pools_step closed_pools_step
  pass-IsRestored s =
      let s1 = unwoken_step new_id now w updated s in
      let s2 = solo_step new_id now w updated s1 in
      let s3 = open_pools_step new_id now w updated s2 in
      let s4 = closed_pools_step new_id now w updated s3 in
      let to2 = Grows-trans s s1 s2 (unwoken_step-Grows s) (solo_step-Grows s1) in
      let to3 = Grows-trans s s2 s3 to2 (open_pools_step-Grows s2) in
      let from3 = closed_pools_step-Grows s3 in
      let from2 = Grows-trans s2 s3 s4 (open_pools_step-Grows s2) from3 in
      let from1 = Grows-trans s1 s2 s4 (solo_step-Grows s1) from2 in
      record {
        wakes = λ r m timed. HasWake-Grows s1 s4 r from1 (
            all-reaches (reconcile_unwoken new_id now) (unwoken-Grows new_id now) HasWake
              HasWake-Grows s (looked_at (is_unwoken new_id now) s.db.rides) r m
              (λ s. unwoken-HasWork new_id now s r timed));
        expiries = λ p m. HasExpiry-Grows s3 s4 p from3 (
            all-reaches (reconcile_open_pool new_id now w.pool_timeout_ms)
              (open_pool-Grows new_id now w.pool_timeout_ms) HasExpiry HasExpiry-Grows s2
              (looked_at (is_gathering new_id now w updated) s2.db.pools) p
              (subst (λ ps. Memᴰ p (looked_at (is_gathering new_id now w updated) ps))
                (sym to2.pools) m)
              (λ s. open_pool-HasWork new_id now w.pool_timeout_ms s p));
        dispatches = λ p m.
            all-reaches (reconcile_closed_pool new_id now w updated) closed_pool-Grows HasDispatch
              HasDispatch-Grows s3
              (looked_at (is_closed_unclaimed new_id now w updated) s3.db.pools) p
              (subst (λ ps. Memᴰ p (looked_at (is_closed_unclaimed new_id now w updated) ps))
                (sym to3.pools) m)
              (λ s. closed_pool-HasDispatch s p);
      }

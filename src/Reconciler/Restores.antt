-- ===== src/Reconciler/Restores.antt =====
-- What a pass restores: the work of each trip that it looks at.
use rcab.Base.{
  ℕ, ◌≡◌, ◌≢◌, refl, true, none, some, List, [], ◌∷◌, Memᴰ, ◌⊎◌, inl, inr, Bool-cases, Option-cases,
}
use rcab.Store.{Ride, Pool, Topic}
use rcab.Outbox.Intents.{PendingIntent}
use rcab.Reconciler.{
  JobId, scheduled_wake, legacy_wake, pool_expire, legacy_pool_expire, is_live, has_live_job, Pass,
  reconcile_unwoken, reconcile_open_pool, planned_end,
}
use rcab.Reconciler.Growth.{
  Grows, Grows-refl, remove_finished-live, rearm_or_enqueue-pending, rearm_or_enqueue-keeps,
  rearm_or_enqueue-pools,
}

-- One of the jobs will run.
pub record HasJob (s : Pass) (ids : List JobId) : Type 0 where
  pub id : JobId
  pub here : Memᴰ id ids
  pub live : is_live (s.queues id) ≡ true

-- A job will run, or an intent waits for the relay.
abbrev pub HasWork : Pass → List JobId → Topic → ℕ → ℕ → Type 0
HasWork s ids t a g = HasJob s ids ⊎ PendingIntent s.db t a g

pub live_job-HasJob :
    (s : Pass) (ids : List JobId) → has_live_job s.queues ids ≡ true → HasJob s ids
unfolding has_live_job
live_job-HasJob s [] e = cc
live_job-HasJob s (id ∷ ids) e = elim (Bool-cases (is_live (s.queues id))) [
  | inl live ↦ record { id = id; here = Memᴰ.head refl; live = live }
  | inr over ↦
      let j = live_job-HasJob s ids (rw over at e) in
      record { id = j.id; here = Memᴰ.tail j.here; live = j.live }
]

pub HasWork-Grows :
    (s s' : Pass) (ids : List JobId) (t : Topic) (a g : ℕ)
    → Grows s s'
    → HasWork s ids t a g
    → HasWork s' ids t a g
HasWork-Grows s s' ids t a g f (inl j) =
    inl (record { id = j.id; here = j.here; live = f.live j.id j.live })
HasWork-Grows s s' ids t a g f (inr p) = inr (f.pending t a g p)

module _ (new_id : Topic → ℕ → ℕ → ℕ) (now : ℕ) where
  pub unwoken-Grows : (s : Pass) (r : Ride) → Grows s (reconcile_unwoken new_id now s r)
  unfolding reconcile_unwoken
  unwoken-Grows s r = elim (Option-cases r.scheduled_for) [
    | inl never ↦ rw (never, reconcile_unwoken) (Grows-refl s)
    | inr (at, e) ↦
        rw (e, reconcile_unwoken)
          (elim (Bool-cases
            (has_live_job s.queues (scheduled_wake r.id 1 ∷ legacy_wake r.id ∷ []))) [
              | inl live ↦ rw live (Grows-refl s)
              | inr lost ↦ rw lost (record {
                live = λ id l. remove_finished-live s.queues (scheduled_wake r.id 1) id l;
                pending = λ t a g p.
                    rearm_or_enqueue-keeps new_id now s.db Topic.ride_wake_schedule r.id 1 (some at)
                      t a g p;
                pools =
                    rearm_or_enqueue-pools new_id now s.db Topic.ride_wake_schedule r.id 1
                      (some at);
              })
            ])
  ]

  pub unwoken-HasWork :
      (s : Pass) (r : Ride)
      → r.scheduled_for ≢ none
      → HasWork
          (reconcile_unwoken new_id now s r)
          (scheduled_wake r.id 1 ∷ legacy_wake r.id ∷ [])
          Topic.ride_wake_schedule
          r.id
          1
  unfolding reconcile_unwoken
  unwoken-HasWork s r timed = elim (Option-cases r.scheduled_for) [
    | inl never ↦ absurd (timed never)
    | inr (at, e) ↦
        rw (e, reconcile_unwoken)
          (elim (Bool-cases
            (has_live_job s.queues (scheduled_wake r.id 1 ∷ legacy_wake r.id ∷ []))) [
              | inl live ↦ rw live (inl (live_job-HasJob s _ live))
              | inr lost ↦ rw lost (
                  inr (
                    rearm_or_enqueue-pending new_id now s.db Topic.ride_wake_schedule r.id 1
                      (some at)))
            ])
  ]

  pub open_pool-Grows :
      (timeout : ℕ) (s : Pass) (p : Pool) → Grows s (reconcile_open_pool new_id now timeout s p)
  unfolding reconcile_open_pool
  open_pool-Grows timeout s p =
      elim (Bool-cases
        (has_live_job s.queues (pool_expire p.ride_id ∷ legacy_pool_expire p.ride_id ∷ []))) [
          | inl live ↦ rw live (Grows-refl s)
          | inr lost ↦ rw lost (record {
            live = λ id l. remove_finished-live s.queues (pool_expire p.ride_id) id l;
            pending = λ t a g i.
                rearm_or_enqueue-keeps new_id now s.db Topic.pool_expire_schedule p.ride_id 0
                  (some (planned_end timeout p.pool_opened_at p.pool_closed_at)) t a g i;
            pools =
                rearm_or_enqueue-pools new_id now s.db Topic.pool_expire_schedule p.ride_id 0
                  (some (planned_end timeout p.pool_opened_at p.pool_closed_at));
          })
        ]

  pub open_pool-HasWork :
      (timeout : ℕ) (s : Pass) (p : Pool)
      → HasWork
          (reconcile_open_pool new_id now timeout s p)
          (pool_expire p.ride_id ∷ legacy_pool_expire p.ride_id ∷ [])
          Topic.pool_expire_schedule
          p.ride_id
          0
  unfolding reconcile_open_pool
  open_pool-HasWork timeout s p =
      elim (Bool-cases
        (has_live_job s.queues (pool_expire p.ride_id ∷ legacy_pool_expire p.ride_id ∷ []))) [
          | inl live ↦ rw live (inl (live_job-HasJob s _ live))
          | inr lost ↦ rw lost (
              inr (
                rearm_or_enqueue-pending new_id now s.db Topic.pool_expire_schedule p.ride_id 0
                  (some (planned_end timeout p.pool_opened_at p.pool_closed_at))))
        ]

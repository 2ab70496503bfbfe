-- ===== src/Reconciler/Growth.antt =====
-- A pass loses no work: a job that will run stays in its queue, and an intent that is pending stays so.
use rcab.Base.{
  ℕ, ◌≡◌, refl, sym, subst, ◌∙◌, not, ◌&&◌, true, false, Option, Memᴰ, inl, inr, Bool-cases,
  Option-cases, ==_refl, arith, is_some, if◌then◌else◌, exists_where, exists_where-none,
  update_where, update_where-mem_if,
}
use rcab.Store.{Topic, OutboxRow, Db}
use rcab.Outbox.{topic_code, is_intent, is_pending, new_row, enqueue, rearm, rearmed}
use rcab.Outbox.Intents.{PendingIntent, rearm-pending}
use rcab.Reconciler.{
  JobId, dispatch_start, hard_fail_of, wave2_of, scheduled_wake, legacy_hard_fail, legacy_wave2,
  legacy_wake, pool_expire, legacy_pool_expire, same_job, is_live, Queues, remove_finished, add_job,
  Pass, rearm_or_enqueue,
}

pub record Grows (s s' : Pass) : Type 0 where
  pub live : (id : JobId) → is_live (s.queues id) ≡ true → is_live (s'.queues id) ≡ true
  pub pending : (t : Topic) (a g : ℕ) → PendingIntent s.db t a g → PendingIntent s'.db t a g
  pub pools : s'.db.pools ≡ s.db.pools

pub Grows-refl : (s : Pass) → Grows s s
Grows-refl s = record { live = λ id e. e; pending = λ t a g p. p; pools = refl }

pub Grows-trans : (a b c : Pass) → Grows a b → Grows b c → Grows a c
Grows-trans a b c f h = record {
  live = λ id e. h.live id (f.live id e);
  pending = λ t x g p. h.pending t x g (f.pending t x g p);
  pools = h.pools ∙ f.pools;
}

same_job-eq : (i j : JobId) → same_job i j ≡ true → i ≡ j
same_job-eq i j h = ground arith

pub remove_finished-live :
    (q : Queues) (id k : JobId) → is_live (q k) ≡ true → is_live (remove_finished q id k) ≡ true
unfolding remove_finished
remove_finished-live q id k live = elim (Bool-cases (is_live (q id))) [
  | inl held ↦ rw held live
  | inr over ↦ rw over (elim (Bool-cases (same_job k id)) [
    | inr other ↦ rw other live
    | inl same ↦
        let e : k ≡ id = same_job-eq k id same in
        absurd (ground (arith, over, subst (λ i. is_live (q i) ≡ true) e live))
  ])
]

pub add_job-live :
    (q : Queues) (id k : JobId) (due_at : ℕ)
    → is_live (q k) ≡ true
    → is_live (add_job q id due_at k) ≡ true
unfolding add_job
add_job-live q id k due_at live = elim (Bool-cases (is_some (q id))) [
  | inl held ↦ rw held live
  | inr free ↦
      rw free
        (elim (Bool-cases (same_job k id)) [ inr other ↦ rw other live | inl same ↦ rw same refl ])
]

same_job_refl : (i : JobId) → same_job i i ≡ true
same_job_refl (dispatch_start a g) = ground arith
same_job_refl (hard_fail_of a g) = ground arith
same_job_refl (wave2_of a g) = ground arith
same_job_refl (scheduled_wake a g) = ground arith
same_job_refl (legacy_hard_fail a) = ground arith
same_job_refl (legacy_wave2 a) = ground arith
same_job_refl (legacy_wake a) = ground arith
same_job_refl (pool_expire a) = ground arith
same_job_refl (legacy_pool_expire a) = ground arith

-- A job that was removed where it had ended, and added, will run.
pub restored-live :
    (q : Queues) (id : JobId) (due_at : ℕ)
    → is_live (add_job (remove_finished q id) id due_at id) ≡ true
unfolding add_job remove_finished
restored-live q id due_at = elim (Bool-cases (is_live (q id))) [
  | inl held ↦ rw held (elim (Option-cases (q id)) [
    | inl none_there ↦ absurd (ground (arith, held, none_there))
    | inr (j, e) ↦ let there : is_some (q id) ≡ true = rw e refl in rw there held
  ])
  | inr over ↦ rw over (rw (same_job_refl id) (rw (same_job_refl id) refl))
]

pub enqueue-pools :
    (db : Db) (now row : ℕ) (t : Topic) (a g : ℕ) (at : Option ℕ)
    → (enqueue db now row t a g at).pools ≡ db.pools
unfolding enqueue
enqueue-pools db now row t a g at = elim (Bool-cases (exists_where (is_intent t a g) db.outbox)) [
  | inl there ↦ rw there refl
  | inr new ↦ rw new refl
]

module _ (db : Db) (now : ℕ) where
  pub enqueue-keeps :
      (row : ℕ) (t' : Topic) (a' g' : ℕ) (at : Option ℕ) (t : Topic) (a g : ℕ)
      → PendingIntent db t a g
      → PendingIntent (enqueue db now row t' a' g' at) t a g
  unfolding enqueue
  enqueue-keeps row t' a' g' at t a g (r, m, i, p) =
      elim (Bool-cases (exists_where (is_intent t' a' g') db.outbox)) [
        | inl there ↦ rw there (r, m, i, p)
        | inr new ↦ rw new (r, Memᴰ.tail m, i, p)
      ]

  rearm-keeps :
      (t' : Topic) (a' g' : ℕ) (t : Topic) (a g : ℕ)
      → PendingIntent db t a g
      → PendingIntent (rearm db now t' a' g').0 t a g
  unfolding rearm
  rearm-keeps t' a' g' t a g (r, m, i, p) =
      elim (Bool-cases (exists_where (λ r. is_intent t' a' g' r && not (is_pending r)) db.outbox)) [
        | inr calm ↦ rw calm (r, m, i, p)
        | inl hit ↦
            let waits = λ (x : OutboxRow). is_intent t' a' g' x && not (is_pending x) in
            let miss : waits r ≡ false = ground (arith, p) in
            rw hit (
              r,
              subst
                  (λ b.
                    Memᴰ (if b then rearmed now r else r)
                      (update_where waits (rearmed now) db.outbox))
                  miss (update_where-mem_if waits (rearmed now) db.outbox m),
              i,
              p,
            )
      ]

-- Once an intent is re-armed, or written where there was none, it is pending.
module _ (new_id : Topic → ℕ → ℕ → ℕ) (now : ℕ) (db : Db) where
  rearm-pools : (t : Topic) (a g : ℕ) → (rearm db now t a g).0.pools ≡ db.pools
  unfolding rearm
  rearm-pools t a g =
      elim (Bool-cases (exists_where (λ r. is_intent t a g r && not (is_pending r)) db.outbox)) [
        | inl hit ↦ rw hit refl
        | inr calm ↦ rw calm refl
      ]

  rearm-missing :
      (t : Topic) (a g : ℕ) → (rearm db now t a g).1 ≡ false → (rearm db now t a g).0 ≡ db
  unfolding rearm
  rearm-missing t a g e =
      elim (Bool-cases (exists_where (λ r. is_intent t a g r && not (is_pending r)) db.outbox)) [
        | inl hit ↦ absurd (ground (arith, rw hit at e))
        | inr calm ↦ rw calm refl
      ]

  pub enqueue-new :
      (t : Topic) (a g : ℕ) (at : Option ℕ)
      → ((r : OutboxRow) → Memᴰ r db.outbox → is_intent t a g r ≡ false)
      → PendingIntent (enqueue db now (new_id t a g) t a g at) t a g
  unfolding enqueue
  enqueue-new t a g at free =
      let none_yet = exists_where-none (is_intent t a g) db.outbox free in
      rw none_yet (
        new_row now (new_id t a g) t a g at,
        Memᴰ.head refl,
        ground (arith, ==_refl (topic_code t), ==_refl a, ==_refl g),
        refl,
      )

  pub rearm_or_enqueue-pending :
      (t : Topic) (a g : ℕ) (at : Option ℕ)
      → PendingIntent (rearm_or_enqueue new_id now db t a g at) t a g
  unfolding rearm_or_enqueue
  rearm_or_enqueue-pending t a g at = elim (rearm-pending db now t a g) [
    | inl (found, waits) ↦ rw found waits
    | inr (missing, free) ↦ rw missing (
        subst (λ d. PendingIntent (enqueue d now (new_id t a g) t a g at) t a g)
          (sym (rearm-missing t a g missing)) (enqueue-new t a g at free))
  ]

  pub rearm_or_enqueue-pools :
      (t : Topic) (a g : ℕ) (at : Option ℕ)
      → (rearm_or_enqueue new_id now db t a g at).pools ≡ db.pools
  unfolding rearm_or_enqueue
  rearm_or_enqueue-pools t a g at = elim (Bool-cases (rearm db now t a g).1) [
    | inl there ↦ rw there (rearm-pools t a g)
    | inr new ↦
        rw new
          (enqueue-pools (rearm db now t a g).0 now (new_id t a g) t a g at ∙ rearm-pools t a g)
  ]

  pub rearm_or_enqueue-keeps :
      (t' : Topic) (a' g' : ℕ) (at : Option ℕ) (t : Topic) (a g : ℕ)
      → PendingIntent db t a g
      → PendingIntent (rearm_or_enqueue new_id now db t' a' g' at) t a g
  unfolding rearm_or_enqueue
  rearm_or_enqueue-keeps t' a' g' at t a g p = elim (Bool-cases (rearm db now t' a' g').1) [
    | inl there ↦ rw there (rearm-keeps db now t' a' g' t a g p)
    | inr new ↦ rw new (
        enqueue-keeps (rearm db now t' a' g').0 now (new_id t' a' g') t' a' g' at t a g
          (rearm-keeps db now t' a' g' t a g p))
  ]

-- ===== src/Pools/Closing.antt =====
-- How the guarded update that closes a pool ends.
use rcab.Base.{
  ℕ, suc, ◌≡◌, refl, none, some, ◌⊎◌, inl, inr, true, false, Option-cases, Bool-cases, find_where,
  update_where, exists_where,
}
use rcab.Store.{PoolState, Pool, Db}
use rcab.Guards.{Outcome, commit, abort, release_members}
use rcab.Pools.Lifecycle.{
  open_row, closed_pool, close_open, empty_row, aborted_open, abort_empty_open,
}

pub Outcome-cases :
    {A : Type 0} (o : Outcome A) → (o ≡ abort) ⊎ ((db : Db) × (a : A) × (o ≡ commit db a))
Outcome-cases abort = inl refl
Outcome-cases (commit db a) = inr (db, a, refl)

module _ (db : Db) (now id : ℕ) where
  abbrev pub closed_db : PoolState → Db
  closed_db reason = record db {
    pools = update_where (open_row id) (closed_pool now reason) db.pools;
  }

  pub close_open-cases :
      (reason : PoolState)
      → ((find_where (open_row id) db.pools ≡ none) × (close_open db now id reason ≡ (db, none)))
        ⊎ ((p : Pool) × (find_where (open_row id) db.pools ≡ some p)
            × (close_open db now id reason ≡ (closed_db reason, some (suc p.dispatch_generation))))
  unfolding close_open
  close_open-cases reason = elim (Option-cases (find_where (open_row id) db.pools)) [
    | inl gone ↦ inl (gone, rw (gone, close_open) refl)
    | inr (p, found) ↦ inr (p, found, rw (found, close_open) refl)
  ]

  abbrev pub aborted_db : Db
  aborted_db = record db {
    pools = update_where (empty_row id) (aborted_open now) db.pools;
    members = release_members id db.members;
  }

  pub abort_empty_open-cases :
      ((exists_where (empty_row id) db.pools ≡ false) × (abort_empty_open db now id ≡ (db, false)))
      ⊎ ((exists_where (empty_row id) db.pools ≡ true)
          × (abort_empty_open db now id ≡ (aborted_db, true)))
  unfolding abort_empty_open
  abort_empty_open-cases = elim (Bool-cases (exists_where (empty_row id) db.pools)) [
    | inl hit ↦ inr (hit, rw hit refl)
    | inr miss ↦ inl (miss, rw miss refl)
  ]

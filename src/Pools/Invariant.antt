-- ===== src/Pools/Invariant.antt =====
-- Whatever passengers and timers do to the pools, in any order: no pool has more members than seats,
-- the seat count is the number of members, and a passenger has one active seat.
use rcab.Base.{
  ℕ, ◌==◌, ◌≡◌, ◌≢◌, ◌≤◌, refl, sym, ap, if◌then◌else◌, ◌∙◌, Option, none, some, List, [], ◌∷◌, inl,
  inr, arith, Bool-cases, select_where, find_by, find_where, ==_iff, Memᴰ,
}
use rcab.Store.{Point, PoolState, Pool, PoolMember, Db}
use rcab.Trips.View.{find_pool}
use rcab.Pools.Lifecycle.{OpenPool, opened_pool}
use rcab.Pools.Joins.{QuoteRequest}
use rcab.Pools.Capacity.{
  IsFilled, Filled, members_of, KeepsSeats, seat_db-IsFilled, pools-IsFilled, released-IsFilled,
}
use rcab.Pools.Kept.{IsKept}
use rcab.Pools.Runs.{PoolRun, PoolRun-kept}
use rcab.Pools.Lifecycle.{open_row, closed_pool, empty_row, aborted_open}

no_members :
    (id : ℕ) (ms : List PoolMember)
    → ((m : PoolMember) → Memᴰ m ms → m.pool_id ≢ id)
    → members_of id ms ≡ 0
unfolding select_where
no_members id [] none_of = refl
no_members id (m ∷ ms) none_of = elim (Bool-cases (m.pool_id == id)) [
  | inl hit ↦ absurd (none_of m (Memᴰ.head refl) ((==_iff m.pool_id id).0 hit))
  | inr miss ↦ rw miss (no_members id ms (λ k mk. none_of k (Memᴰ.tail mk)))
]

find_pool-cons :
    (id : ℕ) (p : Pool) (ps : List Pool)
    → find_pool id (p ∷ ps) ≡ (if p.ride_id == id then some p else find_pool id ps)
unfolding find_by find_where
find_pool-cons id p ps = refl

-- A new pool, under a new id.
opened_pool-IsFilled :
    (now : ℕ) (o : OpenPool) (pools : List Pool) (ms : List PoolMember)
    → find_pool o.ride_id pools ≡ none
    → IsFilled pools ms
    → IsFilled (opened_pool now o ∷ pools) ms
opened_pool-IsFilled now o pools ms new v = record {
  counted = λ id p e. (bounds id p e).0;
  fits = λ id p e. (bounds id p e).1;
  housed = λ m mm gone. v.housed m mm (earlier m gone);
  lone = v.lone;
}
  where
    earlier :
        (m : PoolMember)
        → find_pool m.pool_id (opened_pool now o ∷ pools) ≡ none
        → find_pool m.pool_id pools ≡ none
    earlier m e = elim (Bool-cases (o.ride_id == m.pool_id)) [
      | inl same ↦
          absurd
            (found_none (rw same at (sym (find_pool-cons m.pool_id (opened_pool now o) pools) ∙ e)))
      | inr other ↦ rw other at (sym (find_pool-cons m.pool_id (opened_pool now o) pools) ∙ e)
    ]
      where
        found_none : some (opened_pool now o) ≡ none → ⊥
        found_none h = cc

    empty : members_of o.ride_id ms ≡ 0
    empty = no_members o.ride_id ms (λ m mm same. v.housed m mm (rw same new))

    fresh :
        (id : ℕ) (p : Pool)
        → o.ride_id ≡ id
        → some (opened_pool now o) ≡ some p
        → (p.seat_count ≡ members_of id ms) × (p.seat_count ≤ p.max_seats)
    fresh id p at e =
        let it : p ≡ opened_pool now o = cc in
        (ap (λ (z : Pool). z.seat_count) it ∙ sym (rw at at empty), rw it (ground arith))

    bounds :
        (id : ℕ) (p : Pool)
        → find_pool id (opened_pool now o ∷ pools) ≡ some p
        → (p.seat_count ≡ members_of id ms) × (p.seat_count ≤ p.max_seats)
    bounds id p e = elim (Bool-cases (o.ride_id == id)) [
      | inl same ↦
          let it : some (opened_pool now o) ≡ some p =
            rw same at (sym (find_pool-cons id (opened_pool now o) pools) ∙ e) in
          fresh id p ((==_iff o.ride_id id).0 same) it
      | inr other ↦
          let old : find_pool id pools ≡ some p =
            rw other at (sym (find_pool-cons id (opened_pool now o) pools) ∙ e) in
          (v.counted id p old, v.fits id p old)
    ]

closed-KeepsSeats : (now : ℕ) (reason : PoolState) → KeepsSeats (closed_pool now reason)
closed-KeepsSeats now reason = record {
  same_id = λ p. refl;
  same_count = λ p. refl;
  same_max = λ p. refl;
}

aborted-KeepsSeats : (now : ℕ) → KeepsSeats (aborted_open now)
aborted-KeepsSeats now = record {
  same_id = λ p. refl;
  same_count = λ p. refl;
  same_max = λ p. refl;
}

Filled-IsKept : IsKept Filled
Filled-IsKept = record {
  outbox = λ db rows v. v;
  stops = λ db rows v. v;
  seats = λ db now n p v found ready room free. seat_db-IsFilled db v now n p found room free;
  opens = λ db now o v new. opened_pool-IsFilled now o db.pools db.members new v;
  closes = λ db now id reason v ends.
      pools-IsFilled (open_row id) (closed_pool now reason) (closed-KeepsSeats now reason) db.pools
        db.members v;
  aborts = λ db now id v. released-IsFilled id _ db.members (
      pools-IsFilled (empty_row id) (aborted_open now) (aborted-KeepsSeats now) db.pools db.members
        v);
}

-- any sequence of pool openings, joins and timer expiries keeps this: the seat count of a pool is
-- the number of its members and at most its seats, every member has its pool, and a passenger has
-- one active seat at most.
pub PoolRun-IsFilled :
    {distance : Point → Point → ℕ} {quote : QuoteRequest → Option ℕ} {db db' : Db}
    → PoolRun distance quote db db'
    → Filled db
    → Filled db'
PoolRun-IsFilled run v = PoolRun-kept Filled Filled-IsKept run v

-- ===== src/Pools/Runs.antt =====
-- Runs of the transactions on pools: passengers open and join them, and timers expire.
use rcab.Base.{ℕ, ◌+◌, refl, Option, some, inl, inr, Bool-cases, Option-cases, leb, not}
use rcab.Store.{Point, PoolState, Pool, Topic, Db}
use rcab.Trips.View.{find_pool}
use rcab.Guards.{after}
use rcab.Pools.{seated, unseated, is_opened, insert_member}
use rcab.Pools.Lifecycle.{OpenPool, insert_open_pool, close_in_txn, close_if_open}
use rcab.Pools.Joins.{
  QuoteRequest, Passenger, member_of, opener, is_rejection, join_request, close_when_full,
  take_seat, join_pool, open_request, seat_opener, open_pool,
}
use rcab.Pools.Closing.{Outcome-cases}
use rcab.Pools.Kept.{
  IsKept, enqueue-kept, insert_member-kept, close_in_txn-kept, close_if_open-kept,
}

module _ (P : Db → Type 0) (k : IsKept P) (distance : Point → Point → ℕ)
    (quote : QuoteRequest → Option ℕ) (db : Db) (now row : ℕ) (v : P db) where
  close_when_full-kept :
      (db1 : Db) (p : Pool) (seats : ℕ)
      → P db1
      → P (after db (close_when_full distance quote db1 now row p seats))
  unfolding close_when_full
  close_when_full-kept db1 p seats w = elim (Bool-cases (leb p.max_seats seats)) [
    | inr room ↦ rw (room, close_when_full) w
    | inl full ↦
        let closing =
          close_in_txn-kept P k db v distance now row db1 p PoolState.closed_full refl w in
        rw (full, close_when_full)
          (elim (Outcome-cases (close_in_txn distance db1 now row p PoolState.closed_full)) [
            | inl stopped ↦ rw (stopped, close_when_full) v
            | inr (db2, g, done) ↦ rw (done, close_when_full) (rw done at closing)
          ])
  ]

  take_seat-kept :
      (p : Pool) (j : Passenger) (fare : ℕ)
      → P (after db (take_seat distance quote db now row p j fare))
  unfolding take_seat
  take_seat-kept p j fare =
      let seating = insert_member-kept P k db now (member_of p.ride_id j fare) v in
      elim (Outcome-cases (insert_member db now (member_of p.ride_id j fare))) [
        | inl stopped ↦ rw (stopped, take_seat) v
        | inr (db1, unseated reason existing, done) ↦ rw (done, take_seat) (rw done at seating)
        | inr (db1, seated seats, done) ↦
            rw (done, take_seat) (close_when_full-kept db1 p seats (rw done at seating))
      ]

  -- A passenger joins, or is refused.
  join_pool-kept :
      (id : ℕ) (j : Passenger) → P (after db (join_pool distance quote db now row id j))
  unfolding join_pool
  join_pool-kept id j = elim (Option-cases (find_pool id db.pools)) [
    | inl gone ↦ rw (gone, join_pool) v
    | inr (p, found) ↦
        rw (found, join_pool)
          (elim (Bool-cases (not (is_opened p.pool_state))) [
            | inl shut ↦ rw (shut, join_pool) v
            | inr ready ↦
                rw (ready, join_pool)
                  (elim (Bool-cases (leb p.max_seats p.seat_count)) [
                    | inl full ↦ rw (full, join_pool) v
                    | inr room ↦
                        rw (room, join_pool)
                          (elim (Option-cases (quote (join_request distance quote db now p j))) [
                            | inl gone ↦ rw (gone, join_pool) v
                            | inr (fare, priced) ↦ rw (priced, join_pool) (take_seat-kept p j fare)
                          ])
                  ])
          ])
  ]

  seat_opener-kept :
      (db1 : Db) (o : OpenPool) (j : Passenger) (fare closes_at : ℕ)
      → P db1
      → P (after db (seat_opener distance quote db db1 now row o j fare closes_at))
  unfolding seat_opener
  seat_opener-kept db1 o j fare closes_at w =
      let seating = insert_member-kept P k db1 now (member_of o.ride_id (opener o j) fare) w in
      elim (Outcome-cases (insert_member db1 now (member_of o.ride_id (opener o j) fare))) [
        | inl stopped ↦ rw (stopped, seat_opener) v
        | inr (db2, unseated reason existing, done) ↦
            rw (done, seat_opener)
              (elim (Bool-cases (is_rejection reason)) [
                | inl typed ↦ rw typed v
                | inr bug ↦ rw bug v
              ])
        | inr (db2, seated seats, done) ↦
            rw (done, seat_opener)
              (enqueue-kept P k db2 now row Topic.pool_expire_schedule o.ride_id 0 (some closes_at)
                (rw done at seating))
      ]

  -- A passenger opens a pool, or is rejected.
  open_pool-kept :
      (o : OpenPool) (j : Passenger) → P (after db (open_pool distance quote db now row o j))
  unfolding open_pool insert_open_pool
  open_pool-kept o j = elim (Option-cases (find_pool o.ride_id db.pools)) [
    | inr (p, taken) ↦ rw (taken, open_pool, insert_open_pool) v
    | inl new ↦
        rw (new, open_pool, insert_open_pool)
          (elim (Option-cases (quote (open_request distance quote now o j))) [
            | inl gone ↦ rw (gone, open_pool) v
            | inr (fare, priced) ↦
                rw (priced, open_pool)
                  (seat_opener-kept _ o j fare (now + o.timeout_ms) (k.opens db now o v new))
          ])
  ]

-- What happens to pools: passengers open and join them, and their timers expire.
pub data PoolStep (distance : Point → Point → ℕ) (quote : QuoteRequest → Option ℕ) (db : Db)
    : Db → Type 0 where
  pool_opened :
      (now row : ℕ) (o : OpenPool) (j : Passenger)
      → PoolStep distance quote db (after db (open_pool distance quote db now row o j))
  pool_joined :
      (now row id : ℕ) (j : Passenger)
      → PoolStep distance quote db (after db (join_pool distance quote db now row id j))
  pool_expired :
      (now row id : ℕ)
      → PoolStep distance quote db (after db (close_if_open distance db now row id))

pub data PoolRun (distance : Point → Point → ℕ) (quote : QuoteRequest → Option ℕ) (db : Db)
    : Db → Type 0 where
  no_steps : PoolRun distance quote db db
  and_then :
      {mid last : Db}
      → PoolRun distance quote db mid
      → PoolStep distance quote mid last
      → PoolRun distance quote db last

pub PoolStep-kept :
    (P : Db → Type 0) (k : IsKept P) {distance : Point → Point → ℕ}
    {quote : QuoteRequest → Option ℕ} {db db' : Db}
    → PoolStep distance quote db db'
    → P db
    → P db'
PoolStep-kept P k {distance} {quote} {db} (pool_opened now row o j) v =
    open_pool-kept P k distance quote db now row v o j
PoolStep-kept P k {distance} {quote} {db} (pool_joined now row id j) v =
    join_pool-kept P k distance quote db now row v id j
PoolStep-kept P k {distance} {quote} {db} (pool_expired now row id) v =
    close_if_open-kept P k distance db now row id v

-- A run of such transactions.
pub PoolRun-kept :
    (P : Db → Type 0) (k : IsKept P) {distance : Point → Point → ℕ}
    {quote : QuoteRequest → Option ℕ} {db db' : Db}
    → PoolRun distance quote db db'
    → P db
    → P db'
PoolRun-kept P k no_steps v = v
PoolRun-kept P k (and_then run step) v = PoolStep-kept P k step (PoolRun-kept P k run v)

-- ===== src/Pools/Kept.antt =====
-- What a transaction on a pool comes to: a property that its writes keep is kept by the whole
-- transaction, on every way through it.
use rcab.Base.{
  ℕ, suc, ◌==◌, ◌≡◌, refl, if◌then◌else◌, Bool, true, false, Option, none, some, List, [], ◌∷◌, inl,
  inr, arith, ◌≤◌, Bool-cases, Option-cases, leb, not, exists_where,
}
use rcab.Store.{Point, PoolState, Pool, Topic, OutboxRow, RideStop, Db}
use rcab.Trips.View.{find_pool}
use rcab.Guards.{commit, abort, after}
use rcab.Outbox.{enqueue, is_intent}
use rcab.Offers.{is_claimable}
use rcab.Itinerary.{OfferStop, compute_stops}
use rcab.Pools.{
  NewMember, is_opened, violated, member_one_active, clashes, insert_into, insert_member,
  is_storable, list_members, seat_db,
}
use rcab.Pools.Lifecycle.{
  insert_itinerary, record_closure, close_in_txn, close_if_open, OpenPool, opened_pool,
}
use rcab.Pools.Closing.{
  Outcome-cases, close_open-cases, abort_empty_open-cases, closed_db, aborted_db,
}

-- The writes that transactions on pools are made of keep a property of the tables.
pub record IsKept (P : Db → Type 0) : Type 0 where
  pub outbox : (db : Db) (rows : List OutboxRow) → P db → P (record db { outbox = rows })
  pub stops : (db : Db) (rows : List RideStop) → P db → P (record db { stops = rows })
  pub seats :
      (db : Db) (now : ℕ) (n : NewMember) (p : Pool)
      → P db
      → find_pool n.pool_id db.pools ≡ some p
      → is_opened p.pool_state ≡ true
      → suc p.seat_count ≤ p.max_seats
      → exists_where (clashes member_one_active n) db.members ≡ false
      → P (seat_db db now n)
  pub opens :
      (db : Db) (now : ℕ) (o : OpenPool)
      → P db
      → find_pool o.ride_id db.pools ≡ none
      → P (record db { pools = opened_pool now o ∷ db.pools })
  pub closes :
      (db : Db) (now id : ℕ) (reason : PoolState)
      → P db
      → is_claimable reason ≡ true
      → P (closed_db db now id reason)
  pub aborts : (db : Db) (now id : ℕ) → P db → P (aborted_db db now id)

-- No clash with any constraint is no clash with the one on active seats.
violated-active :
    (db : Db) (n : NewMember)
    → violated db n ≡ none
    → exists_where (clashes member_one_active n) db.members ≡ false
unfolding violated
violated-active db n h = ground arith

module _ (P : Db → Type 0) (k : IsKept P) (db : Db) (now : ℕ) (n : NewMember) (v : P db) where
  insert_into-kept :
      (p : Pool) → find_pool n.pool_id db.pools ≡ some p → P (after db (insert_into db now n p))
  unfolding insert_into
  insert_into-kept p found = elim (Bool-cases (is_opened p.pool_state)) [
    | inr shut ↦ rw (shut, insert_into) v
    | inl ready ↦
        rw (ready, insert_into)
          (elim (Option-cases (violated db n)) [
            | inr (c, e) ↦ rw (e, insert_into) v
            | inl free ↦
                rw (free, insert_into)
                  (elim (Bool-cases (leb (suc p.seat_count) p.max_seats)) [
                    | inr full ↦ rw full v
                    | inl room ↦ rw room (
                        k.seats db now n p v found ready (ground (arith, room))
                          (violated-active db n free))
                  ])
          ])
  ]

  pub insert_member-kept : P (after db (insert_member db now n))
  unfolding insert_member
  insert_member-kept = elim (Bool-cases (is_storable n.agreed_fare_cents)) [
    | inr large ↦ rw (large, insert_member) v
    | inl small ↦
        rw (small, insert_member)
          (elim (Option-cases (find_pool n.pool_id db.pools)) [
            | inl gone ↦ rw (gone, insert_member) v
            | inr (p, found) ↦ rw (found, insert_member) (insert_into-kept p found)
          ])
  ]

-- The tables with a new intent.
module _ (P : Db → Type 0) (k : IsKept P) where
  pub enqueue-kept :
      (db : Db) (now id : ℕ) (t : Topic) (a g : ℕ) (at : Option ℕ)
      → P db
      → P (enqueue db now id t a g at)
  unfolding enqueue
  enqueue-kept db now id t a g at v = elim (Bool-cases (exists_where (is_intent t a g) db.outbox)) [
    | inl old ↦ rw old v
    | inr new ↦ rw new (k.outbox db _ v)
  ]

-- A transaction that started on `start` and goes on from `db`.
module _ (P : Db → Type 0) (k : IsKept P) (start : Db) (w : P start) where
  guarded-kept :
      {A : Type 0} (stop : Bool) (db : Db) (a : A)
      → P db
      → P (after start (if stop then abort else commit db a))
  guarded-kept true db a v = w
  guarded-kept false db a v = v

  insert_itinerary-kept :
      (db : Db) (id : ℕ) (ss : List OfferStop) → P db → P (after start (insert_itinerary db id ss))
  unfolding insert_itinerary
  insert_itinerary-kept db id [] v = v
  insert_itinerary-kept db id (s ∷ ss) v = guarded-kept _ _ tt (k.stops db _ v)

  module _ (distance : Point → Point → ℕ) (now row : ℕ) where
    record_closure-kept :
        (db : Db) (p : Pool) (g : ℕ)
        → P db
        → P (after start (record_closure distance db now row p g))
    unfolding record_closure
    record_closure-kept db p g v =
        let stops = compute_stops distance p.origin (list_members db p.ride_id) in
        let kept = insert_itinerary-kept db p.ride_id stops v in
        elim (Outcome-cases (insert_itinerary db p.ride_id stops)) [
          | inl stopped ↦ rw (stopped, record_closure) w
          | inr (db2, u, done) ↦
              rw (done, record_closure)
                (enqueue-kept P k db2 now row Topic.pool_dispatch_requested p.ride_id g none
                  (rw done at kept))
        ]

    pub close_in_txn-kept :
        (db : Db) (p : Pool) (reason : PoolState)
        → is_claimable reason ≡ true
        → P db
        → P (after start (close_in_txn distance db now row p reason))
    unfolding close_in_txn
    close_in_txn-kept db p reason ends v = elim (close_open-cases db now p.ride_id reason) [
      | inl (gone, e) ↦ rw (e, close_in_txn) (rw e v)
      | inr (q, found, e) ↦
          rw (e, close_in_txn)
            (rw e (
              record_closure-kept _ p (suc q.dispatch_generation)
                (k.closes db now p.ride_id reason v ends)))
    ]

-- The expiry of a pool.
pub close_if_open-kept :
    (P : Db → Type 0) (k : IsKept P) (distance : Point → Point → ℕ) (db : Db) (now row id : ℕ)
    → P db
    → P (after db (close_if_open distance db now row id))
unfolding close_if_open
close_if_open-kept P k distance db now row id v = elim (Option-cases (find_pool id db.pools)) [
  | inl gone ↦ rw (gone, close_if_open) v
  | inr (p, found) ↦
      rw (found, close_if_open)
        (elim (Bool-cases (not (is_opened p.pool_state))) [
          | inl shut ↦ rw (shut, close_if_open) v
          | inr ready ↦
              rw (ready, close_if_open)
                (elim (Bool-cases (p.seat_count == 0)) [
                  | inl empty ↦
                      rw (empty, close_if_open)
                        (elim (abort_empty_open-cases db now id) [
                          | inl (miss, e) ↦ rw (e, close_if_open) v
                          | inr (hit, e) ↦ rw (e, close_if_open) (k.aborts db now id v)
                        ])
                  | inr taken ↦
                      rw (taken, close_if_open)
                        (elim (Outcome-cases
                          (close_in_txn distance db now row p PoolState.closed_timeout)) [
                            | inl stopped ↦ rw (stopped, close_if_open) v
                            | inr (db', none, done) ↦
                                rw (done, close_if_open) (rw done at (closing p))
                            | inr (db', some g, done) ↦
                                rw (done, close_if_open) (rw done at (closing p))
                          ])
                ])
        ])
]
  where
    closing :
        (p : Pool) → P (after db (close_in_txn distance db now row p PoolState.closed_timeout))
    closing p = close_in_txn-kept P k db v distance now row db p PoolState.closed_timeout refl v

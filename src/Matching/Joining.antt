-- ===== src/Matching/Joining.antt =====
-- A transaction that joins a pool, through its closure by the last seat.
use rcab.Base.{
  update_where, ℕ, suc, ◌≡◌, refl, sym, ap, subst, Bool, false, Option, none, some, List, [], ◌∷◌,
  inl, inr, Bool-cases, Option-cases, Memᴰ, leb, not, ◌&&◌, ◌==◌, is_some, exists_where,
  find_by-key, find_where,
}
use rcab.Store.{Point, PoolState, Pool, PoolMember, Topic, Db}
use rcab.Trips.View.{find_pool, pool_key}
use rcab.Guards.{Outcome, commit, abort}
use rcab.Outbox.{enqueue, is_intent}
use rcab.Itinerary.{OfferStop, compute_stops}
use rcab.Pools.{
  NewMember, SeatFailure, SeatResult, seated, unseated, is_opened, seat_db, list_members, pool_full,
  pool_closed, new_member,
}
use rcab.Pools.Lifecycle.{
  closed_pool, open_row, close_open, insert_itinerary, record_closure, close_in_txn,
}
use rcab.Pools.Joins.{
  QuoteRequest, Passenger, JoinResult, joined, not_joined, no_pool, member_of, join_request,
  close_when_full, take_seat, join_pool,
}
use rcab.Matching.Seats.{HasSeat, InsertEnds, stopped, refused, took_seat, insert_member-ends}

-- A commit whose tables have these members; a rollback has all.
data KeepsMembers (ms : List PoolMember) {A : Type 0} : Outcome A → Type 0 where
  rolled_back : KeepsMembers ms abort
  kept : (db : Db) (a : A) → db.members ≡ ms → KeepsMembers ms (commit db a)

pub enqueue-members :
    (db : Db) (now row : ℕ) (t : Topic) (id g : ℕ) (at : Option ℕ)
    → (enqueue db now row t id g at).members ≡ db.members
unfolding enqueue
enqueue-members db now row t id g at =
    elim (Bool-cases (exists_where (is_intent t id g) db.outbox)) [
      | inl there ↦ rw there refl
      | inr new ↦ rw new refl
    ]

module _ (distance : Point → Point → ℕ) (now row : ℕ) where
  record_closure-members :
      (db : Db) (p : Pool) (g : ℕ)
      → KeepsMembers db.members (record_closure distance db now row p g)
  unfolding record_closure insert_itinerary
  record_closure-members db p g = go (compute_stops distance p.origin (list_members db p.ride_id))
    where
      go :
          (stops : List OfferStop)
          → KeepsMembers db.members (elim (insert_itinerary db p.ride_id stops) [
            | abort ↦ abort
            | commit db2 _ ↦
                commit (enqueue db2 now row Topic.pool_dispatch_requested p.ride_id g none) (some g)
          ])
      go [] =
          kept _ (some g)
            (enqueue-members db now row Topic.pool_dispatch_requested p.ride_id g none)
      go (s ∷ ss) =
          elim (Bool-cases (
            exists_where
              (λ r.
                r.ride_id == p.ride_id
                && exists_where (λ (x : OfferStop). x.sequence_index == r.sequence_index) (s ∷ ss))
              db.stops)) [
                | inl there ↦ rw (insert_itinerary, there) rolled_back
                | inr new ↦
                    rw (insert_itinerary, new)
                      (kept _ (some g)
                        (enqueue-members _ now row Topic.pool_dispatch_requested p.ride_id g none))
              ]

  close_in_txn-members :
      (db : Db) (p : Pool) (reason : PoolState)
      → KeepsMembers db.members (close_in_txn distance db now row p reason)
  unfolding close_in_txn
  close_in_txn-members db p reason =
      elim (Option-cases (find_where (open_row p.ride_id) db.pools)) [
        | inl shut ↦
            let e : close_open db now p.ride_id reason ≡ (db, none) = rw (close_open, shut) refl in
            rw (close_in_txn, e, ap (λ r. r.0) e) (kept db none refl)
        | inr (q, found) ↦
            let db1 = record db {
              pools = update_where (open_row p.ride_id) (closed_pool now reason) db.pools;
            } in
            let e : close_open db now p.ride_id reason ≡ (db1, some (suc q.dispatch_generation)) =
              rw (close_open, found) refl in
            rw (close_in_txn, e, ap (λ r. r.0) e)
              (record_closure-members db1 p (suc q.dispatch_generation))
      ]

-- How a transaction that joins ends: thrown, with no seat and no write, or with a seat.
pub data JoinEnds (db : Db) (id passenger : ℕ) : Outcome JoinResult → Type 0 where
  join_threw : JoinEnds db id passenger abort
  join_refused :
      (reason : SeatFailure) (other : Option ℕ)
      → JoinEnds db id passenger (commit db (not_joined reason other))
  join_missed : JoinEnds db id passenger (commit db no_pool)
  join_seated :
      (db' : Db) (k : ℕ) (closed : Bool)
      → HasSeat db' id passenger
      → JoinEnds db id passenger (commit db' (joined k closed))

pub seated-HasSeat :
    (db db' : Db) (now : ℕ) (n : NewMember)
    → db'.members ≡ (seat_db db now n).members
    → HasSeat db' n.pool_id n.passenger_id
seated-HasSeat db db' now n e = record {
  member = new_member now n;
  there = subst (Memᴰ (new_member now n)) (sym e) (Memᴰ.head refl);
  in_pool = refl;
  own = refl;
  is_active = refl;
}

module _ (distance : Point → Point → ℕ) (quote : QuoteRequest → Option ℕ) (db : Db)
    (now row : ℕ) where
  closed-ends :
      (db1 : Db) (p : Pool) (passenger seats : ℕ)
      → ((db2 : Db) → db2.members ≡ db1.members → HasSeat db2 p.ride_id passenger)
      → JoinEnds db p.ride_id passenger (close_when_full distance quote db1 now row p seats)
  unfolding close_when_full
  closed-ends db1 p passenger seats seat = elim (Bool-cases (leb p.max_seats seats)) [
    | inr room ↦ rw (room, close_when_full) (join_seated db1 seats false (seat db1 refl))
    | inl full ↦
        rw (full, close_when_full)
          (go _ (close_in_txn-members distance now row db1 p PoolState.closed_full))
  ]
    where
      go :
          (o : Outcome (Option ℕ))
          → KeepsMembers db1.members o
          → JoinEnds db p.ride_id passenger
              (elim o [ abort ↦ abort | commit db' g ↦ commit db' (joined seats (is_some g)) ])
      go _ rolled_back = join_threw
      go _ (kept db2 g same) = join_seated db2 seats (is_some g) (seat db2 same)

  take_seat-ends :
      (p : Pool) (j : Passenger) (fare : ℕ)
      → JoinEnds db p.ride_id j.passenger_id (take_seat distance quote db now row p j fare)
  unfolding take_seat
  take_seat-ends p j fare = go _ (insert_member-ends db now (member_of p.ride_id j fare))
    where
      go :
          (o : Outcome SeatResult)
          → InsertEnds db now (member_of p.ride_id j fare) o
          → JoinEnds db p.ride_id j.passenger_id (elim o [
            | abort ↦ abort
            | commit db1 res ↦ elim res [
              | unseated reason existing ↦ commit db1 (not_joined reason existing)
              | seated seats ↦ close_when_full distance quote db1 now row p seats
            ]
          ])
      go _ stopped = join_threw
      go _ (refused reason other) = join_refused reason other
      go _ (took_seat k) =
          closed-ends _ p j.passenger_id k
            (λ db2 same. seated-HasSeat db db2 now (member_of p.ride_id j fare) same)

  pub join_pool-ends :
      (id : ℕ) (j : Passenger)
      → JoinEnds db id j.passenger_id (join_pool distance quote db now row id j)
  unfolding join_pool
  join_pool-ends id j = elim (Option-cases (find_pool id db.pools)) [
    | inl gone ↦ rw (gone, join_pool) join_missed
    | inr (p, found) ↦ elim (Bool-cases (not (is_opened p.pool_state))) [
      | inl shut ↦ rw (found, join_pool, shut) (join_refused pool_closed none)
      | inr ready ↦ elim (Bool-cases (leb p.max_seats p.seat_count)) [
        | inl full ↦ rw (found, join_pool, ready, full) (join_refused pool_full none)
        | inr room ↦ elim (Option-cases (quote (join_request distance quote db now p j))) [
          | inl gone ↦ rw (found, join_pool, ready, room, gone) join_threw
          | inr (fare, priced) ↦
              rw (found, join_pool, ready, room, priced)
                (subst
                  (λ i. JoinEnds db i j.passenger_id (take_seat distance quote db now row p j fare))
                  (find_by-key pool_key id db.pools p found) (take_seat-ends p j fare))
        ]
      ]
    ]
  ]

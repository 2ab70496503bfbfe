-- ===== src/Matching/Answers.antt =====
-- What a request for a shared ride is answered, and what it wrote.
use rcab.Base.{
  ℕ, suc, Bool, Option, none, some, List, [], ◌∷◌, inl, inr, Bool-cases, Option-cases, length, ◌+◌,
  if◌then◌else◌,
}
use rcab.Store.{Point, Pool, Topic, Db}
use rcab.Trips.View.{find_pool}
use rcab.Guards.{Outcome, commit, abort}
use rcab.Outbox.{enqueue}
use rcab.Pools.{
  SeatFailure, already_member, passenger_has_active_pool, idempotent_replay, pool_full, pool_closed,
  SeatResult, seated, unseated,
}
use rcab.Pools.Lifecycle.{OpenPool, insert_open_pool}
use rcab.Pools.Joins.{
  QuoteRequest, Passenger, JoinResult, member_of, opener, OpenResult, is_rejection, open_request,
  seat_opener, open_pool,
}
use rcab.Matching.{
  MatchResult, slotted, opened_pool, existing_seat, seat_conflict, join_answer, rejection_answer,
  Tried, matched, failed, unmatched, try_pools, open_for, PoolSettings, pool_for, candidates,
  find_or_create_pool,
}
use rcab.Matching.Seats.{HasSeat, InsertEnds, stopped, refused, took_seat, insert_member-ends}
use rcab.Matching.Joining.{
  enqueue-members, seated-HasSeat, JoinEnds, join_threw, join_refused, join_missed, join_seated,
  join_pool-ends,
}

-- How a transaction that opens a pool ends.
data OpenEnds (db : Db) (id passenger : ℕ) : Outcome OpenResult → Type 0 where
  open_threw : OpenEnds db id passenger abort
  open_rejected :
      (reason : SeatFailure) (other : Option ℕ)
      → OpenEnds db id passenger (commit db (OpenResult.rejected reason other))
  open_seated :
      (db' : Db) (k : ℕ)
      → HasSeat db' id passenger
      → OpenEnds db id passenger (commit db' (OpenResult.opened k))

module _ (distance : Point → Point → ℕ) (quote : QuoteRequest → Option ℕ) (db : Db) (now row : ℕ)
    (o : OpenPool) (j : Passenger) where
  seat_opener-ends :
      (db1 : Db) (fare closes_at : ℕ)
      → OpenEnds db o.ride_id j.passenger_id
          (seat_opener distance quote db db1 now row o j fare closes_at)
  unfolding seat_opener
  seat_opener-ends db1 fare closes_at =
      go _ (insert_member-ends db1 now (member_of o.ride_id (opener o j) fare))
    where
      go :
          (r : Outcome SeatResult)
          → InsertEnds db1 now (member_of o.ride_id (opener o j) fare) r
          → OpenEnds db o.ride_id j.passenger_id (elim r [
            | abort ↦ abort
            | commit db2 res ↦ elim res [
              | unseated reason existing ↦
                  if is_rejection reason
                  then commit db (OpenResult.rejected reason existing)
                  else abort
              | seated seats ↦
                  commit
                    (enqueue db2 now row Topic.pool_expire_schedule o.ride_id 0 (some closes_at))
                    (OpenResult.opened seats)
            ]
          ])
      go _ stopped = open_threw
      go _ (refused reason other) = elim (Bool-cases (is_rejection reason)) [
        | inl typed ↦ rw typed (open_rejected reason other)
        | inr bug ↦ rw bug open_threw
      ]
      go _ (took_seat k) = open_seated _ k (
          seated-HasSeat db1 _ now (member_of o.ride_id (opener o j) fare)
            (enqueue-members _ now row Topic.pool_expire_schedule o.ride_id 0 (some closes_at)))

  open_pool-ends : OpenEnds db o.ride_id j.passenger_id (open_pool distance quote db now row o j)
  unfolding open_pool insert_open_pool
  open_pool-ends = elim (Option-cases (find_pool o.ride_id db.pools)) [
    | inr (p, taken) ↦ rw (open_pool, insert_open_pool, taken) open_threw
    | inl new ↦ elim (Option-cases (quote (open_request distance quote now o j))) [
      | inl gone ↦ rw (open_pool, insert_open_pool, new, gone) open_threw
      | inr (fare, priced) ↦
          rw (open_pool, insert_open_pool, new, priced)
            (seat_opener-ends _ fare (now + o.timeout_ms))
    ]
  ]

-- The tables after others wrote to them, and nobody else.
pub data AreOthers (others : Db → Db) (db : Db) : Db → Type 0 where
  nobody : AreOthers others db db
  after_others : (mid : Db) → AreOthers others db mid → AreOthers others db (others mid)

-- An answer with a new seat is of a seat that is there; with any other, only others wrote.
pub data IsAnswered (others : Db → Db) (db : Db) (passenger : ℕ)
    : Db × Option MatchResult → Type 0 where
  threw : (db' : Db) → AreOthers others db db' → IsAnswered others db passenger (db', none)
  in_pool :
      (db' : Db) (id seats : ℕ) (closed : Bool)
      → HasSeat db' id passenger
      → IsAnswered others db passenger (db', some (slotted id closed seats))
  in_new_pool :
      (db' : Db) (id seats : ℕ)
      → HasSeat db' id passenger
      → IsAnswered others db passenger (db', some (opened_pool id seats))
  has_seat :
      (db' : Db) (reason : SeatFailure) (id : ℕ)
      → AreOthers others db db'
      → IsAnswered others db passenger (db', some (existing_seat reason id))
  has_conflict :
      (db' : Db) (reason : SeatFailure) (other : Option ℕ)
      → AreOthers others db db'
      → IsAnswered others db passenger (db', some (seat_conflict reason other))

data IsTried (others : Db → Db) (db : Db) (passenger : ℕ) : Db × Tried → Type 0 where
  has_matched :
      (db' : Db) (m : MatchResult)
      → IsAnswered others db passenger (db', some m)
      → IsTried others db passenger (db', matched m)
  has_failed : (db' : Db) → AreOthers others db db' → IsTried others db passenger (db', failed)
  has_none : (db' : Db) → AreOthers others db db' → IsTried others db passenger (db', unmatched)

module _ (distance : Point → Point → ℕ) (quote : QuoteRequest → Option ℕ) (others : Db → Db)
    (now row : ℕ → ℕ) (db : Db) (j : Passenger) where
  -- One attempt, and then the rest.
  attempt-IsTried :
      (mid : Db) (id : ℕ) (rest : Db → Db × Tried) (o : Outcome JoinResult)
      → AreOthers others db mid
      → ((d : Db) → AreOthers others db d → IsTried others db j.passenger_id (rest d))
      → JoinEnds (others mid) id j.passenger_id o
      → IsTried others db j.passenger_id (elim o [
        | abort ↦ (others mid, failed)
        | commit db' res ↦ elim (join_answer id res) [ some m ↦ (db', matched m) | none ↦ rest db' ]
      ])
  unfolding join_answer
  attempt-IsTried mid id rest _ so_far onward join_threw = has_failed _ (after_others mid so_far)
  attempt-IsTried mid id rest _ so_far onward join_missed = onward _ (after_others mid so_far)
  attempt-IsTried mid id rest _ so_far onward (join_seated db' k closed seat) =
      has_matched db' _ (in_pool db' id k closed seat)
  attempt-IsTried mid id rest _ so_far onward (join_refused already_member other) =
      has_matched _ _ (has_seat _ already_member _ (after_others mid so_far))
  attempt-IsTried mid id rest _ so_far onward (join_refused idempotent_replay other) =
      has_matched _ _ (has_seat _ idempotent_replay _ (after_others mid so_far))
  attempt-IsTried mid id rest _ so_far onward (join_refused passenger_has_active_pool other) =
      has_matched _ _ (has_conflict _ passenger_has_active_pool other (after_others mid so_far))
  attempt-IsTried mid id rest _ so_far onward (join_refused pool_full other) =
      onward _ (after_others mid so_far)
  attempt-IsTried mid id rest _ so_far onward (join_refused pool_closed other) =
      onward _ (after_others mid so_far)

  try_pools-IsTried :
      (n : ℕ) (mid : Db) (ps : List Pool)
      → AreOthers others db mid
      → IsTried others db j.passenger_id (try_pools distance quote others now row n mid j ps)
  unfolding try_pools
  try_pools-IsTried n mid [] so_far = has_none mid so_far
  try_pools-IsTried n mid (p ∷ ps) so_far =
      attempt-IsTried mid p.ride_id (λ d. try_pools distance quote others now row (suc n) d j ps) _
        so_far (λ d more. try_pools-IsTried (suc n) d ps more)
        (join_pool-ends distance quote (others mid) (now n) (row n) p.ride_id j)

  open_for-IsAnswered :
      (n : ℕ) (mid : Db) (o : OpenPool)
      → AreOthers others db mid
      → IsAnswered others db j.passenger_id (open_for distance quote others now row n mid o j)
  unfolding open_for rejection_answer
  open_for-IsAnswered n mid o so_far =
      go _ (open_pool-ends distance quote (others mid) (now n) (row n) o j)
    where
      rejected-IsAnswered :
          (reason : SeatFailure) (other : Option ℕ)
          → IsAnswered others db j.passenger_id (others mid, some (rejection_answer reason other))
      rejected-IsAnswered idempotent_replay (some id) =
          has_seat _ idempotent_replay id (after_others mid so_far)
      rejected-IsAnswered idempotent_replay none =
          has_conflict _ passenger_has_active_pool none (after_others mid so_far)
      rejected-IsAnswered already_member other =
          has_conflict _ passenger_has_active_pool other (after_others mid so_far)
      rejected-IsAnswered passenger_has_active_pool other =
          has_conflict _ passenger_has_active_pool other (after_others mid so_far)
      rejected-IsAnswered pool_full other =
          has_conflict _ passenger_has_active_pool other (after_others mid so_far)
      rejected-IsAnswered pool_closed other =
          has_conflict _ passenger_has_active_pool other (after_others mid so_far)

      go :
          (r : Outcome OpenResult)
          → OpenEnds (others mid) o.ride_id j.passenger_id r
          → IsAnswered others db j.passenger_id (elim r [
            | abort ↦ (others mid, none)
            | commit db' res ↦ elim res [
              | OpenResult.opened seats ↦ (db', some (opened_pool o.ride_id seats))
              | OpenResult.rejected reason other ↦ (db', some (rejection_answer reason other))
            ]
          ])
      go _ open_threw = threw _ (after_others mid so_far)
      go _ (open_rejected reason other) = rejected-IsAnswered reason other
      go _ (open_seated db' k seat) = in_new_pool db' o.ride_id k seat

  module _ (near : Point → Point → Bool) (similarity : Passenger → Pool → ℕ) (threshold : ℕ)
      (haversine_m : Point → Point → ℕ) (composite : Passenger → Pool → ℕ) where
    -- a request for a shared ride that is answered with a seat, in a pool on the way or in a new
    -- one, leaves an active seat of the passenger in that pool; one that is answered otherwise, or
    -- throws, wrote nothing, whatever others do to the tables before each of its transactions.
    pub find_or_create_pool-IsAnswered :
        (c : PoolSettings) (id : ℕ)
        → IsAnswered others db j.passenger_id (
            find_or_create_pool distance quote others now row near similarity threshold haversine_m
              composite c db id j)
    unfolding find_or_create_pool
    find_or_create_pool-IsAnswered c id = go _ (try_pools-IsTried 0 db pools nobody)
      where
        pools : List Pool
        pools =
            candidates distance quote others now row near similarity threshold haversine_m composite
              db j

        go :
            (t : Db × Tried)
            → IsTried others db j.passenger_id t
            → IsAnswered others db j.passenger_id (elim t.1 [
              | matched m ↦ (t.0, some m)
              | failed ↦ (t.0, none)
              | unmatched ↦
                  open_for distance quote others now row (length pools) t.0 (pool_for c id j) j
            ])
        go _ (has_matched db' m answered) = answered
        go _ (has_failed db' so_far) = threw db' so_far
        go _ (has_none db' so_far) = open_for-IsAnswered (length pools) db' (pool_for c id j) so_far

-- ===== src/Matching/Seats.antt =====
-- A transaction that joins or opens a pool seats the passenger, or leaves the tables as they are.
use rcab.Base.{
  ◌||◌, ◌==◌, select_where, ℕ, suc, ◌≡◌, refl, true, Option, none, some, List, inl, inr, Bool-cases,
  Option-cases, Memᴰ, leb, not, find_where,
}
use rcab.Store.{Pool, PoolMember, Db}
use rcab.Trips.View.{find_pool}
use rcab.Guards.{Outcome, commit, abort}
use rcab.Pools.{
  NewMember, SeatFailure, already_member, passenger_has_active_pool, idempotent_replay, Constraint,
  member_duplicate, member_idempotency, member_one_active, fallback, by_activity, by_pool,
  classify_duplicate, is_rival, has_key, is_keyed, SeatResult, seated, unseated, is_opened,
  is_storable, insert_into, insert_member, violated, seat_db, pool_full, pool_closed,
}

-- The passenger has an active seat in the pool, at a fare.
pub record HasSeat (db : Db) (pool passenger : ℕ) : Type 0 where
  pub member : PoolMember
  pub there : Memᴰ member db.members
  pub in_pool : member.pool_id ≡ pool
  pub own : member.passenger_id ≡ passenger
  pub is_active : member.active ≡ true

abbrev IsUnseated : SeatResult → Type 0
IsUnseated res = (reason : SeatFailure) × (other : Option ℕ) × (res ≡ unseated reason other)

fallback-refuses : (c : Constraint) (n : NewMember) → IsUnseated (fallback c n)
fallback-refuses member_idempotency n = (idempotent_replay, none, refl)
fallback-refuses member_one_active n = (passenger_has_active_pool, none, refl)
fallback-refuses member_duplicate n = elim (Bool-cases (is_keyed n.idempotency_key)) [
  | inl keyed ↦ (passenger_has_active_pool, none, rw keyed refl)
  | inr free ↦ (already_member, some n.pool_id, rw free refl)
]

by_activity-refuses :
    (c : Constraint) (n : NewMember) (rows : List PoolMember) → IsUnseated (by_activity c n rows)
unfolding by_activity
by_activity-refuses c n rows = elim (Option-cases (find_where (λ m. m.active) rows)) [
  | inr (m, found) ↦ (passenger_has_active_pool, some m.pool_id, rw (found, by_activity) refl)
  | inl gone ↦ rw (gone, by_activity) (fallback-refuses c n)
]

by_pool-refuses :
    (c : Constraint) (n : NewMember) (rows : List PoolMember) → IsUnseated (by_pool c n rows)
unfolding by_pool
by_pool-refuses c n rows = elim (Option-cases (find_where (λ m. m.pool_id == n.pool_id) rows)) [
  | inl gone ↦ rw (gone, by_pool) (by_activity-refuses c n rows)
  | inr (m, found) ↦ elim (Bool-cases (not (is_keyed n.idempotency_key) || not m.active)) [
    | inl same ↦ (already_member, some n.pool_id, rw (found, by_pool, same) refl)
    | inr other ↦ rw (found, by_pool, other) (by_activity-refuses c n rows)
  ]
]

classify_duplicate-refuses :
    (db : Db) (n : NewMember) (c : Constraint) → IsUnseated (classify_duplicate db n c)
unfolding classify_duplicate
classify_duplicate-refuses db n c =
    let rows = select_where (is_rival n) db.members in
    elim (Option-cases (find_where (has_key n) rows)) [
      | inr (m, found) ↦ (idempotent_replay, some m.pool_id, rw (found, classify_duplicate) refl)
      | inl gone ↦ rw (gone, classify_duplicate) (by_pool-refuses c n rows)
    ]

-- How an insertion of a member ends.
pub data InsertEnds (db : Db) (now : ℕ) (n : NewMember) : Outcome SeatResult → Type 0 where
  stopped : InsertEnds db now n abort
  refused :
      (reason : SeatFailure) (other : Option ℕ)
      → InsertEnds db now n (commit db (unseated reason other))
  took_seat : (k : ℕ) → InsertEnds db now n (commit (seat_db db now n) (seated k))

module _ (db : Db) (now : ℕ) (n : NewMember) where
  insert_into-ends : (p : Pool) → InsertEnds db now n (insert_into db now n p)
  unfolding insert_into
  insert_into-ends p = elim (Bool-cases (is_opened p.pool_state)) [
    | inr shut ↦ rw (shut, insert_into) (refused pool_closed none)
    | inl ready ↦ elim (Option-cases (violated db n)) [
      | inr (c, bad) ↦
          rw (ready, insert_into, bad)
            (go (classify_duplicate db n c) (classify_duplicate-refuses db n c))
      | inl fine ↦ elim (Bool-cases (leb (suc p.seat_count) p.max_seats)) [
        | inl room ↦ rw (ready, insert_into, fine, room) (took_seat (suc p.seat_count))
        | inr full ↦ rw (ready, insert_into, fine, full) (refused pool_full none)
      ]
    ]
  ]
    where
      go : (res : SeatResult) → IsUnseated res → InsertEnds db now n (commit db res)
      go res (reason, other, e) = rw e (refused reason other)

  pub insert_member-ends : InsertEnds db now n (insert_member db now n)
  unfolding insert_member
  insert_member-ends = elim (Bool-cases (is_storable n.agreed_fare_cents)) [
    | inr big ↦ rw (big, insert_member) stopped
    | inl fits ↦ elim (Option-cases (find_pool n.pool_id db.pools)) [
      | inl gone ↦ rw (fits, insert_member, gone) (refused pool_closed none)
      | inr (p, found) ↦ rw (fits, insert_member, found) (insert_into-ends p)
    ]
  ]

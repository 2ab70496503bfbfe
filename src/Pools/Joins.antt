-- ===== src/Pools/Joins.antt =====
-- apps/api/src/modules/matching/pool-lifecycle.service.ts: a passenger opens a pool, or joins one.
-- The price of a seat is the callback `quote`; none is an error that it throws.
use Prim.Native.String.{String}
use rcab.Base.{
  ℕ, suc, ◌==◌, not, leb, Bool, true, false, Option, none, some, List, [], ◌∷◌, ◌++◌, if◌then◌else◌,
  is_some, select_where,
}
use rcab.Store.{Point, PoolState, Pool, Topic, Db}
use rcab.Trips.View.{find_pool}
use rcab.Guards.{Outcome, commit, abort}
use rcab.Outbox.{enqueue}
use rcab.Itinerary.{OfferStop, compute_stops}
use rcab.Pools.{
  NewMember, SeatFailure, passenger_has_active_pool, idempotent_replay, pool_full, pool_closed,
  seated, unseated, is_opened, insert_member, list_members, new_member,
}
use rcab.Pools.Lifecycle.{OpenPool, insert_open_pool, close_in_txn}

pub record QuoteRequest : Type 0 where
  pub pool_id : ℕ
  pub passenger_id : ℕ
  pub seat_count : ℕ
  pub origin : Point
  pub dest : Point
  pub stops : List OfferStop

pub record Passenger : Type 0 where
  pub passenger_id : ℕ
  pub origin : Point
  pub dest : Point
  pub idempotency_key : Option String

abbrev pub member_of : ℕ → Passenger → ℕ → NewMember
member_of id p fare = record {
  pool_id = id;
  passenger_id = p.passenger_id;
  origin = p.origin;
  dest = p.dest;
  agreed_fare_cents = fare;
  idempotency_key = p.idempotency_key;
}

pub data JoinResult : Type 0 where
  -- The seat count and whether the seat closed the pool.
  joined : ℕ → Bool → JoinResult
  not_joined : SeatFailure → Option ℕ → JoinResult
  no_pool : JoinResult

pub data OpenResult : Type 0 where
  opened : ℕ → OpenResult
  rejected : SeatFailure → Option ℕ → OpenResult

-- The opener travels from the pool's origin to its destination.
abbrev pub opener : OpenPool → Passenger → Passenger
opener p j = record j { origin = p.origin; dest = p.dest }

-- The two rejections of an opener that are typed; the others are bugs, and throw.
abbrev pub is_rejection : SeatFailure → Bool
is_rejection passenger_has_active_pool = true
is_rejection idempotent_replay = true
is_rejection _ = false

module _ (distance : Point → Point → ℕ) (quote : QuoteRequest → Option ℕ) where
  -- The request for the joiner's price: the seat count after the join, and the itinerary with it.
  abbrev pub join_request : Db → ℕ → Pool → Passenger → QuoteRequest
  join_request db now p j = record {
    pool_id = p.ride_id;
    passenger_id = j.passenger_id;
    seat_count = suc p.seat_count;
    origin = j.origin;
    dest = j.dest;
    stops = compute_stops distance p.origin (
        select_where (λ m. not (m.passenger_id == j.passenger_id)) (list_members db p.ride_id)
        ++ new_member now (member_of p.ride_id j 0) ∷ []);
  }

  -- The end of `joinPool`: the seat that fills the pool closes it.
  unfoldable pub close_when_full : Db → ℕ → ℕ → Pool → ℕ → Outcome JoinResult
  close_when_full db now row p seats =
      if leb p.max_seats seats
      then (elim (close_in_txn distance db now row p PoolState.closed_full) [
        | abort ↦ abort
        | commit db' g ↦ commit db' (joined seats (is_some g))
      ])
      else commit db (joined seats false)

  unfoldable pub take_seat : Db → ℕ → ℕ → Pool → Passenger → ℕ → Outcome JoinResult
  unfolding close_when_full
  take_seat db now row p j fare = elim (insert_member db now (member_of p.ride_id j fare)) [
    | abort ↦ abort
    | commit db1 res ↦ elim res [
      | unseated reason existing ↦ commit db1 (not_joined reason existing)
      | seated seats ↦ close_when_full db1 now row p seats
    ]
  ]

  -- `joinPool`.
  unfoldable pub join_pool : Db → ℕ → ℕ → ℕ → Passenger → Outcome JoinResult
  unfolding take_seat
  join_pool db now row id j = elim (find_pool id db.pools) [
    | none ↦ commit db no_pool
    | some p ↦
        if not (is_opened p.pool_state)
        then commit db (not_joined pool_closed none)
        else if leb p.max_seats p.seat_count
        then commit db (not_joined pool_full none)
        else (elim (quote (join_request db now p j)) [
          | none ↦ abort
          | some fare ↦ take_seat db now row p j fare
        ])
  ]

  abbrev pub open_request : ℕ → OpenPool → Passenger → QuoteRequest
  open_request now p j = record {
    pool_id = p.ride_id;
    passenger_id = j.passenger_id;
    seat_count = 1;
    origin = p.origin;
    dest = p.dest;
    stops =
        compute_stops distance p.origin (new_member now (member_of p.ride_id (opener p j) 0) ∷ []);
  }

  -- The opener's seat and the intent to expire the pool; `db` is as it was before the transaction.
  unfoldable pub seat_opener : Db → Db → ℕ → ℕ → OpenPool → Passenger → ℕ → ℕ → Outcome OpenResult
  seat_opener db db1 now row p j fare closes_at =
      elim (insert_member db1 now (member_of p.ride_id (opener p j) fare)) [
        | abort ↦ abort
        | commit db2 res ↦ elim res [
          | unseated reason existing ↦
              if is_rejection reason then commit db (rejected reason existing) else abort
          | seated seats ↦
              commit (enqueue db2 now row Topic.pool_expire_schedule p.ride_id 0 (some closes_at))
                (opened seats)
        ]
      ]

  -- `openPool`.
  unfoldable pub open_pool : Db → ℕ → ℕ → OpenPool → Passenger → Outcome OpenResult
  unfolding seat_opener
  open_pool db now row p j = elim (insert_open_pool db now p) [
    | abort ↦ abort
    | commit db1 closes_at ↦ elim (quote (open_request now p j)) [
      | none ↦ abort
      | some fare ↦ seat_opener db db1 now row p j fare closes_at
    ]
  ]

-- ===== src/Tests/Seats.antt =====
-- Two passengers open and fill a pool of two seats, and its stops are put in order.
use rcab.Base.{
  ℕ, ◌≡◌, ◌≤◌, ◌<◌, ◌+◌, ◌-◌, refl, Bool, true, Option, none, some, List, [], ◌∷◌, Memᴰ, Permᴰ,
  arith, select_where,
}
use rcab.Store.{Point, StopType, PoolMember, Db}
use rcab.Guards.{after}
use rcab.Itinerary.{OfferStop, compute_stops}
use rcab.Itinerary.Stops.{
  is_type, passengers, stop_passengers, compute_stops-order, compute_stops_complete, indexes,
  count_from,
}
use rcab.Pools.Capacity.{Filled}
use rcab.Pools.Lifecycle.{OpenPool, close_if_open}
use rcab.Pools.Joins.{QuoteRequest, Passenger, open_pool, join_pool}
use rcab.Pools.Invariant.{PoolRun-IsFilled}
use rcab.Pools.Runs.{no_steps, and_then, pool_opened, pool_joined, pool_expired}
use rcab.Tests.Dispatch.{empty}

abbrev at : ℕ → ℕ → Point
at a b = record { lat = a; lng = b }

-- A distance along the latitude.
abbrev pub gap : Point → Point → ℕ
gap p q = (p.lat - q.lat) + (q.lat - p.lat)

abbrev pub fixed_price : QuoteRequest → Option ℕ
fixed_price q = some 9000

abbrev pub rider : ℕ → Passenger
rider id = record { passenger_id = id; origin = at id 0; dest = at 90 0; idempotency_key = none }

abbrev new_pool : OpenPool
new_pool = record {
  ride_id = 5;
  origin = at 10 0;
  dest = at 90 0;
  max_seats = 2;
  detour_budget_m = 800;
  timeout_ms = 60000;
}

empty-IsFilled : Filled empty
unfolding rcab.Base.find_by rcab.Base.find_where
empty-IsFilled = record {
  counted = λ id p e. absurd (no_pool p e);
  fits = λ id p e. absurd (no_pool p e);
  housed = λ m mm gone. elim mm [ ];
  lone = λ m k mm mk am ak same. elim mm [ ];
}
  where
    no_pool : {A : Type 0} (p : A) → none ≡ some p → ⊥
    no_pool p e = cc

abbrev pub one_seat : Db
one_seat = after empty (open_pool gap fixed_price empty 10 900 new_pool (rider 20))

abbrev two_seats : Db
two_seats = after one_seat (join_pool gap fixed_price one_seat 20 901 5 (rider 30))

abbrev timed_out : Db
timed_out = after two_seats (close_if_open gap two_seats 60010 902 5)

PoolRun-IsFilled_example : Filled timed_out
PoolRun-IsFilled_example =
    PoolRun-IsFilled {distance = gap} {quote = fixed_price}
      (and_then
        (and_then (and_then no_steps (pool_opened 10 900 new_pool (rider 20)))
          (pool_joined 20 901 5 (rider 30)))
        (pool_expired 60010 902 5))
      empty-IsFilled

abbrev seat_of : ℕ → ℕ → PoolMember
seat_of id lat = record {
  pool_id = 5;
  passenger_id = id;
  origin = at lat 0;
  dest = at (lat + 50) 0;
  agreed_fare_cents = 9000;
  idempotency_key = none;
  active = true;
  joined_at = id;
}

abbrev party : List PoolMember
party = seat_of 1 40 ∷ seat_of 2 20 ∷ []

abbrev stop : StopType → ℕ → ℕ → ℕ → OfferStop
stop type id lat index = record {
  type = type;
  point = at lat 0;
  passenger_id = id;
  sequence_index = index;
}

party-stops :
    compute_stops gap (at 10 0) party
    ≡ stop StopType.pickup 2 20 0
      ∷ stop StopType.pickup 1 40 1
      ∷ stop StopType.dropoff 2 70 2
      ∷ stop StopType.dropoff 1 90 3
      ∷ []
unfolding compute_stops rcab.Base.sort_by
party-stops = refl

compute_stops_complete_example :
    (indexes (compute_stops gap (at 10 0) party) ≡ count_from 0 4)
    × Permᴰ
        (stop_passengers
          (select_where (is_type StopType.pickup) (compute_stops gap (at 10 0) party)))
        (passengers party)
    × Permᴰ
        (stop_passengers
          (select_where (is_type StopType.dropoff) (compute_stops gap (at 10 0) party)))
        (passengers party)
compute_stops_complete_example = compute_stops_complete gap (at 10 0) party

first_stop : Memᴰ (stop StopType.pickup 1 40 1) (compute_stops gap (at 10 0) party)
first_stop = rw party-stops (Memᴰ.tail (Memᴰ.head refl))

last_stop : Memᴰ (stop StopType.dropoff 2 70 2) (compute_stops gap (at 10 0) party)
last_stop = rw party-stops (Memᴰ.tail (Memᴰ.tail (Memᴰ.head refl)))

compute_stops-order_example : 1 < 2
compute_stops-order_example =
    compute_stops-order gap (at 10 0) party (stop StopType.pickup 1 40 1)
      (stop StopType.dropoff 2 70 2) first_stop last_stop refl refl

-- ===== src/Itinerary.antt =====
-- apps/api/src/modules/matching/itinerary.ts: the stops of a pool. `haversineM` works on floating
-- point numbers, so the distance is a parameter, in whole units; nothing is asked of it.
pub mod Stops
use rcab.Base.{
  ℕ, zero, suc, ◌+◌, ◌==◌, ◌&&◌, ◌||◌, ltb, leb, Bool, true, false, Option, none, some, List, [],
  ◌∷◌, ◌++◌, if◌then◌else◌, sort_by, length,
}
use rcab.Store.{Point, StopType, PoolMember, RideStop}

-- A stop as `computeStops` gives it; the pool's id and the confirmation come with the row.
pub record OfferStop : Type 0 where
  pub type : StopType
  pub point : Point
  pub passenger_id : ℕ
  pub sequence_index : ℕ

abbrev pub by_passenger_id : PoolMember → PoolMember → Bool
by_passenger_id a b = leb a.passenger_id b.passenger_id

-- `splice(index, 1)` on a list that is not empty: the element and the rest. An index past the end,
-- which `scan_nearest` does not give, stands for the last one.
unfoldable pub splice_one : ℕ → PoolMember → List PoolMember → PoolMember × List PoolMember
splice_one zero m ms = (m, ms)
splice_one (suc n) m [] = (m, [])
splice_one (suc n) m (x ∷ xs) = let (it, rest) = splice_one n x xs in (it, m ∷ rest)

-- The two loops that number the stops.
unfoldable pub pickup_stops : ℕ → List PoolMember → List OfferStop
pickup_stops seq [] = []
pickup_stops seq (m ∷ ms) =
    record {
      type = StopType.pickup;
      point = m.origin;
      passenger_id = m.passenger_id;
      sequence_index = seq;
    }
    ∷ pickup_stops (suc seq) ms

unfoldable pub dropoff_stops : ℕ → List PoolMember → List OfferStop
dropoff_stops seq [] = []
dropoff_stops seq (m ∷ ms) =
    record {
      type = StopType.dropoff;
      point = m.dest;
      passenger_id = m.passenger_id;
      sequence_index = seq;
    }
    ∷ dropoff_stops (suc seq) ms

module _ (distance : Point → Point → ℕ) where
  -- `da - db || byPassengerId(a, b)`.
  abbrev pub nearer_pickup : Point → PoolMember → PoolMember → Bool
  nearer_pickup anchor a b =
      let da = distance anchor a.origin in
      let db = distance anchor b.origin in ltb da db || da == db && by_passenger_id a b

  -- `sortPickupsByDistance`.
  unfoldable pub sort_pickups : List PoolMember → Point → List PoolMember
  sort_pickups members anchor = sort_by (nearer_pickup anchor) members

  -- The scan for the nearest destination: the index of the first one at the least distance. `best`
  -- and `best_d` are what the loop has found before index `i`; the first round beats Infinity.
  unfoldable pub scan_nearest : Point → ℕ → ℕ → ℕ → List PoolMember → ℕ
  scan_nearest at i best best_d [] = best
  scan_nearest at i best best_d (x ∷ xs) =
      let d = distance at x.dest in
      let closer = ltb d best_d in
      scan_nearest at (suc i) (if closer then i else best) (if closer then d else best_d) xs

  abbrev pub nearest_index : Point → PoolMember → List PoolMember → ℕ
  nearest_index at m ms = scan_nearest at 1 0 (distance at m.dest) ms

  -- The loop on `remaining`; each round takes one out, so its length is fuel enough.
  unfoldable pub dropoff_rounds : ℕ → Point → List PoolMember → List PoolMember
  unfolding splice_one scan_nearest
  dropoff_rounds zero at ms = []
  dropoff_rounds (suc fuel) at [] = []
  dropoff_rounds (suc fuel) at (m ∷ ms) =
      let (next, rest) = splice_one (nearest_index at m ms) m ms in
      next ∷ dropoff_rounds fuel next.dest rest

  -- `orderDropoffsNearestNeighbour`.
  unfoldable pub order_dropoffs : List PoolMember → Point → List PoolMember
  unfolding dropoff_rounds
  order_dropoffs members start =
      let remaining = sort_by by_passenger_id members in
      dropoff_rounds (length remaining) start remaining

  abbrev pub last_of : PoolMember → List PoolMember → PoolMember
  last_of m [] = m
  last_of m (x ∷ xs) = last_of x xs

  unfoldable pub dropoffs_after : List PoolMember → List PoolMember
  unfolding order_dropoffs
  dropoffs_after [] = []
  dropoffs_after (m ∷ ms) = order_dropoffs (m ∷ ms) (last_of m ms).origin

  -- `computeStops`.
  unfoldable pub compute_stops : Point → List PoolMember → List OfferStop
  unfolding sort_pickups dropoffs_after pickup_stops dropoff_stops
  compute_stops anchor members =
      let pickups = sort_pickups members anchor in
      let dropoffs = dropoffs_after pickups in
      pickup_stops 0 pickups ++ dropoff_stops (length pickups) dropoffs

-- ===== src/Matching.antt =====
-- apps/api/src/modules/matching/matching.service.ts: a request for a shared ride is seated in a pool on its
-- way, or in a new one. What others do to the tables before each transaction is a function of the
-- tables. Floating point is a parameter: the similarity of routes and its threshold, the distance on the
-- earth (in metres, rounded up, which its comparison with a budget does not see), and the score
-- of a pool, as numbers in the same order; so is `near`, the test of the spatial index. An
-- attempt has its own clock and its own new row.
pub mod Seats
pub mod Joining
pub mod Answers
use rcab.Base.{
  ℕ, suc, ◌+◌, ◌==◌, ◌&&◌, ◌||◌, not, leb, ltb, Bool, true, false, Option, none, some, List, [],
  ◌∷◌, length, map, select_where, sort_by, if◌then◌else◌, is_some,
}
use rcab.Store.{Point, Pool, Db}
use rcab.Guards.{Outcome, commit, abort}
use rcab.Pools.{
  SeatFailure, already_member, passenger_has_active_pool, idempotent_replay, is_opened,
}
use rcab.Pools.Lifecycle.{OpenPool}
use rcab.Pools.Joins.{
  QuoteRequest, Passenger, JoinResult, joined, not_joined, no_pool, join_pool, OpenResult,
  open_pool,
}

pub data MatchResult : Type 0 where
  -- The pool, whether the seat closed it, and its seat count.
  slotted : ℕ → Bool → ℕ → MatchResult
  opened_pool : ℕ → ℕ → MatchResult
  existing_seat : SeatFailure → ℕ → MatchResult
  seat_conflict : SeatFailure → Option ℕ → MatchResult

-- maxSeats and detourBudgetM, and the timeout of a pool (`poolTimeoutMs` of the lifecycle).
pub record PoolSettings : Type 0 where
  pub max_seats : ℕ
  pub detour_budget_m : ℕ
  pub timeout_ms : ℕ

abbrev pub pool_for : PoolSettings → ℕ → Passenger → OpenPool
pool_for c id j = record {
  ride_id = id;
  origin = j.origin;
  dest = j.dest;
  max_seats = c.max_seats;
  detour_budget_m = c.detour_budget_m;
  timeout_ms = c.timeout_ms;
}

pub record Scored : Type 0 where
  pub pool : Pool
  pub composite : ℕ

-- `joined.existingPoolId ?? pool.rideId`.
abbrev pub or_pool : ℕ → Option ℕ → ℕ
or_pool id none = id
or_pool id (some other) = other

-- The answer that an attempt gives, or none for a stale candidate.
unfoldable pub join_answer : ℕ → JoinResult → Option MatchResult
join_answer id (joined seats closed) = some (slotted id closed seats)
join_answer id (not_joined already_member other) =
    some (existing_seat already_member (or_pool id other))
join_answer id (not_joined idempotent_replay other) =
    some (existing_seat idempotent_replay (or_pool id other))
join_answer id (not_joined passenger_has_active_pool other) =
    some (seat_conflict passenger_has_active_pool other)
join_answer id _ = none

unfoldable pub rejection_answer : SeatFailure → Option ℕ → MatchResult
rejection_answer idempotent_replay (some other) = existing_seat idempotent_replay other
rejection_answer _ other = seat_conflict passenger_has_active_pool other

-- `failed` is an error that an attempt threw.
pub data Tried : Type 0 where
  matched : MatchResult → Tried
  failed unmatched : Tried

module _ (distance : Point → Point → ℕ) (quote : QuoteRequest → Option ℕ) (others : Db → Db)
    (now row : ℕ → ℕ) where
  -- The candidates one by one; `n` counts the attempts.
  unfoldable pub try_pools : ℕ → Db → Passenger → List Pool → Db × Tried
  unfolding join_answer join_pool
  try_pools n db j [] = (db, unmatched)
  try_pools n db j (p ∷ ps) =
      elim (join_pool distance quote (others db) (now n) (row n) p.ride_id j) [
        | abort ↦ (others db, failed)
        | commit db' res ↦ elim (join_answer p.ride_id res) [
          | some m ↦ (db', matched m)
          | none ↦ try_pools (suc n) db' j ps
        ]
      ]

  -- A new pool for the passenger.
  unfoldable pub open_for : ℕ → Db → OpenPool → Passenger → Db × Option MatchResult
  unfolding rejection_answer open_pool
  open_for n db o j = elim (open_pool distance quote (others db) (now n) (row n) o j) [
    | abort ↦ (others db, none)
    | commit db' res ↦ elim res [
      | OpenResult.opened seats ↦ (db', some (opened_pool o.ride_id seats))
      | OpenResult.rejected reason other ↦ (db', some (rejection_answer reason other))
    ]
  ]

  module _ (near : Point → Point → Bool) (similarity : Passenger → Pool → ℕ) (threshold : ℕ)
      (haversine_m : Point → Point → ℕ) (composite : Passenger → Pool → ℕ) where
    -- `findCandidates`.
    abbrev pub is_near : Passenger → Pool → Bool
    is_near j p =
        near p.origin j.origin
        && near p.dest j.dest
        && is_opened p.pool_state
        && ltb p.seat_count p.max_seats

    abbrev pub is_qualified : Passenger → Pool → Bool
    is_qualified j p =
        leb threshold (similarity j p)
        && leb (haversine_m j.origin p.origin) p.detour_budget_m
        && leb (haversine_m j.dest p.dest) p.detour_budget_m

    abbrev pub scored : Passenger → Pool → Scored
    scored j p = record { pool = p; composite = composite j p }

    -- The best first.
    unfoldable pub candidates : Db → Passenger → List Pool
    candidates db j =
        map (λ s. s.pool)
          (sort_by (λ a b. leb b.composite a.composite)
            (map (scored j) (select_where (is_qualified j) (select_where (is_near j) db.pools))))

    -- `findOrCreatePool`; no result is an error that it throws.
    unfoldable pub find_or_create_pool : PoolSettings → Db → ℕ → Passenger → Db × Option MatchResult
    unfolding candidates try_pools open_for
    find_or_create_pool c db id j =
        let pools = candidates db j in
        let (db', tried) = try_pools 0 db j pools in
        elim tried [
          | matched m ↦ (db', some m)
          | failed ↦ (db', none)
          | unmatched ↦ open_for (length pools) db' (pool_for c id j) j
        ]

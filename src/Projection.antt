-- ===== src/Projection.antt =====
-- apps/api/src/modules/matching/pool-projection.service.ts: the copy of each pool in Redis, a hash that is
-- written after commits and lost after a while. Redis is a function from the id of a pool to its hash.
-- The tables do not change during a rebuild.
pub mod Behind
pub mod Latest
pub mod Rebuild
use rcab.Base.{
  ℕ, suc, ◌+◌, leb, ltb, ◌==◌, Bool, true, false, not, Option, none, some, List, [], ◌∷◌, map,
  if◌then◌else◌, select_where,
}
use rcab.Store.{PoolState, Pool, Db}
use rcab.Trips.View.{find_pool}
use rcab.Realtime.{is_terminal_pool}

abbrev pub pool_hash_ttl_ms : ℕ
pool_hash_ttl_ms = 600000

pub record PoolHash : Type 0 where
  pub version : ℕ
  pub state : PoolState
  pub seat_count : ℕ
  pub max_seats : ℕ
  pub claimed_by : Option ℕ
  pub expires_at : ℕ

-- What Redis still holds.
abbrev pub unexpired : ℕ → Option PoolHash → Option PoolHash
unexpired now none = none
unexpired now (some h) = if ltb now h.expires_at then some h else none

-- `claimed_by` is set or left as it is.
abbrev pub set_claim : Option ℕ → Option ℕ → Option ℕ
set_claim (some driver) old = some driver
set_claim none old = old

abbrev pub hash_of : ℕ → Pool → Option ℕ → PoolHash
hash_of now p claimed_by = record {
  version = p.state_version;
  state = p.pool_state;
  seat_count = p.seat_count;
  max_seats = p.max_seats;
  claimed_by = set_claim p.claimed_by_driver_id claimed_by;
  expires_at = now + pool_hash_ttl_ms;
}

-- PROJECT_POOL_EVAL.
unfoldable pub project_pool_eval : Option PoolHash → ℕ → Pool → Option PoolHash × Bool
project_pool_eval stored now p = elim (unexpired now stored) [
  | none ↦ (some (hash_of now p none), true)
  | some h ↦
      if leb p.state_version h.version
      then (some h, false)
      else (some (hash_of now p h.claimed_by), true)
]

abbrev pub set_key : (ℕ → Option PoolHash) → ℕ → Option PoolHash → ℕ → Option PoolHash
set_key redis id h k = if k == id then h else redis k

-- `write` and `project`.
unfoldable pub write_pool : (ℕ → Option PoolHash) → ℕ → Pool → (ℕ → Option PoolHash) × Bool
unfolding project_pool_eval
write_pool redis now p =
    let (h, written) = project_pool_eval (redis p.ride_id) now p in
    (set_key redis p.ride_id h, written)

unfoldable pub project : Db → (ℕ → Option PoolHash) → ℕ → ℕ → (ℕ → Option PoolHash) × Option Pool
unfolding write_pool
project db redis now id = elim (find_pool id db.pools) [
  | none ↦ (redis, none)
  | some p ↦ ((write_pool redis now p).0, some p)
]

-- `listNonTerminalIds`.
unfoldable pub list_non_terminal_ids : Db → List ℕ
list_non_terminal_ids db =
    map (λ p. p.ride_id) (select_where (λ (p : Pool). not (is_terminal_pool p.pool_state)) db.pools)

abbrev pub one_more : Option Pool → ℕ → ℕ
one_more none n = n
one_more (some p) n = suc n

unfoldable pub project_each : Db → (ℕ → Option PoolHash) → ℕ → List ℕ → (ℕ → Option PoolHash) × ℕ
unfolding project
project_each db redis now [] = (redis, 0)
project_each db redis now (id ∷ ids) =
    let (redis', p) = project db redis now id in
    let (last, n) = project_each db redis' now ids in (last, one_more p n)

-- `rebuildAll`.
unfoldable pub rebuild_all : Db → (ℕ → Option PoolHash) → ℕ → (ℕ → Option PoolHash) × ℕ
unfolding list_non_terminal_ids project_each
rebuild_all db redis now = project_each db redis now (list_non_terminal_ids db)

-- ===== src/Pools.antt =====
-- apps/api/src/modules/matching: membership of a shared pool (pool-membership.repository.ts), with
-- the triggers and constraints of migrations/0016_pool_membership.sql that it leaves the rules to.
-- The pool's transactions are in `Pools/Lifecycle.antt`.
pub mod Lifecycle
pub mod Joins
pub mod Capacity
pub mod Kept
pub mod Runs
pub mod Sound
pub mod Invariant
pub mod Closing
use Prim.Native.String.{String}
use text.Mathlib.Text.{◌==◌ as str_eq}
use rcab.Base.{
  ℕ, suc, ◌+◌, ◌==◌, ◌&&◌, ◌||◌, not, leb, ltb, Bool, true, false, Option, none, some, List, [],
  ◌∷◌, if◌then◌else◌, is_some, find_where, select_where, update_where, exists_where, sort_by,
}
use rcab.Store.{Point, PoolState, Pool, PoolMember, Db}
use rcab.Trips.View.{find_pool}
use rcab.Guards.{Outcome, commit, abort, bumped}

pub record NewMember : Type 0 where
  pub pool_id : ℕ
  pub passenger_id : ℕ
  pub origin : Point
  pub dest : Point
  pub agreed_fare_cents : ℕ
  pub idempotency_key : Option String

pub data SeatFailure : Type 0 where
  already_member passenger_has_active_pool pool_full pool_closed idempotent_replay : SeatFailure

pub data SeatResult : Type 0 where
  seated : ℕ → SeatResult
  unseated : SeatFailure → Option ℕ → SeatResult

abbrev pub is_opened : PoolState → Bool
is_opened PoolState.opened = true
is_opened _ = false

-- Both keys are there and equal, as `=` has it in SQL.
abbrev pub same_key : Option String → Option String → Bool
same_key none k = false
same_key (some a) none = false
same_key (some a) (some b) = str_eq a b

-- A key that is truthy: there, and not the empty text.
abbrev pub is_keyed : Option String → Bool
is_keyed none = false
is_keyed (some k) = not (str_eq k "")

-- The unique constraints of `pool_member`.
pub data Constraint : Type 0 where
  member_duplicate member_idempotency member_one_active : Constraint

abbrev pub clashes : Constraint → NewMember → PoolMember → Bool
clashes member_duplicate n m = m.passenger_id == n.passenger_id && m.pool_id == n.pool_id
clashes member_idempotency n m =
    m.passenger_id == n.passenger_id && same_key m.idempotency_key n.idempotency_key
clashes member_one_active n m = m.passenger_id == n.passenger_id && m.active

-- The first constraint that the insertion violates, in the order of the indexes.
unfoldable pub violated : Db → NewMember → Option Constraint
violated db n =
    if exists_where (clashes member_duplicate n) db.members
    then some member_duplicate
    else if exists_where (clashes member_idempotency n) db.members
    then some member_idempotency
    else if exists_where (clashes member_one_active n) db.members
    then some member_one_active
    else none

-- The rows that `classifyDuplicate` reads.
abbrev pub is_rival : NewMember → PoolMember → Bool
is_rival n m =
    m.passenger_id == n.passenger_id
    && (m.pool_id == n.pool_id || m.active || same_key m.idempotency_key n.idempotency_key)

-- The answer that the constraint's name gives.
abbrev pub fallback : Constraint → NewMember → SeatResult
fallback member_idempotency n = unseated idempotent_replay none
fallback member_duplicate n =
    if is_keyed n.idempotency_key
    then unseated passenger_has_active_pool none
    else unseated already_member (some n.pool_id)
fallback member_one_active n = unseated passenger_has_active_pool none

unfoldable pub by_activity : Constraint → NewMember → List PoolMember → SeatResult
by_activity c n rows = elim (find_where (λ m. m.active) rows) [
  | some m ↦ unseated passenger_has_active_pool (some m.pool_id)
  | none ↦ fallback c n
]

unfoldable pub by_pool : Constraint → NewMember → List PoolMember → SeatResult
unfolding by_activity
by_pool c n rows = elim (find_where (λ m. m.pool_id == n.pool_id) rows) [
  | none ↦ by_activity c n rows
  | some m ↦
      if not (is_keyed n.idempotency_key) || not m.active
      then unseated already_member (some n.pool_id)
      else by_activity c n rows
]

-- `byKey`: only a truthy key is looked for.
abbrev pub has_key : NewMember → PoolMember → Bool
has_key n m = is_keyed n.idempotency_key && same_key m.idempotency_key n.idempotency_key

-- `classifyDuplicate`.
unfoldable pub classify_duplicate : Db → NewMember → Constraint → SeatResult
unfolding by_pool
classify_duplicate db n c =
    let rows = select_where (is_rival n) db.members in
    elim (find_where (has_key n) rows) [
      | some m ↦ unseated idempotent_replay (some m.pool_id)
      | none ↦ by_pool c n rows
    ]

abbrev pub new_member : ℕ → NewMember → PoolMember
new_member now n = record {
  pool_id = n.pool_id;
  passenger_id = n.passenger_id;
  origin = n.origin;
  dest = n.dest;
  agreed_fare_cents = n.agreed_fare_cents;
  idempotency_key = n.idempotency_key;
  active = true;
  joined_at = now;
}

-- The trigger on a new member: a seat more.
abbrev pub with_seat : Pool → Pool
with_seat p = bumped (record p { seat_count = suc p.seat_count })

abbrev pub seat_db : Db → ℕ → NewMember → Db
seat_db db now n = record db {
  members = new_member now n ∷ db.members;
  pools = update_where (λ p. p.ride_id == n.pool_id) with_seat db.pools;
}

-- What the column, a 32-bit integer, holds; it lies within the safe integers.
abbrev pub is_storable : ℕ → Bool
is_storable fare = leb fare 2147483647

-- `insertMember` for a pool that is there: the trigger on its state, the unique constraints, and
-- the capacity check of the trigger's update.
unfoldable pub insert_into : Db → ℕ → NewMember → Pool → Outcome SeatResult
unfolding violated classify_duplicate
insert_into db now n p =
    if is_opened p.pool_state
    then (elim (violated db n) [
      | some c ↦ commit db (classify_duplicate db n c)
      | none ↦
          if leb (suc p.seat_count) p.max_seats
          then commit (seat_db db now n) (seated (suc p.seat_count))
          else commit db (unseated pool_full none)
    ])
    else commit db (unseated pool_closed none)

unfoldable pub insert_member : Db → ℕ → NewMember → Outcome SeatResult
unfolding insert_into
insert_member db now n =
    if is_storable n.agreed_fare_cents
    then (elim (find_pool n.pool_id db.pools) [
      | none ↦ commit db (unseated pool_closed none)
      | some p ↦ insert_into db now n p
    ])
    else abort

-- MEMBER_ORDER_SQL.
abbrev pub joined_before : PoolMember → PoolMember → Bool
joined_before a b =
    ltb a.joined_at b.joined_at || a.joined_at == b.joined_at && leb a.passenger_id b.passenger_id

-- `listMembers`.
unfoldable pub list_members : Db → ℕ → List PoolMember
list_members db id = sort_by joined_before (select_where (λ m. m.pool_id == id) db.members)

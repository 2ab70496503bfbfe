-- ===== src/Idempotency.antt =====
-- apps/api/src/modules/rides/idempotency.repository.ts: the records of requests that have no row of
-- their own. A claim is up to three statements; what other requests do to the table between them is a
-- function of the table. A response is its JSON text. `now` is the clock of the database and `wall` the
-- one of the process.
pub mod Statements
pub mod Runs
pub mod Claims
use Prim.Native.String.{String}
use text.Mathlib.Text.{◌==◌ as str_eq}
use rcab.Base.{
  ℕ, ◌-◌, ◌==◌, ◌&&◌, Bool, true, false, ltb, Option, none, some, List, ◌∷◌, if◌then◌else◌,
  find_where, exists_where, update_where, delete_where,
}

pub data IdempotencyOperation : Type 0 where
  create_solo create_scheduled create_shared : IdempotencyOperation

pub record IdempotencyScope : Type 0 where
  pub principal_id : ℕ
  pub operation : IdempotencyOperation
  pub key : String

pub data RecordState : Type 0 where
  pending completed : RecordState

-- A row of `idempotency_record`; its primary key is the scope.
pub record IdempotencyRecord : Type 0 where
  pub scope : IdempotencyScope
  pub request_fingerprint : String
  pub state : RecordState
  pub resource_id : Option ℕ
  pub response : Option String
  pub created_at : ℕ
  pub completed_at : Option ℕ

abbrev pub operation_code : IdempotencyOperation → ℕ
operation_code create_solo = 0
operation_code create_scheduled = 1
operation_code create_shared = 2

-- `scopeWhere`.
abbrev pub same_scope : IdempotencyScope → IdempotencyScope → Bool
same_scope s c =
    c.principal_id == s.principal_id
    && operation_code c.operation == operation_code s.operation
    && str_eq c.key s.key

abbrev pub scope_where : IdempotencyScope → IdempotencyRecord → Bool
scope_where s r = same_scope s r.scope

abbrev pub is_unfinished : RecordState → Bool
is_unfinished pending = true
is_unfinished completed = false

-- `IdempotencyRecordRow`.
pub record RecordRow : Type 0 where
  pub request_fingerprint : String
  pub state : RecordState
  pub resource_id : Option ℕ
  pub response : Option String

pub data Claim : Type 0 where
  claimed : Claim
  reclaimed : (previous_attempt_at : ℕ) → Claim
  existing : (record_row : RecordRow) → Claim

-- `PENDING_RECLAIM_AFTER_MS`.
abbrev pub reclaim_after_ms : ℕ
reclaim_after_ms = 60000

abbrev pub new_claim : ℕ → IdempotencyScope → String → IdempotencyRecord
new_claim now s fingerprint = record {
  scope = s;
  request_fingerprint = fingerprint;
  state = pending;
  resource_id = none;
  response = none;
  created_at = now;
  completed_at = none;
}

-- `INSERT … ON CONFLICT DO NOTHING`, and whether there was no conflict.
unfoldable pub insert_claim :
    List IdempotencyRecord → ℕ → IdempotencyScope → String → List IdempotencyRecord × Bool
insert_claim t now s fingerprint =
    if exists_where (scope_where s) t then (t, false) else (new_claim now s fingerprint ∷ t, true)

abbrev pub is_stale : ℕ → String → IdempotencyRecord → Bool
is_stale wall fingerprint r =
    is_unfinished r.state
    && str_eq r.request_fingerprint fingerprint
    && ltb r.created_at (wall - reclaim_after_ms)

abbrev pub restamped : ℕ → IdempotencyRecord → IdempotencyRecord
restamped now r = record r { created_at = now }

-- `reclaimStale`; a cutoff before the first instant is 0, which no row is older than.
unfoldable pub reclaim_stale :
    List IdempotencyRecord → ℕ → ℕ → IdempotencyScope → String → List IdempotencyRecord × Option ℕ
reclaim_stale t now wall s fingerprint = elim (find_where (scope_where s) t) [
  | none ↦ (t, none)
  | some old ↦
      if is_stale wall fingerprint old
      then (update_where (scope_where s) (restamped now) t, some old.created_at)
      else (t, none)
]

abbrev pub row_of : IdempotencyRecord → RecordRow
row_of r = record {
  request_fingerprint = r.request_fingerprint;
  state = r.state;
  resource_id = r.resource_id;
  response = r.response;
}

abbrev pub in_flight : String → RecordRow
in_flight fingerprint = record {
  request_fingerprint = fingerprint;
  state = pending;
  resource_id = none;
  response = none;
}

-- `find`, and the answer of `claim` to what it finds.
unfoldable pub answer_existing : List IdempotencyRecord → IdempotencyScope → String → Claim
answer_existing t s fingerprint = elim (find_where (scope_where s) t) [
  | none ↦ existing (in_flight fingerprint)
  | some r ↦ existing (row_of r)
]

abbrev pub answered :
    (List IdempotencyRecord → List IdempotencyRecord)
    → IdempotencyScope
    → String
    → List IdempotencyRecord × Option ℕ
    → List IdempotencyRecord × Claim
answered before_find s fingerprint (t, some at) = (t, reclaimed at)
answered before_find s fingerprint (t, none) =
    (before_find t, answer_existing (before_find t) s fingerprint)

abbrev pub after_insert :
    (List IdempotencyRecord → List IdempotencyRecord)
    → (List IdempotencyRecord → List IdempotencyRecord)
    → ℕ
    → ℕ
    → IdempotencyScope
    → String
    → List IdempotencyRecord × Bool
    → List IdempotencyRecord × Claim
after_insert between before_find now wall s fingerprint (t, true) = (t, claimed)
after_insert between before_find now wall s fingerprint (t, false) =
    answered before_find s fingerprint (reclaim_stale (between t) now wall s fingerprint)

-- `claim`; others run `between` after the insertion, and `before_find` after the takeover.
unfoldable pub claim :
    (List IdempotencyRecord → List IdempotencyRecord)
    → (List IdempotencyRecord → List IdempotencyRecord)
    → List IdempotencyRecord
    → ℕ
    → ℕ
    → IdempotencyScope
    → String
    → List IdempotencyRecord × Claim
claim between before_find t now wall s fingerprint =
    after_insert between before_find now wall s fingerprint (insert_claim t now s fingerprint)

abbrev pub finished : ℕ → ℕ → String → IdempotencyRecord → IdempotencyRecord
finished wall id text r = record r {
  state = completed;
  resource_id = some id;
  response = some text;
  completed_at = some wall;
}

-- `completeIn`.
unfoldable pub complete_in :
    List IdempotencyRecord → ℕ → IdempotencyScope → ℕ → String → List IdempotencyRecord
complete_in t wall s id text = update_where (scope_where s) (finished wall id text) t

-- `release`: of a claim that is still pending.
unfoldable pub release_claim : List IdempotencyRecord → IdempotencyScope → List IdempotencyRecord
release_claim t s = delete_where (λ r. scope_where s r && is_unfinished r.state) t

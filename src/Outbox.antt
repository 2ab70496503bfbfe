-- ===== src/Outbox.antt =====
-- apps/api/src/modules/outbox: the transactional outbox. `enqueue` is outbox.writer.ts, the rest is
-- outbox.repository.ts. A statement is given the database clock; ids and lease tokens that the
-- database makes up are arguments.
pub mod Relay
pub mod Fencing
pub mod Intents
pub mod GivingUp
use rcab.Base.{
  ℕ, suc, ◌+◌, ◌*◌, ◌^◌, ◌==◌, ◌&&◌, ◌||◌, not, leb, ltb, min, Bool, true, false, Option, none,
  some, List, [], ◌∷◌, map, is_id, is_some, if◌then◌else◌, length, take, sort_by, find_by,
  find_where, select_where, update_where, exists_where,
}
use rcab.Store.{Topic, OutboxRow, Db}

abbrev pub topic_code : Topic → ℕ
topic_code Topic.ride_dispatch_requested = 0
topic_code Topic.ride_wake_schedule = 1
topic_code Topic.pool_dispatch_requested = 2
topic_code Topic.pool_expire_schedule = 3
topic_code Topic.unknown_topic = 4

-- `outboxDedupeKey`: a row is the intent for a topic, an aggregate and a generation.
abbrev pub is_intent : Topic → ℕ → ℕ → OutboxRow → Bool
is_intent topic aggregate g r =
    topic_code r.topic == topic_code topic && r.aggregate_id == aggregate && r.generation == g

abbrev pub new_row : ℕ → ℕ → Topic → ℕ → ℕ → Option ℕ → OutboxRow
new_row now id topic aggregate g instant = record {
  id = id;
  topic = topic;
  aggregate_id = aggregate;
  generation = g;
  instant = instant;
  available_at = now;
  attempts = 0;
  max_attempts = 10;
  lease_token = none;
  leased_until = none;
  processed_at = none;
  failed_at = none;
}

-- `enqueueOutbox`: at most one row for an intent.
unfoldable pub enqueue : Db → ℕ → ℕ → Topic → ℕ → ℕ → Option ℕ → Db
enqueue db now id topic aggregate g instant =
    if exists_where (is_intent topic aggregate g) db.outbox
    then db
    else record db { outbox = new_row now id topic aggregate g instant ∷ db.outbox }

-- Not yet published, and not given up.
abbrev pub is_pending : OutboxRow → Bool
is_pending r = not (is_some r.processed_at) && not (is_some r.failed_at)

-- `leased_until IS NULL OR leased_until < now()`.
abbrev pub lease_over : ℕ → Option ℕ → Bool
lease_over now none = true
lease_over now (some t) = ltb t now

abbrev pub is_due : ℕ → OutboxRow → Bool
is_due now r = is_pending r && leb r.available_at now && lease_over now r.leased_until

-- The rows that a lease takes: the `limit` due ones that have waited longest.
unfoldable pub due_rows : Db → ℕ → ℕ → List OutboxRow
due_rows db now limit =
    take limit
      (sort_by (λ r s. leb r.available_at s.available_at) (select_where (is_due now) db.outbox))

abbrev pub leased : ℕ → ℕ → (ℕ → ℕ) → OutboxRow → OutboxRow
leased now lease_ms token r = record r {
  lease_token = some (token r.id);
  leased_until = some (now + lease_ms);
  attempts = suc r.attempts;
}

abbrev pub is_among : List OutboxRow → OutboxRow → Bool
is_among rows r = exists_where (λ s. s.id == r.id) rows

-- `lease`: `token` are the database's new random tokens, one for each row.
unfoldable pub lease : Db → ℕ → (ℕ → ℕ) → ℕ → ℕ → Db × List OutboxRow
lease db now token limit lease_ms =
    let rows = due_rows db now limit in
    (
      record db { outbox = update_where (is_among rows) (leased now lease_ms token) db.outbox },
      map (leased now lease_ms token) (select_where (is_among rows) db.outbox),
    )

-- The row that the statement of a lease's holder finds.
abbrev pub is_held : ℕ → ℕ → OutboxRow → Bool
is_held id token r = r.id == id && is_id r.lease_token token && is_pending r

abbrev pub acked : ℕ → OutboxRow → OutboxRow
acked now r = record r { processed_at = some now; lease_token = none; leased_until = none }

-- `ack`.
unfoldable pub ack : Db → ℕ → ℕ → ℕ → Db × Bool
ack db now id token = (
  record db { outbox = update_where (is_held id token) (acked now) db.outbox },
  exists_where (is_held id token) db.outbox,
)

-- `least(power(2, attempts), 300) * interval '1 second'`.
abbrev pub backoff_ms : ℕ → ℕ
backoff_ms attempts = min (2 ^ attempts) 300 * 1000

abbrev pub gives_up : Bool → OutboxRow → Bool
gives_up permanent r = permanent || leb r.max_attempts r.attempts

abbrev pub failed_row : ℕ → Bool → OutboxRow → OutboxRow
failed_row now permanent r = record r {
  available_at = now + backoff_ms r.attempts;
  failed_at = if gives_up permanent r then some now else none;
  lease_token = none;
  leased_until = none;
}

pub data FailResult : Type 0 where
  retry exhausted lost_lease : FailResult

-- `fail`; the text of the error is left out.
unfoldable pub fail : Db → ℕ → ℕ → ℕ → Bool → Db × FailResult
fail db now id token permanent = elim (find_where (is_held id token) db.outbox) [
  | none ↦ (db, lost_lease)
  | some r ↦ (
    record db { outbox = update_where (is_held id token) (failed_row now permanent) db.outbox },
    if gives_up permanent r then exhausted else retry,
  )
]

abbrev pub rearmed : ℕ → OutboxRow → OutboxRow
rearmed now r = record r {
  processed_at = none;
  failed_at = none;
  attempts = 0;
  available_at = now;
  lease_token = none;
  leased_until = none;
}

-- `rearm`: a row that is still pending stays as it is. Its two statements are not one transaction:
-- `others` is what is written between them.
unfoldable pub rearm_between : (Db → Db) → Db → ℕ → Topic → ℕ → ℕ → Db × Bool
rearm_between others db now topic aggregate g =
    let hit = λ (r : OutboxRow). is_intent topic aggregate g r && not (is_pending r) in
    if exists_where hit db.outbox
    then (record db { outbox = update_where hit (rearmed now) db.outbox }, true)
    else (let db1 = others db in (db1, exists_where (is_intent topic aggregate g) db1.outbox))

-- A run of `rearm` with nothing between its statements.
unfoldable pub rearm : Db → ℕ → Topic → ℕ → ℕ → Db × Bool
unfolding rearm_between
rearm db now topic aggregate g = rearm_between (λ between. between) db now topic aggregate g

-- The counts of `stats`.
unfoldable pub stats : Db → ℕ × ℕ
stats db = (
  length (select_where is_pending db.outbox),
  length (select_where (λ r. is_some r.failed_at) db.outbox),
)

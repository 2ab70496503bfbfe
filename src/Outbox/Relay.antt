-- ===== src/Outbox/Relay.antt =====
-- apps/api/src/modules/outbox/outbox.relay.ts: one pass of the relay, `drain`. The queue and the
-- reach of the database are parameters: `World` says for each leased row whether the queue took its
-- job, when its last statement ran, and whether that statement reached the database.
use rcab.Base.{ℕ, suc, Bool, true, false, Option, none, some, List, [], ◌∷◌, if◌then◌else◌}
use rcab.Store.{Topic, OutboxRow, Db}
use rcab.Outbox.{lease, ack, fail}

pub data Delivery : Type 0 where
  delivered refused_for_now never : Delivery

-- BATCH and LEASE_MS.
abbrev pub batch : ℕ
batch = 50

abbrev pub relay_lease_ms : ℕ
relay_lease_ms = 30000

-- The job that a topic stands for.
pub data Job : Type 0 where
  start_solo start_pool : ℕ → ℕ → Job
  wake_ride : ℕ → ℕ → ℕ → Job
  expire_pool : ℕ → ℕ → Job

-- `publish`, up to the call of the queue; none is a PermanentPublishError: an unknown topic, or an
-- instant that cannot be read.
unfoldable pub job_of : OutboxRow → Option Job
job_of r = elim r.topic [
  | Topic.ride_dispatch_requested ↦ some (start_solo r.aggregate_id r.generation)
  | Topic.pool_dispatch_requested ↦ some (start_pool r.aggregate_id r.generation)
  | Topic.ride_wake_schedule ↦ elim r.instant [
    | none ↦ none
    | some at ↦ some (wake_ride r.aggregate_id at r.generation)
  ]
  | Topic.pool_expire_schedule ↦ elim r.instant [
    | none ↦ none
    | some at ↦ some (expire_pool r.aggregate_id at)
  ]
  | Topic.unknown_topic ↦ none
]

pub record World : Type 0 where
  pub takes : Job → Bool
  pub clock : OutboxRow → ℕ
  pub reaches : OutboxRow → Bool

unfoldable pub publish : World → OutboxRow → Delivery
unfolding job_of
publish w r = elim (job_of r) [
  | none ↦ never
  | some j ↦ if w.takes j then delivered else refused_for_now
]

-- The token of a row that a lease returned.
abbrev pub token_of : OutboxRow → ℕ
token_of r = elim r.lease_token [ none ↦ 0 | some t ↦ t ]

-- `recordFailure`.
unfoldable pub record_failure : World → Db → OutboxRow → Bool → Db
record_failure w db r permanent =
    if w.reaches r then (fail db (w.clock r) r.id (token_of r) permanent).0 else db

unfoldable pub acknowledge : World → Db → OutboxRow → Db
acknowledge w db r = if w.reaches r then (ack db (w.clock r) r.id (token_of r)).0 else db

pub record Drained : Type 0 where
  pub published : ℕ
  pub failed : ℕ

abbrev pub one_published : Drained → Drained
one_published d = record d { published = suc d.published }

abbrev pub one_failed : Drained → Drained
one_failed d = record d { failed = suc d.failed }

-- One row of the loop, and whether it counts as published.
unfoldable pub drain_row : World → Db → OutboxRow → Db × Bool
unfolding publish
drain_row w db r = elim (publish w r) [
  | delivered ↦ (acknowledge w db r, true)
  | refused_for_now ↦ (record_failure w db r false, false)
  | never ↦ (record_failure w db r true, false)
]

unfoldable pub drain_rows : World → Db → List OutboxRow → Db × Drained
unfolding drain_row
drain_rows w db [] = (db, record { published = 0; failed = 0 })
drain_rows w db (r ∷ rs) =
    let (db', done) = drain_row w db r in
    let (last, d) = drain_rows w db' rs in (last, if done then one_published d else one_failed d)

-- `drain`: a lease of a batch, then its rows in turn.
unfoldable pub drain : World → (ℕ → ℕ) → Db → ℕ → Db × Drained
unfolding drain_rows
drain w token db now =
    let (db', rows) = lease db now token batch relay_lease_ms in drain_rows w db' rows

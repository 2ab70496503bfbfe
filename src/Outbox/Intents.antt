-- ===== src/Outbox/Intents.antt =====
-- An intent (a topic, an aggregate, a generation) has one row at most, whatever happens to the table,
-- and is pending after it was written or re-armed.
use rcab.Base.{
  ℕ, ◌&&◌, ◌≡◌, refl, sym, ap, ◌∙◌, Bool, true, false, not, Option, List, ◌∷◌, ◌⊎◌, inl, inr, arith,
  Bool-cases, Option-cases, Memᴰ, if◌then◌else◌, exists_where, exists_where-false,
  exists_where-true, update_where, mem-update_where, update_where-mem, find_where,
}
use rcab.Store.{Topic, OutboxRow, Db}
use rcab.Outbox.{
  topic_code, is_intent, is_pending, new_row, enqueue, leased, is_among, lease, is_held, acked, ack,
  failed_row, fail, rearmed, rearm, due_rows,
}

abbrev pub SameIntent : OutboxRow → OutboxRow → Type 0
SameIntent r s =
    (topic_code r.topic ≡ topic_code s.topic)
    × (r.aggregate_id ≡ s.aggregate_id)
    × (r.generation ≡ s.generation)

-- The constraint UNIQUE (dedupe_key).
abbrev pub IsDeduped : List OutboxRow → Type 0
IsDeduped rows = (r s : OutboxRow) → Memᴰ r rows → Memᴰ s rows → SameIntent r s → r ≡ s

pub data OutboxStep (db : Db) : Db → Type 0 where
  enqueued :
      (now id : ℕ) (t : Topic) (a g : ℕ) (at : Option ℕ)
      → OutboxStep db (enqueue db now id t a g at)
  leased_out :
      (now : ℕ) (token : ℕ → ℕ) (limit ms : ℕ) → OutboxStep db (lease db now token limit ms).0
  acknowledged : (now id token : ℕ) → OutboxStep db (ack db now id token).0
  failed : (now id token : ℕ) (permanent : Bool) → OutboxStep db (fail db now id token permanent).0
  rearmed_by : (now : ℕ) (t : Topic) (a g : ℕ) → OutboxStep db (rearm db now t a g).0

pub data OutboxRun (db : Db) : Db → Type 0 where
  here : OutboxRun db db
  next : {mid last : Db} → OutboxRun db mid → OutboxStep mid last → OutboxRun db last

-- An update that keeps what a row is an intent for.
update-IsDeduped :
    (p : OutboxRow → Bool) (f : OutboxRow → OutboxRow) (rows : List OutboxRow)
    → ((r : OutboxRow) → SameIntent (f r) r)
    → IsDeduped rows
    → IsDeduped (update_where p f rows)
update-IsDeduped p f rows keeps d r s mr ms same =
    let (x, mx, e) = mem-update_where p f rows mr in
    let (y, my, h) = mem-update_where p f rows ms in
    let moved : SameIntent (if p x then f x else x) (if p y then f y else y) = rw (← e, ← h) same in
    let equal : x ≡ y = d x y mx my (
      sym (kept x).0 ∙ moved.0 ∙ (kept y).0,
      sym (kept x).1 ∙ moved.1 ∙ (kept y).1,
      sym (kept x).2 ∙ moved.2 ∙ (kept y).2,
    ) in
    e ∙ ap (λ z. if p z then f z else z) equal ∙ sym h
  where
    kept : (z : OutboxRow) → SameIntent (if p z then f z else z) z
    kept z = elim (Bool-cases (p z)) [
      | inl hit ↦ rw hit (keeps z)
      | inr miss ↦ rw miss (refl, refl, refl)
    ]

enqueue-IsDeduped :
    (db : Db) (now id : ℕ) (t : Topic) (a g : ℕ) (at : Option ℕ)
    → IsDeduped db.outbox
    → IsDeduped (enqueue db now id t a g at).outbox
unfolding enqueue
enqueue-IsDeduped db now id t a g at d =
    elim (Bool-cases (exists_where (is_intent t a g) db.outbox)) [
      | inl old ↦ rw old d
      | inr new ↦ rw new (λ r s mr ms same. added new r s mr ms same)
    ]
  where
    added :
        exists_where (is_intent t a g) db.outbox ≡ false
        → IsDeduped (new_row now id t a g at ∷ db.outbox)
    added new r s (Memᴰ.head e) (Memᴰ.head h) same = e ∙ sym h
    added new r s (Memᴰ.head e) (Memᴰ.tail m) same =
        absurd (ground (arith, exists_where-false _ db.outbox s new m, same.0, same.1, same.2, e))
    added new r s (Memᴰ.tail m) (Memᴰ.head e) same =
        absurd (ground (arith, exists_where-false _ db.outbox r new m, same.0, same.1, same.2, e))
    added new r s (Memᴰ.tail m) (Memᴰ.tail k) same = d r s m k same

OutboxStep-IsDeduped :
    {db db' : Db} → OutboxStep db db' → IsDeduped db.outbox → IsDeduped db'.outbox
unfolding lease ack fail rearm
OutboxStep-IsDeduped {db} (enqueued now id t a g at) d = enqueue-IsDeduped db now id t a g at d
OutboxStep-IsDeduped {db} (leased_out now token limit ms) d =
    update-IsDeduped (is_among (due_rows db now limit)) (leased now ms token) db.outbox
      (λ r. (refl, refl, refl)) d
OutboxStep-IsDeduped {db} (acknowledged now id token) d =
    update-IsDeduped (is_held id token) (acked now) db.outbox (λ r. (refl, refl, refl)) d
OutboxStep-IsDeduped {db} (failed now id token permanent) d =
    elim (Option-cases (find_where (is_held id token) db.outbox)) [
      | inl gone ↦ rw (gone, fail) d
      | inr (r, found) ↦
          rw (found, fail)
            (update-IsDeduped (is_held id token) (failed_row now permanent) db.outbox
              (λ r. (refl, refl, refl)) d)
    ]
OutboxStep-IsDeduped {db} (rearmed_by now t a g) d =
    elim (Bool-cases (exists_where (λ r. is_intent t a g r && not (is_pending r)) db.outbox)) [
      | inr calm ↦ rw calm d
      | inl done ↦ rw done (
          update-IsDeduped (λ r. is_intent t a g r && not (is_pending r)) (rearmed now) db.outbox
            (λ r. (refl, refl, refl)) d)
    ]

-- any sequence of enqueued intents, leases, acknowledgements, failures and re-armings keeps one
-- row at most for each topic, aggregate and generation.
pub OutboxRun-IsDeduped :
    {db db' : Db} → OutboxRun db db' → IsDeduped db.outbox → IsDeduped db'.outbox
OutboxRun-IsDeduped here d = d
OutboxRun-IsDeduped (next run step) d = OutboxStep-IsDeduped step (OutboxRun-IsDeduped run d)

-- A row of the table that stands for the intent and waits for a relay.
abbrev pub PendingIntent : Db → Topic → ℕ → ℕ → Type 0
PendingIntent db t a g =
    (r : OutboxRow) × Memᴰ r db.outbox × (is_intent t a g r ≡ true) × (is_pending r ≡ true)

pub rearm-pending :
    (db : Db) (now : ℕ) (t : Topic) (a g : ℕ)
    → (((rearm db now t a g).1 ≡ true) × PendingIntent (rearm db now t a g).0 t a g)
      ⊎ (((rearm db now t a g).1 ≡ false)
          × ((r : OutboxRow) → Memᴰ r db.outbox → is_intent t a g r ≡ false))
unfolding rearm
rearm-pending db now t a g =
    elim (Bool-cases (exists_where (λ r. is_intent t a g r && not (is_pending r)) db.outbox)) [
      | inl done ↦
          let (r, m, hit) = exists_where-true _ db.outbox done in
          rw done (
            inl (
              refl,
              (
                rearmed now r,
                update_where-mem _ (rearmed now) db.outbox m hit,
                ground (arith, hit),
                refl,
              ),
            ))
      | inr calm ↦ elim (Bool-cases (exists_where (is_intent t a g) db.outbox)) [
        | inl old ↦
            let (r, m, hit) = exists_where-true _ db.outbox old in
            rw (calm, old)
              (inl
                (refl, (r, m, hit, ground (arith, exists_where-false _ db.outbox r calm m, hit))))
        | inr new ↦ rw (calm, new) (inr (refl, λ r m. exists_where-false _ db.outbox r new m))
      ]
    ]

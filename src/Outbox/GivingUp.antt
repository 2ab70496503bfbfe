-- ===== src/Outbox/GivingUp.antt =====
-- A row whose publication failed waits before it is tried again, or is given up after its last try.
use rcab.Base.{
  ℕ, ◌+◌, ◌≡◌, ◌≤◌, refl, sym, ap, ◌∙◌, Bool, true, false, some, List, ◌⊎◌, inl, inr, arith,
  Bool-cases, Memᴰ, if◌then◌else◌, find_where, find_where-mem, update_where, mem-update_where,
}
use rcab.Store.{OutboxRow, Db}
use rcab.Outbox.{is_due, lease, is_held, gives_up, failed_row, fail, backoff_ms}
use rcab.Outbox.Fencing.{given-due}

-- The primary key of the table.
abbrev pub HasKey : List OutboxRow → Type 0
HasKey rows = (r s : OutboxRow) → Memᴰ r rows → Memᴰ s rows → r.id ≡ s.id → r ≡ s

module _ (db : Db) (now id token : ℕ) (permanent : Bool) (key : HasKey db.outbox) (r : OutboxRow)
    (found : find_where (is_held id token) db.outbox ≡ some r) where
  -- After the failure, the row with this id is the failed one.
  failed-row :
      (s : OutboxRow)
      → Memᴰ s (fail db now id token permanent).0.outbox
      → s.id ≡ id
      → s ≡ failed_row now permanent r
  unfolding fail
  failed-row s ms at = moved (rw (found, fail) at ms)
    where
      ids :
          (x : OutboxRow)
          → (is_held id token x ≡ true) ⊎ (is_held id token x ≡ false)
          → (if is_held id token x then failed_row now permanent x else x).id ≡ x.id
      ids x (inl h) = rw h refl
      ids x (inr h) = rw h refl

      moved :
          Memᴰ s (update_where (is_held id token) (failed_row now permanent) db.outbox)
          → s ≡ failed_row now permanent r
      moved m =
          let (x, mx, e) =
            mem-update_where (is_held id token) (failed_row now permanent) db.outbox m in
          let (mr, held) = find_where-mem (is_held id token) db.outbox r found in
          let kept = ids x (Bool-cases (is_held id token x)) in
          let same : x ≡ r =
            key x r mx mr
              (sym kept ∙ sym (ap (λ (z : OutboxRow). z.id) e) ∙ at ∙ sym (ground (arith, held))) in
          let hit : is_held id token x ≡ true = rw same held in
          rw hit at e ∙ ap (failed_row now permanent) same

  -- after a failure of the row that a token holds, in a table where an id names one row, a lease
  -- gives that row out only if it was not given up, and not before the time of the failure plus
  -- the backoff for its attempts.
  pub fail-rests :
      (later limit ms : ℕ) (tokens : ℕ → ℕ) (g : OutboxRow)
      → Memᴰ g (lease (fail db now id token permanent).0 later tokens limit ms).1
      → g.id ≡ id
      → (gives_up permanent r ≡ false) × (now + backoff_ms r.attempts ≤ later)
  fail-rests later limit ms tokens g mg at =
      let (s, there, due, same) =
        given-due (fail db now id token permanent).0 later limit tokens ms g mg in
      let it = failed-row s there (same ∙ at) in resting (rw it at due)
    where
      resting :
          is_due later (failed_row now permanent r) ≡ true
          → (gives_up permanent r ≡ false) × (now + backoff_ms r.attempts ≤ later)
      resting due = elim (Bool-cases (gives_up permanent r)) [
        | inl over ↦ absurd (ground (arith, rw over at due))
        | inr again ↦ (again, ground (arith, rw again at due))
      ]

-- ===== src/Outbox/Fencing.antt =====
-- Who may touch a leased row: a second relay does not get it while the lease lasts, and a relay that
-- lost its lease can neither acknowledge nor fail it.
use rcab.Base.{
  ℕ, ◌+◌, ◌==◌, ◌≡◌, ◌≢◌, ◌≤◌, refl, sym, ap, ◌∙◌, Bool, true, false, some, List, ◌⊎◌, inl, inr,
  subst, arith, Bool-cases, Memᴰ, ==_iff, find_where-miss, exists_where, exists_where-none,
  exists_where-true, mem-select_where, update_where-none, mem-update_where, mem-map, mem-take,
  mem-Perm, sort_by-Perm,
}
use rcab.Store.{OutboxRow, Db}
use rcab.Outbox.{is_due, due_rows, leased, is_among, lease, is_held, acked, ack, fail, lost_lease}

-- Rows with one id are among the same.
among-id :
    (rows : List OutboxRow) (r s : OutboxRow)
    → is_among rows r ≡ true
    → r.id ≡ s.id
    → is_among rows s ≡ true
among-id rows r s h e = subst (λ i. exists_where (λ x. x.id == i) rows ≡ true) e h

-- A row that is given out is due, and so are those that share its id.
module _ (db : Db) (now limit : ℕ) where
  due-mem :
      (r : OutboxRow) → Memᴰ r (due_rows db now limit) → Memᴰ r db.outbox × (is_due now r ≡ true)
  unfolding due_rows
  due-mem r m =
      mem-select_where (is_due now) db.outbox (mem-Perm (sort_by-Perm _ _) (mem-take limit _ m))

  module _ (token : ℕ → ℕ) (ms : ℕ) where
    -- What a lease gives out is marked with the new token, and among the due rows by its id.
    leased-among :
        (g : OutboxRow)
        → Memᴰ g (lease db now token limit ms).1
        → (is_among (due_rows db now limit) g ≡ true)
    unfolding lease
    leased-among g m =
        let (r, mr, e) = mem-map (leased now ms token) _ m in
        let hit = mem-select_where (is_among (due_rows db now limit)) db.outbox mr in rw e (hit.1)

    -- A due row stands in the table for each row that is given out.
    pub given-due :
        (g : OutboxRow)
        → Memᴰ g (lease db now token limit ms).1
        → (s : OutboxRow) × Memᴰ s db.outbox × (is_due now s ≡ true) × (s.id ≡ g.id)
    given-due g m =
        let (s, listed, e) = exists_where-true _ (due_rows db now limit) (leased-among g m) in
        let (there, due) = due-mem s listed in (s, there, due, (==_iff s.id g.id).0 e)

    -- A row of the table after the lease: taken, or as it was.
    after-lease :
        (s : OutboxRow)
        → Memᴰ s (lease db now token limit ms).0.outbox
        → ((is_among (due_rows db now limit) s ≡ true)
            × (s.lease_token ≡ some (token s.id))
            × (s.leased_until ≡ some (now + ms)))
          ⊎ ((is_among (due_rows db now limit) s ≡ false) × Memᴰ s db.outbox)
    unfolding lease
    after-lease s m =
        let (x, mx, e) =
          mem-update_where (is_among (due_rows db now limit)) (leased now ms token) db.outbox m in
        elim (Bool-cases (is_among (due_rows db now limit) x)) [
          | inl hit ↦ inl (taken x hit (rw hit at e))
          | inr miss ↦ inr (left x mx miss (rw miss at e))
        ]
      where
        taken :
            (x : OutboxRow)
            → is_among (due_rows db now limit) x ≡ true
            → s ≡ leased now ms token x
            → (is_among (due_rows db now limit) s ≡ true)
              × (s.lease_token ≡ some (token s.id))
              × (s.leased_until ≡ some (now + ms))
        taken x hit e = rw e (hit, refl, refl)

        left :
            (x : OutboxRow)
            → Memᴰ x db.outbox
            → is_among (due_rows db now limit) x ≡ false
            → s ≡ x
            → (is_among (due_rows db now limit) s ≡ false) × Memᴰ s db.outbox
        left x mx miss e = rw e (miss, mx)

-- a row that one lease gave out is not given out by another lease that runs no later than the end
-- of the first.
pub lease-apart :
    (db : Db) (now later limit limit' ms ms' : ℕ) (token token' : ℕ → ℕ)
    → later ≤ now + ms
    → (g h : OutboxRow) → Memᴰ g (lease db now token limit ms).1
    → Memᴰ h (lease (lease db now token limit ms).0 later token' limit' ms').1
    → g.id ≢ h.id
lease-apart db now later limit limit' ms ms' token token' soon g h mg mh same =
    let first = leased-among db now limit token ms g mg in
    let db1 : Db = (lease db now token limit ms).0 in
    let (s, there, due, at) = given-due db1 later limit' token' ms' h mh in
    elim (after-lease db now limit token ms s there) [
      | inl (_, _, until) ↦ ground (arith, until, due, soon)
      | inr (missing, _) ↦
          let hit = among-id (due_rows db now limit) g s first (same ∙ sym at) in
          ground (arith, hit, missing)
    ]

module _ (db : Db) (now later limit ms old : ℕ) (token : ℕ → ℕ) (g : OutboxRow)
    (mine : Memᴰ g (lease db now token limit ms).1) (other : token g.id ≢ old) where
  not_held :
      (s : OutboxRow) → Memᴰ s (lease db now token limit ms).0.outbox → is_held g.id old s ≡ false
  not_held s ms = elim (Bool-cases (s.id == g.id)) [
    | inr differs ↦ rw differs refl
    | inl same ↦
        let at : s.id ≡ g.id = (==_iff s.id g.id).0 same in
        let hit =
          among-id (due_rows db now limit) g s (leased-among db now limit token _ g mine)
            (sym at) in
        elim (after-lease db now limit token _ s ms) [
          | inl (_, by, _) ↦ ground (arith, by, at, other, ap token at)
          | inr (missing, _) ↦ absurd (ground (arith, hit, missing))
        ]
  ]

  ack-fenced :
      ack (lease db now token limit ms).0 later g.id old ≡ ((lease db now token limit ms).0, false)
  unfolding ack
  ack-fenced =
      rw
        (
          update_where-none (is_held g.id old) (acked later) _ not_held,
          exists_where-none (is_held g.id old) _ not_held,
        )
        refl

  fail-fenced :
      (permanent : Bool)
      → fail (lease db now token limit ms).0 later g.id old permanent
        ≡ ((lease db now token limit ms).0, lost_lease)
  unfolding fail
  fail-fenced permanent = rw (find_where-miss (is_held g.id old) _ not_held, fail) refl

  -- for a row that a lease gave out, an acknowledgement or a report of failure under a token other
  -- than the new one changes nothing, and is answered false and as a lost lease.
  pub lease-fenced :
      (permanent : Bool)
      → (ack (lease db now token limit ms).0 later g.id old
          ≡ ((lease db now token limit ms).0, false))
        × (fail (lease db now token limit ms).0 later g.id old permanent
            ≡ ((lease db now token limit ms).0, lost_lease))
  lease-fenced permanent = (ack-fenced, fail-fenced permanent)

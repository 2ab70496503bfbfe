-- ===== src/Tests/Queue.antt =====
-- Two intents in the outbox: one relay leases them, another comes too early, and a publication fails.
use rcab.Base.{
  ℕ, suc, ◌+◌, ◌==◌, ◌≡◌, ◌≢◌, ◌≤◌, ◌∙◌, sym, refl, Bool, true, false, Option, none, some, List, [],
  ◌∷◌, Memᴰ, arith, find_where,
}
use rcab.Store.{Topic, OutboxRow, Db}
use rcab.Outbox.{
  new_row, leased, lease, ack, fail, lost_lease, rearm, enqueue, gives_up, backoff_ms, is_held,
  failed_row,
}
use rcab.Outbox.Fencing.{lease-apart, lease-fenced}
use rcab.Outbox.GivingUp.{HasKey, fail-rests}
use rcab.Outbox.Intents.{IsDeduped, here, next, enqueued, rearmed_by, OutboxRun-IsDeduped}
use rcab.Tests.Dispatch.{empty}

abbrev tokens : ℕ → ℕ
tokens id = 7000 + id

abbrev other_tokens : ℕ → ℕ
other_tokens id = 8000 + id

abbrev first_row : OutboxRow
first_row = new_row 10 1 Topic.ride_dispatch_requested 40 1 none

abbrev second_row : OutboxRow
second_row = new_row 20 2 Topic.pool_dispatch_requested 41 3 none

abbrev queued : Db
queued = record empty { outbox = second_row ∷ first_row ∷ [] }

abbrev held : Db
held = (lease queued 100 tokens 50 30000).0

abbrev leased_first : OutboxRow
leased_first = leased 100 30000 tokens first_row

given : Memᴰ leased_first (lease queued 100 tokens 50 30000).1
unfolding lease rcab.Base.select_where rcab.Base.update_where rcab.Base.exists_where
    rcab.Base.sort_by rcab.Base.insert_by rcab.Outbox.due_rows fail rcab.Base.find_where
given = Memᴰ.tail (Memᴰ.head refl)

OutboxRun-IsDeduped_example :
    IsDeduped
      (rearm
        (enqueue
          (enqueue empty 10 1 Topic.ride_dispatch_requested 40 1 none)
          20
          2
          Topic.ride_dispatch_requested
          40
          1
          none)
        30
        Topic.ride_dispatch_requested
        40
        1).0.outbox
OutboxRun-IsDeduped_example =
    OutboxRun-IsDeduped
      (next
        (next (next here (enqueued 10 1 Topic.ride_dispatch_requested 40 1 none))
          (enqueued 20 2 Topic.ride_dispatch_requested 40 1 none))
        (rearmed_by 30 Topic.ride_dispatch_requested 40 1))
      (λ r s mr ms e. elim mr [ ])

lease-fenced_example :
    (ack held 200 1 9999 ≡ (held, false)) × (fail held 200 1 9999 true ≡ (held, lost_lease))
lease-fenced_example =
    lease-fenced queued 100 200 50 30000 9999 tokens leased_first given (λ e. ground (arith, e))
      true

-- A relay that leases one row only, and another one after it.
abbrev held_one : Db
held_one = (lease queued 100 tokens 1 30000).0

given_one : Memᴰ leased_first (lease queued 100 tokens 1 30000).1
unfolding lease rcab.Base.select_where rcab.Base.update_where rcab.Base.exists_where
    rcab.Base.sort_by rcab.Base.insert_by rcab.Outbox.due_rows fail rcab.Base.find_where
given_one = Memᴰ.head refl

abbrev leased_second : OutboxRow
leased_second = leased 200 30000 other_tokens second_row

given_next : Memᴰ leased_second (lease held_one 200 other_tokens 50 30000).1
unfolding lease rcab.Base.select_where rcab.Base.update_where rcab.Base.exists_where
    rcab.Base.sort_by rcab.Base.insert_by rcab.Outbox.due_rows fail rcab.Base.find_where
given_next = Memᴰ.head refl

lease-apart_example : leased_first.id ≢ leased_second.id
lease-apart_example =
    lease-apart queued 100 200 1 50 30000 30000 tokens other_tokens (ground arith) leased_first
      leased_second given_one given_next

held-HasKey : HasKey held.outbox
unfolding lease rcab.Base.select_where rcab.Base.update_where rcab.Base.exists_where
    rcab.Base.sort_by rcab.Base.insert_by rcab.Outbox.due_rows fail rcab.Base.find_where
held-HasKey r s (Memᴰ.head e) (Memᴰ.head h) same = e ∙ sym h
held-HasKey r s (Memᴰ.head e) (Memᴰ.tail (Memᴰ.head h)) same = absurd (ground (arith, e, h, same))
held-HasKey r s (Memᴰ.head e) (Memᴰ.tail (Memᴰ.tail m)) same = elim m [ ]
held-HasKey r s (Memᴰ.tail (Memᴰ.head e)) (Memᴰ.tail (Memᴰ.tail m)) same = elim m [ ]
held-HasKey r s (Memᴰ.tail (Memᴰ.tail m)) k same = elim m [ ]
held-HasKey r s (Memᴰ.tail (Memᴰ.head e)) (Memᴰ.head h) same = absurd (ground (arith, e, h, same))
held-HasKey r s (Memᴰ.tail (Memᴰ.head e)) (Memᴰ.tail (Memᴰ.head h)) same = e ∙ sym h

held_found : find_where (is_held 1 7001) held.outbox ≡ some leased_first
unfolding lease rcab.Base.select_where rcab.Base.update_where rcab.Base.exists_where
    rcab.Base.sort_by rcab.Base.insert_by rcab.Outbox.due_rows fail rcab.Base.find_where
held_found = refl

abbrev leased_again : OutboxRow
leased_again = leased 3000 30000 other_tokens (failed_row 200 false leased_first)

given_again : Memᴰ leased_again (lease (fail held 200 1 7001 false).0 3000 other_tokens 50 30000).1
unfolding lease rcab.Base.select_where rcab.Base.update_where rcab.Base.exists_where
    rcab.Base.sort_by rcab.Base.insert_by rcab.Outbox.due_rows fail rcab.Base.find_where
given_again = Memᴰ.head refl

fail-rests_example : (gives_up false leased_first ≡ false) × (200 + backoff_ms 1 ≤ 3000)
fail-rests_example =
    fail-rests held 200 1 7001 false held-HasKey leased_first held_found 3000 50 30000 other_tokens
      leased_again given_again refl

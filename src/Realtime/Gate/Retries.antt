-- ===== src/Realtime/Gate/Retries.antt =====
-- apps/web/src/lib/booking/ws.ts: `makeSubscriber`, which asks the server again while it is unavailable.
-- The answer to a request comes once at most. Timers only say that they are due.
pub mod Bound
use rcab.Base.{
  ℕ, suc, zero, ◌+◌, ◌≤◌, ◌<◌, ◌≡◌, ◌≢◌, refl, sym, ap, subst, ◌∙◌, ◌==◌, ◌&&◌, ◌||◌, not, leb,
  Bool, true, false, Option, none, some, List, [], ◌∷◌, Memᴰ, mem-cons_cases, inl, inr, Bool-cases,
  Option-cases, is_id, is_some, ==_refl, if◌then◌else◌, delete_where, mem-delete_where, arith,
}

-- SUBSCRIBE_MAX_TRIES.
abbrev pub subscribe_max_tries : ℕ
subscribe_max_tries = 5

-- SUBSCRIBE_BACKOFF_MS, by the try before the wait.
abbrev pub subscribe_backoff_ms : ℕ → ℕ
subscribe_backoff_ms n =
    if n == 1 then 1000 else if n == 2 then 2000 else if n == 3 then 4000 else 8000

-- The `n`-th request of a run.
pub record Attempt : Type 0 where
  pub n : ℕ
  pub run : ℕ
  pub id : ℕ

pub record Subscriber : Type 0 where
  pub closed : Bool
  pub run : ℕ
  -- The attempt whose refusal set the timer, and the wait.
  pub timer : Option (Attempt × ℕ)
  pub sent : List Attempt
  pub unanswered : List Attempt

-- A subscriber that has not run yet.
abbrev pub new_subscriber : Subscriber
new_subscriber = record { closed = false; run = 0; timer = none; sent = []; unanswered = [] }

-- `attempt`, where `current` is what the gate follows.
unfoldable pub attempt : Subscriber → Option ℕ → ℕ → ℕ → Subscriber
attempt s none n run = s
attempt s (some id) n run =
    if s.closed || not (run == s.run)
    then s
    else (let a : Attempt = record { n = n; run = run; id = id } in
        record s { sent = a ∷ s.sent; unanswered = a ∷ s.unanswered })

abbrev pub is_attempt : Attempt → Attempt → Bool
is_attempt a b = b.n == a.n && b.run == a.run

-- The callback of a request; `unavailable` says that the answer is that refusal.
unfoldable pub answered : Subscriber → Option ℕ → Attempt → Bool → Subscriber
answered s current a unavailable =
    let s' = record s { unanswered = delete_where (is_attempt a) s.unanswered } in
    if s.closed || not (a.run == s.run) || not (is_id current a.id)
    then s'
    else if not unavailable || leb subscribe_max_tries a.n
    then s'
    else record s' { timer = some (a, subscribe_backoff_ms a.n) }

-- The timer fires.
unfoldable pub fired : Subscriber → Option ℕ → Bool → Subscriber
unfolding attempt
fired s current connected = elim s.timer [
  | none ↦ s
  | some t ↦
      let s' = record s { timer = none } in
      if s.closed || not (t.0.run == s.run) || not connected || not (is_id current t.0.id)
      then s'
      else attempt s' current (suc t.0.n) t.0.run
]

-- `now` and `cancel`.
unfoldable pub subscribe_now : Subscriber → Option ℕ → Subscriber
unfolding attempt
subscribe_now s current =
    let s' = record s { timer = none; run = suc s.run } in attempt s' current 1 s'.run

unfoldable pub cancel_subscription : Subscriber → Subscriber
cancel_subscription s = record s { timer = none; run = suc s.run }

-- What happens to a subscriber, of which `close` is the last.
pub data SubscriberRun : Subscriber → Type 0 where
  at_first : SubscriberRun new_subscriber
  asked :
      {s : Subscriber} (current : Option ℕ)
      → SubscriberRun s
      → SubscriberRun (subscribe_now s current)
  told :
      {s : Subscriber} (current : Option ℕ) (a : Attempt) (unavailable : Bool)
      → Memᴰ a s.unanswered
      → SubscriberRun s
      → SubscriberRun (answered s current a unavailable)
  woken :
      {s : Subscriber} (current : Option ℕ) (connected : Bool)
      → SubscriberRun s
      → SubscriberRun (fired s current connected)
  cancelled : {s : Subscriber} → SubscriberRun s → SubscriberRun (cancel_subscription s)
  closed_ :
      {s : Subscriber}
      → SubscriberRun s
      → SubscriberRun (record (cancel_subscription s) { closed = true })

-- The requests of a run.
unfoldable pub tries : ℕ → List Attempt → ℕ
tries run [] = 0
tries run (a ∷ more) = let rest = tries run more in if a.run == run then suc rest else rest

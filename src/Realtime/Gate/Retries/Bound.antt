-- ===== src/Realtime/Gate/Retries/Bound.antt =====
-- A subscription asks a bounded number of times.
use rcab.Base.{
  ℕ, suc, ◌≤◌, ◌<◌, ◌≡◌, ◌≢◌, refl, sym, ap, subst, ◌∙◌, ◌==◌, ◌||◌, not, leb, Bool, true, false,
  Option, none, some, ◌∷◌, Memᴰ, mem-cons_cases, inl, inr, Bool-cases, Option-cases, is_id, ==_refl,
  if◌then◌else◌, delete_where, mem-delete_where, arith,
}
use rcab.Realtime.Gate.Retries.{
  subscribe_max_tries, Attempt, Subscriber, attempt, is_attempt, answered, fired, subscribe_now,
  cancel_subscription, SubscriberRun, at_first, asked, told, woken, cancelled, closed_, tries,
}

record IsBounded (s : Subscriber) : Type 0 where
  few : (run : ℕ) → tries run s.sent ≤ subscribe_max_tries
  later_none : (run : ℕ) → s.run < run → tries run s.sent ≡ 0
  waits :
      (a : Attempt)
      → Memᴰ a s.unanswered
      → a.run ≡ s.run
      → (a.n ≡ tries s.run s.sent) × (s.timer ≡ none)
  counts :
      (t : Attempt × ℕ)
      → s.timer ≡ some t
      → (t.0.run ≡ s.run) × (t.0.n ≡ tries s.run s.sent) × (t.0.n < subscribe_max_tries)
  past : (a : Attempt) → Memᴰ a s.unanswered → a.run ≤ s.run

-- One more request of the run, when none of it waits.
module _ (s : Subscriber) (v : IsBounded s) (idle : s.timer ≡ none)
    (free : (a : Attempt) → Memᴰ a s.unanswered → a.run ≢ s.run) where
  abbrev asked_once : ℕ → ℕ → Subscriber
  asked_once id n =
      let a : Attempt = record { n = n; run = s.run; id = id } in
      record s { sent = a ∷ s.sent; unanswered = a ∷ s.unanswered }

  attempt-IsBounded :
      (current : Option ℕ) (n : ℕ)
      → n ≡ suc (tries s.run s.sent)
      → tries s.run s.sent < subscribe_max_tries
      → IsBounded (attempt s current n s.run)
  unfolding attempt tries
  attempt-IsBounded none n next few = v
  attempt-IsBounded (some id) n next few = elim (Bool-cases s.closed) [
    | inl over ↦
        subst (λ b. IsBounded (if b || not (s.run == s.run) then s else asked_once id n)) (sym over)
          v
    | inr going ↦
        rw (going, ==_refl s.run)
          (record {
            few = λ run. elim (Bool-cases (s.run == run)) [
              | inl same ↦
                  let e : s.run ≡ run = ground arith in
                  rw same (ground (arith, ap (λ r. tries r s.sent) e, few))
              | inr other ↦ rw other (v.few run)
            ];
            later_none = λ run above.
                let miss : (s.run == run) ≡ false = ground arith in
                rw miss (v.later_none run above);
            waits = λ a m e. elim (mem-cons_cases m) [
              | inl new ↦ (rw (==_refl s.run) (ap (λ (x : Attempt). x.n) new ∙ next), idle)
              | inr old ↦ absurd (free a old e)
            ];
            counts = λ t e. cc;
            past = λ a m. elim (mem-cons_cases m) [
              | inl new ↦ let e : a.run ≡ s.run = ap (λ (x : Attempt). x.run) new in ground arith
              | inr old ↦ v.past a old
            ];
          })
  ]

-- The run that comes next has sent nothing.
cancel_subscription-IsBounded : (s : Subscriber) → IsBounded s → IsBounded (cancel_subscription s)
unfolding cancel_subscription
cancel_subscription-IsBounded s v = record {
  few = v.few;
  later_none = λ run above. v.later_none run (ground arith);
  waits = λ a m e. let le = v.past a m in absurd (ground arith);
  counts = λ t e. cc;
  past = λ a m. let le = v.past a m in ground arith;
}

subscribe_now-IsBounded :
    (s : Subscriber) (current : Option ℕ) → IsBounded s → IsBounded (subscribe_now s current)
unfolding subscribe_now cancel_subscription
subscribe_now-IsBounded s current v =
    let none_yet = v.later_none (suc s.run) (ground arith) in
    attempt-IsBounded (cancel_subscription s) (cancel_subscription-IsBounded s v) refl
      (λ a m e. let le = v.past a m in ground arith) current 1 (ground arith) (ground arith)

-- Less waits.
fewer-IsBounded :
    (s : Subscriber) (p : Attempt → Bool)
    → IsBounded s
    → IsBounded (record s { unanswered = delete_where p s.unanswered })
fewer-IsBounded s p v = record {
  few = v.few;
  later_none = v.later_none;
  waits = λ a m e. v.waits a (mem-delete_where p s.unanswered m).0 e;
  counts = v.counts;
  past = λ a m. v.past a (mem-delete_where p s.unanswered m).0;
}

-- What a timer is set to.
set_by : {u : Attempt × ℕ} (t : Attempt × ℕ) → some u ≡ some t → t ≡ u
set_by t e = cc

-- A property of both branches.
if_either : {A : Type 0} (P : A → Type 0) (b : Bool) (x y : A) → P x → P y → P (if b then x else y)
if_either P true x y p q = p
if_either P false x y p q = q

answered-IsBounded :
    (s : Subscriber) (current : Option ℕ) (a : Attempt) (unavailable : Bool)
    → Memᴰ a s.unanswered
    → IsBounded s
    → IsBounded (answered s current a unavailable)
unfolding answered
answered-IsBounded s current a unavailable m v =
    let fewer = fewer-IsBounded s (is_attempt a) v in
    elim (Bool-cases (s.closed || not (a.run == s.run) || not (is_id current a.id))) [
      | inl moved ↦ rw moved fewer
      | inr here ↦ rw here (elim (Bool-cases (not unavailable || leb subscribe_max_tries a.n)) [
        | inl over ↦ rw over fewer
        | inr again ↦
            let run : a.run ≡ s.run = ground arith in
            let (count, idle) = v.waits a m run in
            rw again (record {
              few = v.few;
              later_none = v.later_none;
              waits = λ b mb e.
                  let (kept, miss) = mem-delete_where (is_attempt a) s.unanswered mb in
                  let (same, _) = v.waits b kept e in
                  absurd (ground (arith, miss, same, count, e, run));
              counts = λ t e.
                  let at : t.0 ≡ a = ap (λ (x : Attempt × ℕ). x.0) (set_by t e) in
                  let few : a.n < subscribe_max_tries = ground (arith, again) in
                  let n : t.0.n ≡ a.n = ap (λ (x : Attempt). x.n) at in
                  (ap (λ (x : Attempt). x.run) at ∙ run, n ∙ count, rw n few);
              past = λ b mb. v.past b (mem-delete_where (is_attempt a) s.unanswered mb).0;
            })
      ])
    ]

fired-IsBounded :
    (s : Subscriber) (current : Option ℕ) (connected : Bool)
    → IsBounded s
    → IsBounded (fired s current connected)
unfolding fired
fired-IsBounded s current connected v = elim (Option-cases s.timer) [
  | inl idle ↦ rw (idle, fired) v
  | inr (t, e) ↦
      let (run, count, few) = v.counts t e in
      let free : (a : Attempt) → Memᴰ a s.unanswered → a.run ≢ s.run =
        λ a m same. let (_, idle) = v.waits a m same in ground (arith, idle, e) in
      let stopped : IsBounded (record s { timer = none }) = record {
        few = v.few;
        later_none = v.later_none;
        waits = λ a m same. absurd (free a m same);
        counts = λ u h. cc;
        past = v.past;
      } in
      let next : IsBounded (attempt (record s { timer = none }) current (suc t.0.n) t.0.run) =
        rw run (
          attempt-IsBounded (record s { timer = none }) stopped refl free current (suc t.0.n)
            (ap suc count) (rw (← count) few)) in
      rw (e, fired) (if_either IsBounded _ _ _ stopped next)
]

SubscriberRun-IsBounded : {s : Subscriber} → SubscriberRun s → IsBounded s
unfolding tries
SubscriberRun-IsBounded at_first = record {
  few = λ run. ground arith;
  later_none = λ run above. refl;
  waits = λ a m e. elim m [ ];
  counts = λ t e. cc;
  past = λ a m. elim m [ ];
}
SubscriberRun-IsBounded (asked {s} current run) =
    subscribe_now-IsBounded s current (SubscriberRun-IsBounded run)
SubscriberRun-IsBounded (told {s} current a unavailable m run) =
    answered-IsBounded s current a unavailable m (SubscriberRun-IsBounded run)
SubscriberRun-IsBounded (woken {s} current connected run) =
    fired-IsBounded s current connected (SubscriberRun-IsBounded run)
SubscriberRun-IsBounded (cancelled {s} run) =
    cancel_subscription-IsBounded s (SubscriberRun-IsBounded run)
SubscriberRun-IsBounded (closed_ {s} run) =
    let v = cancel_subscription-IsBounded s (SubscriberRun-IsBounded run) in
    record {
      few = v.few;
      later_none = v.later_none;
      waits = v.waits;
      counts = v.counts;
      past = v.past;
    }

-- however often a server answers that it is unavailable, a subscription asks at most five times
-- before the client subscribes anew.
pub SubscriberRun-tries :
    {s : Subscriber} (run : ℕ) → SubscriberRun s → tries run s.sent ≤ subscribe_max_tries
SubscriberRun-tries run r = (SubscriberRun-IsBounded r).few run

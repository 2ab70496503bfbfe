-- ===== src/Idempotency/Claims.antt =====
-- Who owns a scope, and what a client hears who repeats a request.
use Prim.Native.String.{String}
use rcab.Base.{
  ℕ, ◌+◌, ◌≤◌, ◌||◌, ◌≡◌, ◌≢◌, refl, ap, ◌∙◌, Bool, true, false, not, leb, some, List, inl, inr,
  arith, Bool-cases, Option-cases, find_where, exists_where,
}
use rcab.Idempotency.{
  IdempotencyScope, IdempotencyRecord, RecordState, Claim, existing, scope_where, is_unfinished,
  is_stale, restamped, reclaim_after_ms, new_claim, insert_claim, reclaim_stale, answer_existing,
  answered, claim, complete_in, finished, row_of,
}
use rcab.Idempotency.Statements.{Has, same_scope_refl, update-hit}
use rcab.Idempotency.Runs.{RecordRun, IsStable, RecordRun-Has, claim-told}

-- The owner's row: completed, or not older than the claim.
abbrev IsOwned : ℕ → IdempotencyRecord → Type 0
IsOwned from r = (not (is_unfinished r.state) || leb from r.created_at) ≡ true

abbrev pub wins : Claim → Bool
wins (existing r) = false
wins _ = true

-- The rows that `complete_in` leaves.
abbrev IsAnswer : String → ℕ → String → IdempotencyRecord → Type 0
IsAnswer fingerprint id text r = row_of r ≡ record {
  request_fingerprint = fingerprint;
  state = RecordState.completed;
  resource_id = some id;
  response = some text;
}

IsAnswer-IsStable :
    (Releases : IdempotencyScope → Type 0) (from : ℕ) (s : IdempotencyScope)
    (fingerprint text : String) (id : ℕ)
    → IsStable (λ c. c ≢ s) Releases from s (IsAnswer fingerprint id text)
IsAnswer-IsStable Releases from s fingerprint text id = record {
  restamp = λ now wall f r late old p. ground (arith, old, ap (λ z. is_unfinished z.state) p);
  complete = λ wall i tx r other p. absurd (other refl);
  release = λ r may p. ap (λ z. is_unfinished z.state) p;
}

IsOwned-IsStable :
    (Completes : IdempotencyScope → Type 0) (from : ℕ) (s : IdempotencyScope)
    → IsStable Completes (λ c. c ≢ s) from s (IsOwned from)
IsOwned-IsStable Completes from s = record {
  restamp = λ now wall f r late old p. ground (arith, late);
  complete = λ wall i tx r other p. refl;
  release = λ r other p. absurd (other refl);
}

complete_in-IsAnswer :
    (s : IdempotencyScope) (t : List IdempotencyRecord) (r : IdempotencyRecord) (done id : ℕ)
    (text : String)
    → find_where (scope_where s) t ≡ some r
    → Has (IsAnswer r.request_fingerprint id text) s (complete_in t done s id text)
unfolding complete_in
complete_in-IsAnswer s t r done id text found =
    (finished done id text r, update-hit s t (finished done id text) (λ x. refl) r found, refl)

answer_existing-loses :
    (t : List IdempotencyRecord) (s : IdempotencyScope) (fingerprint : String)
    → wins (answer_existing t s fingerprint) ≡ false
unfolding answer_existing
answer_existing-loses t s fingerprint = elim (Option-cases (find_where (scope_where s) t)) [
  | inl gone ↦ rw (gone, answer_existing) refl
  | inr (r, found) ↦ rw (found, answer_existing) refl
]

-- A request that is told that it has the scope, does.
module _ (s : IdempotencyScope) (before_find : List IdempotencyRecord → List IdempotencyRecord)
    (now wall : ℕ) (fingerprint : String) where
  takeover-IsOwned :
      (t : List IdempotencyRecord)
      → wins (answered before_find s fingerprint (reclaim_stale t now wall s fingerprint)).1 ≡ true
      → Has
          (IsOwned now)
          s
          (answered before_find s fingerprint (reclaim_stale t now wall s fingerprint)).0
  unfolding reclaim_stale
  takeover-IsOwned t won = elim (Option-cases (find_where (scope_where s) t)) [
    | inl gone ↦ absurd (lost t (rw (gone, reclaim_stale) at won))
    | inr (r, found) ↦ elim (Bool-cases (is_stale wall fingerprint r)) [
      | inr live ↦ absurd (lost t (rw (found, live, reclaim_stale) at won))
      | inl stale ↦
          rw (found, stale, reclaim_stale)
            (restamped now r, update-hit s t (restamped now) (λ x. refl) r found, ground arith)
    ]
  ]
    where
      lost :
          (t : List IdempotencyRecord)
          → wins (answer_existing (before_find t) s fingerprint) ≡ true
          → ⊥
      lost t e = absurd (ground (arith, e, answer_existing-loses (before_find t) s fingerprint))

  claim-IsOwned :
      (between : List IdempotencyRecord → List IdempotencyRecord) (t : List IdempotencyRecord)
      → wins (claim between before_find t now wall s fingerprint).1 ≡ true
      → Has (IsOwned now) s (claim between before_find t now wall s fingerprint).0
  unfolding claim insert_claim find_where
  claim-IsOwned between t won = elim (Bool-cases (exists_where (scope_where s) t)) [
    | inl old ↦ rw old (takeover-IsOwned (between t) (rw old at won))
    | inr new ↦ rw new (new_claim now s fingerprint, rw (same_scope_refl s) refl, ground arith)
  ]

-- once the record of a scope was completed, any claim of the scope is answered with that resource
-- and response, whatever others do before and during the claim except to complete the scope again.
pub complete_in-replayed :
    (Releases : IdempotencyScope → Type 0) (s : IdempotencyScope) (t t' : List IdempotencyRecord)
    (r : IdempotencyRecord) (done id from : ℕ) (text : String)
    (between before_find : List IdempotencyRecord → List IdempotencyRecord) (now wall : ℕ)
    (fingerprint : String)
    → find_where (scope_where s) t ≡ some r
    → RecordRun (λ c. c ≢ s) Releases from (complete_in t done s id text) t'
    → ((x : List IdempotencyRecord) → RecordRun (λ c. c ≢ s) Releases from x (between x))
    → ((x : List IdempotencyRecord) → RecordRun (λ c. c ≢ s) Releases from x (before_find x))
    → (claim between before_find t' now wall s fingerprint).1
      ≡ existing (record {
        request_fingerprint = r.request_fingerprint;
        state = RecordState.completed;
        resource_id = some id;
        response = some text;
      })
complete_in-replayed Releases s t t' r done id from text between before_find now wall fingerprint
      found run runs runs' =
    let k = IsAnswer-IsStable Releases from s r.request_fingerprint text id in
    let P = IsAnswer r.request_fingerprint id text in
    let start : Has P s (complete_in t done s id text) =
      complete_in-IsAnswer s t r done id text found in
    let (u, told, p) =
      claim-told s P k between before_find runs runs' now wall fingerprint
        (λ x p. ground (arith, ap (λ z. is_unfinished z.state) p)) t'
        (RecordRun-Has s P k run start) in
    told ∙ ap existing p

-- after a request got its scope, by a first claim or by a takeover, no other claim of the scope
-- wins whose process clock is at most 60 seconds past it, whatever others do in between except to
-- release the scope.
pub claim-once :
    (Completes : IdempotencyScope → Type 0) (s : IdempotencyScope) (t t' : List IdempotencyRecord)
    (between before_find between' before_find' : List IdempotencyRecord → List IdempotencyRecord)
    (now wall now' wall' : ℕ) (fingerprint fingerprint' : String)
    → wins (claim between before_find t now wall s fingerprint).1 ≡ true
    → RecordRun Completes (λ c. c ≢ s) now (claim between before_find t now wall s fingerprint).0 t'
    → ((x : List IdempotencyRecord) → RecordRun Completes (λ c. c ≢ s) now x (between' x))
    → ((x : List IdempotencyRecord) → RecordRun Completes (λ c. c ≢ s) now x (before_find' x))
    → wall' ≤ now + reclaim_after_ms
    → wins (claim between' before_find' t' now' wall' s fingerprint').1 ≡ false
claim-once Completes s t t' between before_find between' before_find' now wall now' wall'
      fingerprint fingerprint' won run runs runs' soon =
    let k = IsOwned-IsStable Completes now s in
    let (u, told, p) =
      claim-told s (IsOwned now) k between' before_find' runs runs' now' wall' fingerprint'
        (λ x p. ground (arith, p, soon)) t'
        (RecordRun-Has s (IsOwned now) k run
          (claim-IsOwned s before_find now wall fingerprint between t won)) in
    rw told refl

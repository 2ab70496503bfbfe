-- ===== src/Idempotency/Runs.antt =====
-- What requests do to the table one after the other, and what they keep of a row.
use Prim.Native.String.{String}
use rcab.Base.{ℕ, ◌≤◌, ◌≡◌, refl, ap, ◌∙◌, true, false, none, some, List, find_where, exists_where}
use rcab.Idempotency.{
  IdempotencyScope, IdempotencyRecord, existing, scope_where, is_unfinished, is_stale, restamped,
  insert_claim, reclaim_stale, answer_existing, answered, after_insert, claim, complete_in,
  release_claim, finished, row_of,
}
use rcab.Idempotency.Statements.{
  Has, find_where-exists, insert_claim-Has, reclaim_stale-Has, complete_in-Has, release_claim-Has,
}

-- A statement of any request, at the time `from` or later; only scopes in `Completes` are completed
-- and only scopes in `Releases` are released.
pub data RecordStep (Completes Releases : IdempotencyScope → Type 0) (from : ℕ)
    (t : List IdempotencyRecord) : List IdempotencyRecord → Type 0 where
  inserted :
      (now : ℕ) (c : IdempotencyScope) (fingerprint : String)
      → RecordStep Completes Releases from t (insert_claim t now c fingerprint).0
  taken_over :
      (now wall : ℕ) (c : IdempotencyScope) (fingerprint : String)
      → from ≤ now
      → RecordStep Completes Releases from t (reclaim_stale t now wall c fingerprint).0
  completed :
      (wall : ℕ) (c : IdempotencyScope) (id : ℕ) (text : String)
      → Completes c
      → RecordStep Completes Releases from t (complete_in t wall c id text)
  released :
      (c : IdempotencyScope) → Releases c → RecordStep Completes Releases from t (release_claim t c)

pub data RecordRun (Completes Releases : IdempotencyScope → Type 0) (from : ℕ)
    (t : List IdempotencyRecord) : List IdempotencyRecord → Type 0 where
  no_step : RecordRun Completes Releases from t t
  then_step :
      {mid last : List IdempotencyRecord}
      → RecordRun Completes Releases from t mid
      → RecordStep Completes Releases from mid last
      → RecordRun Completes Releases from t last

-- A property of the row of `s` that the statements keep.
pub record IsStable (Completes Releases : IdempotencyScope → Type 0) (from : ℕ)
    (s : IdempotencyScope) (P : IdempotencyRecord → Type 0) : Type 0 where
  pub restamp :
      (now wall : ℕ) (fingerprint : String) (r : IdempotencyRecord)
      → from ≤ now
      → is_stale wall fingerprint r ≡ true
      → P r
      → P (restamped now r)
  pub complete :
      (wall id : ℕ) (text : String) (r : IdempotencyRecord)
      → Completes s
      → P r
      → P (finished wall id text r)
  pub release : (r : IdempotencyRecord) → Releases s → P r → is_unfinished r.state ≡ false

insert_claim-old :
    (t : List IdempotencyRecord) (now : ℕ) (s : IdempotencyScope) (fingerprint : String)
    → exists_where (scope_where s) t ≡ true
    → insert_claim t now s fingerprint ≡ (t, false)
unfolding insert_claim
insert_claim-old t now s fingerprint there = rw there refl

reclaim_stale-kept :
    (t : List IdempotencyRecord) (now wall : ℕ) (s : IdempotencyScope) (fingerprint : String)
    (r : IdempotencyRecord)
    → find_where (scope_where s) t ≡ some r
    → is_stale wall fingerprint r ≡ false
    → reclaim_stale t now wall s fingerprint ≡ (t, none)
unfolding reclaim_stale
reclaim_stale-kept t now wall s fingerprint r found live = rw (found, reclaim_stale) (rw live refl)

answer_existing-row :
    (t : List IdempotencyRecord) (s : IdempotencyScope) (fingerprint : String)
    (r : IdempotencyRecord)
    → find_where (scope_where s) t ≡ some r
    → answer_existing t s fingerprint ≡ existing (row_of r)
unfolding answer_existing
answer_existing-row t s fingerprint r found = rw (found, answer_existing) refl

module _ {Completes Releases : IdempotencyScope → Type 0} {from : ℕ} (s : IdempotencyScope)
    (P : IdempotencyRecord → Type 0) (k : IsStable Completes Releases from s P) where
  RecordStep-Has :
      {t t' : List IdempotencyRecord}
      → RecordStep Completes Releases from t t'
      → Has P s t
      → Has P s t'
  RecordStep-Has {t} (inserted now c fingerprint) h = insert_claim-Has P s c t now fingerprint h
  RecordStep-Has {t} (taken_over now wall c fingerprint late) h =
      reclaim_stale-Has P s c t now wall fingerprint
        (λ r same old p. k.restamp now wall fingerprint r late old p) h
  RecordStep-Has {t} (completed wall c id text may) h =
      complete_in-Has P s c t wall id text
        (λ r same p. k.complete wall id text r (rw same at may) p) h
  RecordStep-Has {t} (released c may) h =
      release_claim-Has P s c t (λ r same p. k.release r (rw same at may) p) h

  pub RecordRun-Has :
      {t t' : List IdempotencyRecord}
      → RecordRun Completes Releases from t t'
      → Has P s t
      → Has P s t'
  RecordRun-Has no_step h = h
  RecordRun-Has (then_step run step) h = RecordStep-Has step (RecordRun-Has run h)

  -- A claim that finds a row it may not take over tells the row that is there in the end.
  pub claim-told :
      (between before_find : List IdempotencyRecord → List IdempotencyRecord)
      → ((x : List IdempotencyRecord) → RecordRun Completes Releases from x (between x))
      → ((x : List IdempotencyRecord) → RecordRun Completes Releases from x (before_find x))
      → (now wall : ℕ) (fingerprint : String)
      → ((r : IdempotencyRecord) → P r → is_stale wall fingerprint r ≡ false)
      → (t : List IdempotencyRecord) → Has P s t
      → (r : IdempotencyRecord) × ((claim between before_find t now wall s fingerprint).1
          ≡ existing (row_of r))
        × P r
  unfolding claim
  claim-told between before_find runs runs' now wall fingerprint fresh t (r, found, p) =
      let there : exists_where (scope_where s) t ≡ true =
        find_where-exists (scope_where s) t r found in
      let (q, at, pq) = RecordRun-Has (runs t) (r, found, p) in
      let (u, last, pu) = RecordRun-Has (runs' (between t)) (q, at, pq) in
      (
        u,
        ap (λ x. x.1)
              (ap (after_insert between before_find now wall s fingerprint)
                  (insert_claim-old t now s fingerprint there)
                ∙ ap (answered before_find s fingerprint)
                    (reclaim_stale-kept (between t) now wall s fingerprint q at (fresh q pq)))
            ∙ answer_existing-row (before_find (between t)) s fingerprint u last,
        pu,
      )

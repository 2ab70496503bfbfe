-- ===== src/Idempotency/Statements.antt =====
-- What the statements on idempotency records do to the row of one scope.
use Prim.Native.String.{String}
use mathlib.Core.Option
use text.Mathlib.TextEquality.{eq_iff}
use rcab.Base.{
  ℕ, ◌&&◌, ◌≡◌, refl, sym, ap, subst, ◌∙◌, Bool, true, false, some, List, [], ◌∷◌, ◌⊎◌, inl, inr,
  arith, Bool-cases, Option-cases, if◌then◌else◌, find_where, update_where, delete_where,
  exists_where, ==_refl, find_where-mem,
}
use rcab.Idempotency.{
  IdempotencyScope, IdempotencyOperation, IdempotencyRecord, operation_code, same_scope,
  scope_where, is_unfinished, is_stale, insert_claim, restamped, reclaim_stale, finished,
  complete_in, release_claim,
}

module _ {ℓ} {A : Type ℓ} where
  pub find_where-update_where :
      (p q : A → Bool) (f : A → A)
      → ((x : A) → p (f x) ≡ p x)
      → (xs : List A)
      → find_where p (update_where q f xs)
        ≡ Option.map (λ x. if q x then f x else x) (find_where p xs)
  unfolding find_where update_where
  find_where-update_where p q f keeps [] = refl
  find_where-update_where p q f keeps (x ∷ xs) = elim (Bool-cases (p x)) [
    | inl hit ↦ rw (same x, hit) refl
    | inr miss ↦ rw (same x, miss) (find_where-update_where p q f keeps xs)
  ]
    where
      same : (x : A) → p (if q x then f x else x) ≡ p x
      same x = elim (Bool-cases (q x)) [ inl h ↦ rw h (keeps x) | inr h ↦ rw h refl ]

  pub find_where-delete_where :
      (p q : A → Bool) (xs : List A) (x : A)
      → find_where p xs ≡ some x
      → q x ≡ false
      → find_where p (delete_where q xs) ≡ some x
  unfolding find_where delete_where
  find_where-delete_where p q [] x e stays = e
  find_where-delete_where p q (y ∷ ys) x e stays = elim (Bool-cases (p y)) [
    | inl hit ↦ rw (this_one hit, stays, sym (this_one hit), hit) refl
    | inr miss ↦ elim (Bool-cases (q y)) [
      | inl goes ↦ rw goes (find_where-delete_where p q ys x (rw miss at e) stays)
      | inr left ↦ rw (left, miss) (find_where-delete_where p q ys x (rw miss at e) stays)
    ]
  ]
    where
      this_one : p y ≡ true → y ≡ x
      this_one hit = cc

  pub find_where-exists :
      (p : A → Bool) (xs : List A) (x : A) → find_where p xs ≡ some x → exists_where p xs ≡ true
  unfolding find_where exists_where
  find_where-exists p [] x e = cc
  find_where-exists p (y ∷ ys) x e = elim (Bool-cases (p y)) [
    | inl hit ↦ rw hit refl
    | inr miss ↦ rw miss (find_where-exists p ys x (rw miss at e))
  ]

pub same_scope_refl : (s : IdempotencyScope) → same_scope s s ≡ true
same_scope_refl s =
    rw (==_refl s.principal_id, ==_refl (operation_code s.operation), (eq_iff s.key s.key).1 refl)
      refl

operation_code-injective :
    (a b : IdempotencyOperation) → operation_code a ≡ operation_code b → a ≡ b
operation_code-injective IdempotencyOperation.create_solo IdempotencyOperation.create_solo e = refl
operation_code-injective IdempotencyOperation.create_solo IdempotencyOperation.create_scheduled e =
    absurd (omega arith)
operation_code-injective IdempotencyOperation.create_solo IdempotencyOperation.create_shared e =
    absurd (omega arith)
operation_code-injective IdempotencyOperation.create_scheduled IdempotencyOperation.create_solo e =
    absurd (omega arith)
operation_code-injective IdempotencyOperation.create_scheduled IdempotencyOperation.create_scheduled
      e =
    refl
operation_code-injective IdempotencyOperation.create_scheduled IdempotencyOperation.create_shared
      e =
    absurd (omega arith)
operation_code-injective IdempotencyOperation.create_shared IdempotencyOperation.create_solo e =
    absurd (omega arith)
operation_code-injective IdempotencyOperation.create_shared IdempotencyOperation.create_scheduled
      e =
    absurd (omega arith)
operation_code-injective IdempotencyOperation.create_shared IdempotencyOperation.create_shared e =
    refl

pub same_scope_equal : (s c : IdempotencyScope) → same_scope s c ≡ true → c ≡ s
same_scope_equal s c e =
    of_parts (ground (arith, e))
      (operation_code-injective c.operation s.operation (ground (arith, e)))
      ((eq_iff c.key s.key).0 (ground (arith, e)))
  where
    of_parts : c.principal_id ≡ s.principal_id → c.operation ≡ s.operation → c.key ≡ s.key → c ≡ s
    of_parts p o k = cc

-- The row of a scope is there and has the property `P`.
abbrev pub Has : (IdempotencyRecord → Type 0) → IdempotencyScope → List IdempotencyRecord → Type 0
Has P s t = (r : IdempotencyRecord) × (find_where (scope_where s) t ≡ some r) × P r

module _ (c : IdempotencyScope) (t : List IdempotencyRecord) where
  pub update-hit :
      (f : IdempotencyRecord → IdempotencyRecord)
      → ((r : IdempotencyRecord) → (f r).scope ≡ r.scope)
      → (r : IdempotencyRecord) → find_where (scope_where c) t ≡ some r
      → find_where (scope_where c) (update_where (scope_where c) f t) ≡ some (f r)
  update-hit f scope r found =
      let hit : scope_where c r ≡ true = (find_where-mem (scope_where c) t r found).1 in
      find_where-update_where (scope_where c) (scope_where c) f (λ x. ap (same_scope c) (scope x)) t
      ∙ ap (Option.map (λ x. if scope_where c x then f x else x)) found
      ∙ rw hit refl

module _ (P : IdempotencyRecord → Type 0) (s c : IdempotencyScope)
    (t : List IdempotencyRecord) where
  pub insert_claim-Has :
      (now : ℕ) (fingerprint : String) → Has P s t → Has P s (insert_claim t now c fingerprint).0
  unfolding insert_claim find_where
  insert_claim-Has now fingerprint (r, found, p) =
      elim (Bool-cases (exists_where (scope_where c) t)) [
        | inl old ↦ rw old (r, found, p)
        | inr new ↦ elim (Bool-cases (same_scope s c)) [
          | inl same ↦ absurd (clash new (same_scope_equal s c same))
          | inr other ↦ rw (new, other) (r, found, p)
        ]
      ]
    where
      clash : exists_where (scope_where c) t ≡ false → c ≡ s → ⊥
      clash new e =
          let there : exists_where (scope_where c) t ≡ true =
            rw e (find_where-exists (scope_where s) t r found) in
          cc

  one :
      (r : IdempotencyRecord)
      → find_where (scope_where s) t ≡ some r
      → scope_where c r ≡ true
      → c ≡ s
  one r found hit =
      sym (same_scope_equal c r.scope hit)
      ∙ same_scope_equal s r.scope (find_where-mem (scope_where s) t r found).1

  update-Has :
      (f : IdempotencyRecord → IdempotencyRecord)
      → ((r : IdempotencyRecord) → (f r).scope ≡ r.scope)
      → ((r : IdempotencyRecord) → find_where (scope_where s) t ≡ some r → c ≡ s → P r → P (f r))
      → Has P s t
      → Has P s (update_where (scope_where c) f t)
  update-Has f scope keeps (r, found, p) = (
    (if scope_where c r then f r else r),
    find_where-update_where (scope_where s) (scope_where c) f (λ x. ap (same_scope s) (scope x)) t
        ∙ ap (Option.map (λ x. if scope_where c x then f x else x)) found,
    after (Bool-cases (scope_where c r)),
  )
    where
      after :
          (scope_where c r ≡ true) ⊎ (scope_where c r ≡ false)
          → P (if scope_where c r then f r else r)
      after (inl hit) = rw hit (keeps r found (one r found hit) p)
      after (inr miss) = rw miss p

  pub reclaim_stale-Has :
      (now wall : ℕ) (fingerprint : String)
      → ((r : IdempotencyRecord)
          → c ≡ s
          → is_stale wall fingerprint r ≡ true
          → P r
          → P (restamped now r))
      → Has P s t
      → Has P s (reclaim_stale t now wall c fingerprint).0
  unfolding reclaim_stale
  reclaim_stale-Has now wall fingerprint keeps (r, found, p) =
      elim (Option-cases (find_where (scope_where c) t)) [
        | inl gone ↦ rw (gone, reclaim_stale) (r, found, p)
        | inr (old, at) ↦ elim (Bool-cases (is_stale wall fingerprint old)) [
          | inr live ↦ rw (at, live, reclaim_stale) (r, found, p)
          | inl stale ↦
              rw (at, stale, reclaim_stale)
                (update-Has (restamped now) (λ x. refl)
                  (λ x there e. keeps x e (same old at stale x there e)) (r, found, p))
        ]
      ]
    where
      same :
          (old : IdempotencyRecord)
          → find_where (scope_where c) t ≡ some old
          → is_stale wall fingerprint old ≡ true
          → (x : IdempotencyRecord) → find_where (scope_where s) t ≡ some x
          → c ≡ s
          → is_stale wall fingerprint x ≡ true
      same old at stale x there e =
          let here : find_where (scope_where c) t ≡ some x = rw e there in
          let equal : old ≡ x = cc in subst (λ z. is_stale wall fingerprint z ≡ true) equal stale

  pub complete_in-Has :
      (wall id : ℕ) (text : String)
      → ((r : IdempotencyRecord) → c ≡ s → P r → P (finished wall id text r))
      → Has P s t
      → Has P s (complete_in t wall c id text)
  unfolding complete_in
  complete_in-Has wall id text keeps h =
      update-Has (finished wall id text) (λ r. refl) (λ r found. keeps r) h

  pub release_claim-Has :
      ((r : IdempotencyRecord) → c ≡ s → P r → is_unfinished r.state ≡ false)
      → Has P s t
      → Has P s (release_claim t c)
  unfolding release_claim
  release_claim-Has settled (r, found, p) = (
    r,
    find_where-delete_where (scope_where s) (λ x. scope_where c x && is_unfinished x.state) t r
        found (stays (Bool-cases (scope_where c r))),
    p,
  )
    where
      stays :
          (scope_where c r ≡ true) ⊎ (scope_where c r ≡ false)
          → (scope_where c r && is_unfinished r.state) ≡ false
      stays (inl hit) = rw (hit, settled r (one r found hit) p) refl
      stays (inr miss) = rw miss refl

-- ===== src/Base/MoreRows.antt =====
-- Laws of the row operations: what a selection gives, and an update that hits nothing.
use Prim.Native.Nat.{ℕ}
use mathlib.Core.Path.{◌≡◌, refl, sym, ap, ◌∙◌}
use mathlib.Core.Bool.{Bool, true, false}
use mathlib.Core.Option
use mathlib.Core.Option.{Option, none, some}
use mathlib.Core.Logic.{inl, inr}
use mathlib.Core.List.{List, [], ◌∷◌, map, Memᴰ}
use rcab.Base.Tests.{if◌then◌else◌, Bool-cases, Option-cases}
use rcab.Base.Rows.{select_where, update_where, exists_where, find_where, find_by}
use rcab.Base.RowLaws.{exists_where-false, find_by-update_where}

module _ {ℓ} {A : Type ℓ} where
  pub mem-map {ℓ'} :
      {B : Type ℓ'} (f : A → B) (xs : List A) {y : B}
      → Memᴰ y (map f xs)
      → (x : A) × Memᴰ x xs × (y ≡ f x)
  mem-map f [] m = elim m [ ]
  mem-map f (x ∷ xs) (Memᴰ.head e) = (x, Memᴰ.head refl, e)
  mem-map f (x ∷ xs) (Memᴰ.tail m) = let (y, my, e) = mem-map f xs m in (y, Memᴰ.tail my, e)

  pub map-mem {ℓ'} :
      {B : Type ℓ'} (f : A → B) (xs : List A) {x : A} → Memᴰ x xs → Memᴰ (f x) (map f xs)
  map-mem f [] m = elim m [ ]
  map-mem f (x ∷ xs) (Memᴰ.head e) = Memᴰ.head (ap f e)
  map-mem f (x ∷ xs) (Memᴰ.tail m) = Memᴰ.tail (map-mem f xs m)

  pub mem-select_where :
      (p : A → Bool) (xs : List A) {x : A} → Memᴰ x (select_where p xs) → Memᴰ x xs × (p x ≡ true)
  unfolding select_where
  mem-select_where p [] m = elim m [ ]
  mem-select_where p (y ∷ xs) {x} m =
      let ih = mem-select_where p xs {x = x} in
      elim (Bool-cases (p y)) [
        | inl hit ↦ split hit ih (rw hit at m)
        | inr miss ↦ let s = ih (rw miss at m) in (Memᴰ.tail s.0, s.1)
      ]
    where
      split :
          p y ≡ true
          → (Memᴰ x (select_where p xs) → Memᴰ x xs × (p x ≡ true))
          → Memᴰ x (y ∷ select_where p xs)
          → Memᴰ x (y ∷ xs) × (p x ≡ true)
      split hit ih (Memᴰ.head e) = (Memᴰ.head e, rw e hit)
      split hit ih (Memᴰ.tail r) = let s = ih r in (Memᴰ.tail s.0, s.1)

  pub select_where-mem :
      (p : A → Bool) (xs : List A) {x : A} → Memᴰ x xs → p x ≡ true → Memᴰ x (select_where p xs)
  unfolding select_where
  select_where-mem p [] m h = elim m [ ]
  select_where-mem p (y ∷ xs) (Memᴰ.head e) h =
      let hit : p y ≡ true = rw (← e) h in rw hit (Memᴰ.head e)
  select_where-mem p (y ∷ xs) (Memᴰ.tail m) h = elim (Bool-cases (p y)) [
    | inl hit ↦ rw hit (Memᴰ.tail (select_where-mem p xs m h))
    | inr miss ↦ rw miss (select_where-mem p xs m h)
  ]

  pub exists_where-true :
      (p : A → Bool) (xs : List A) → exists_where p xs ≡ true → (x : A) × Memᴰ x xs × (p x ≡ true)
  unfolding exists_where
  exists_where-true p [] e = cc
  exists_where-true p (x ∷ xs) e = elim (Bool-cases (p x)) [
    | inl hit ↦ (x, Memᴰ.head refl, hit)
    | inr miss ↦ let (y, m, h) = exists_where-true p xs (rw miss at e) in (y, Memᴰ.tail m, h)
  ]

  pub exists_where-mem :
      (p : A → Bool) (xs : List A) (x : A) → Memᴰ x xs → p x ≡ true → exists_where p xs ≡ true
  exists_where-mem p xs x m h = elim (Bool-cases (exists_where p xs)) [
    | inl hit ↦ hit
    | inr gone ↦ let miss = exists_where-false p xs x gone m in cc
  ]

  pub update_where-none :
      (p : A → Bool) (f : A → A) (xs : List A)
      → ((x : A) → Memᴰ x xs → p x ≡ false)
      → update_where p f xs ≡ xs
  unfolding update_where
  update_where-none p f [] none_hit = refl
  update_where-none p f (x ∷ xs) none_hit =
      rw (none_hit x (Memᴰ.head refl))
        (ap (λ ys. x ∷ ys) (update_where-none p f xs (λ y m. none_hit y (Memᴰ.tail m))))

  pub update_where-mem :
      (p : A → Bool) (f : A → A) (xs : List A) {x : A}
      → Memᴰ x xs
      → p x ≡ true
      → Memᴰ (f x) (update_where p f xs)
  unfolding update_where
  update_where-mem p f [] m h = elim m [ ]
  update_where-mem p f (x ∷ xs) (Memᴰ.head e) h =
      let hit : p x ≡ true = rw (← e) h in rw hit (Memᴰ.head (ap f e))
  update_where-mem p f (x ∷ xs) (Memᴰ.tail m) h = Memᴰ.tail (update_where-mem p f xs m h)

  pub update_where-mem_if :
      (p : A → Bool) (f : A → A) (xs : List A) {x : A}
      → Memᴰ x xs
      → Memᴰ (if p x then f x else x) (update_where p f xs)
  unfolding update_where
  update_where-mem_if p f [] m = elim m [ ]
  update_where-mem_if p f (y ∷ xs) (Memᴰ.head e) = Memᴰ.head (ap (λ z. if p z then f z else z) e)
  update_where-mem_if p f (y ∷ xs) (Memᴰ.tail m) = Memᴰ.tail (update_where-mem_if p f xs m)

  pub find_where-miss :
      (p : A → Bool) (xs : List A) → ((x : A) → Memᴰ x xs → p x ≡ false) → find_where p xs ≡ none
  unfolding find_where
  find_where-miss p [] none_hit = refl
  find_where-miss p (x ∷ xs) none_hit =
      rw (none_hit x (Memᴰ.head refl)) (find_where-miss p xs (λ y m. none_hit y (Memᴰ.tail m)))

  module _ (key : A → ℕ) (p : A → Bool) (f : A → A) (same : (x : A) → key (f x) ≡ key x) (k : ℕ)
      (xs : List A) where
    after_update :
        (o : Option A)
        → find_by key k xs ≡ o
        → find_by key k (update_where p f xs) ≡ Option.map (λ x. if p x then f x else x) o
    after_update o e =
        find_by-update_where key p f same k xs ∙ ap (Option.map (λ x. if p x then f x else x)) e

    pub find_by-update_inv :
        (y : A)
        → find_by key k (update_where p f xs) ≡ some y
        → (x : A) × (find_by key k xs ≡ some x) × (y ≡ (if p x then f x else x))
    find_by-update_inv y e = elim (Option-cases (find_by key k xs)) [
      | inl gone ↦ absurd (none_some (sym (after_update none gone) ∙ e))
      | inr (x, found) ↦ (x, found, some_inv (sym e ∙ after_update (some x) found))
    ]
      where
        none_some : ◌≡◌ {A = Option A} none (some y) → ⊥
        none_some h = cc

        some_inv : {z : A} → some y ≡ some z → y ≡ z
        some_inv h = cc

    pub find_by-update_none : find_by key k (update_where p f xs) ≡ none → find_by key k xs ≡ none
    find_by-update_none e = elim (Option-cases (find_by key k xs)) [
      | inl gone ↦ gone
      | inr (x, found) ↦ absurd (some_none (sym (after_update (some x) found) ∙ e))
    ]
      where
        some_none : {z : A} → some z ≡ none → ⊥
        some_none h = cc

-- A function that keeps what the selection looks at goes through it.
pub select_where-map {ℓ ℓ'} :
    {A : Type ℓ} {B : Type ℓ'} (f : A → B) (p : A → Bool) (q : B → Bool)
    → ((a : A) → q (f a) ≡ p a)
    → (xs : List A) → select_where q (map f xs) ≡ map f (select_where p xs)
unfolding select_where
select_where-map f p q same [] = refl
select_where-map f p q same (x ∷ xs) =
    let ih = select_where-map f p q same xs in
    rw (same x) (elim (Bool-cases (p x)) [
      | inl hit ↦ rw hit (ap (λ ys. f x ∷ ys) ih)
      | inr miss ↦ rw miss ih
    ])

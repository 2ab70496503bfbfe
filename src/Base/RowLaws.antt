-- ===== src/Base/RowLaws.antt =====
-- What the table operations of `Base/Rows.antt` do to the rows that are read afterwards.
use Prim.Native.Nat.{ℕ}
use mathlib.Core.Path.{◌≡◌, refl, sym, ◌∙◌, ap}
use mathlib.Core.Logic.{◌≢◌, ◌⊎◌, inl, inr}
use mathlib.Core.Bool.{Bool, true, false}
use mathlib.Core.Option.{Option, none, some}
use mathlib.Core.Option
use mathlib.Core.List.{List, [], ◌∷◌, Memᴰ}
use native.Mathlib.Omega.{arith}
use rcab.Base.Tests.{if◌then◌else◌, Bool-cases, ◌==◌}
use rcab.Base.Rows.{find_where, update_where, delete_where, exists_where, find_by}

module _ {ℓ} {A : Type ℓ} where
  pub mem-cons_cases : {a b : A} {xs : List A} → Memᴰ a (b ∷ xs) → (a ≡ b) ⊎ Memᴰ a xs
  mem-cons_cases (Memᴰ.head e) = inl e
  mem-cons_cases (Memᴰ.tail m) = inr m

  pub find_where-mem :
      (p : A → Bool) (xs : List A) (x : A) → find_where p xs ≡ some x → Memᴰ x xs × (p x ≡ true)
  unfolding find_where
  find_where-mem p [] x e = cc
  find_where-mem p (y ∷ xs) x e = elim (Bool-cases (p y)) [
    | inl hit ↦ let same : y ≡ x = ground (arith, hit) in (Memᴰ.head (sym same), rw (← same) hit)
    | inr miss ↦
        let rest = find_where-mem p xs x (ground (arith, miss)) in (Memᴰ.tail rest.0, rest.1)
  ]

  pub find_where-none :
      (p : A → Bool) (xs : List A) (x : A) → find_where p xs ≡ none → Memᴰ x xs → p x ≡ false
  unfolding find_where
  find_where-none p [] x e m = elim m [ ]
  find_where-none p (y ∷ xs) x e (Memᴰ.head same) = ground arith
  find_where-none p (y ∷ xs) x e (Memᴰ.tail m) = find_where-none p xs x (ground arith) m

  pub exists_where-false :
      (p : A → Bool) (xs : List A) (x : A) → exists_where p xs ≡ false → Memᴰ x xs → p x ≡ false
  unfolding exists_where
  exists_where-false p [] x e m = elim m [ ]
  exists_where-false p (y ∷ xs) x e (Memᴰ.head same) = ground arith
  exists_where-false p (y ∷ xs) x e (Memᴰ.tail m) = exists_where-false p xs x (ground arith) m

  pub exists_where-none :
      (p : A → Bool) (xs : List A) → ((x : A) → Memᴰ x xs → p x ≡ false) → exists_where p xs ≡ false
  unfolding exists_where
  exists_where-none p [] all = refl
  exists_where-none p (x ∷ xs) all =
      rw (all x (Memᴰ.head refl)) (exists_where-none p xs (λ y m. all y (Memᴰ.tail m)))

  pub mem-update_where :
      (p : A → Bool) (f : A → A) (xs : List A) {y : A}
      → Memᴰ y (update_where p f xs)
      → (x : A) × Memᴰ x xs × (y ≡ (if p x then f x else x))
  unfolding update_where
  mem-update_where p f [] m = elim m [ ]
  mem-update_where p f (x ∷ xs) (Memᴰ.head e) = (x, Memᴰ.head refl, e)
  mem-update_where p f (x ∷ xs) (Memᴰ.tail m) =
      let (z, mz, e) = mem-update_where p f xs m in (z, Memᴰ.tail mz, e)

  pub mem-delete_where :
      (p : A → Bool) (xs : List A) {y : A} → Memᴰ y (delete_where p xs) → Memᴰ y xs × (p y ≡ false)
  unfolding delete_where
  mem-delete_where p [] m = elim m [ ]
  mem-delete_where p (x ∷ xs) {y} m =
      let ih = mem-delete_where p xs {y = y} in
      elim (Bool-cases (p x)) [
        | inl gone ↦ let r = ih (rw gone at m) in (Memᴰ.tail r.0, r.1)
        | inr kept ↦ split kept ih (rw kept at m)
      ]
    where
      split :
          p x ≡ false
          → (Memᴰ y (delete_where p xs) → Memᴰ y xs × (p y ≡ false))
          → Memᴰ y (x ∷ delete_where p xs)
          → Memᴰ y (x ∷ xs) × (p y ≡ false)
      split kept ih (Memᴰ.head e) = (Memᴰ.head e, rw e kept)
      split kept ih (Memᴰ.tail r) = let s = ih r in (Memᴰ.tail s.0, s.1)

  pub delete_where-mem :
      (p : A → Bool) (xs : List A) {y : A} → Memᴰ y xs → p y ≡ false → Memᴰ y (delete_where p xs)
  unfolding delete_where
  delete_where-mem p [] m h = elim m [ ]
  delete_where-mem p (x ∷ xs) (Memᴰ.head e) h =
      let kept : p x ≡ false = rw (← e) h in rw kept (Memᴰ.head e)
  delete_where-mem p (x ∷ xs) {y} (Memᴰ.tail m) h = elim (Bool-cases (p x)) [
    | inl gone ↦ rw gone (delete_where-mem p xs m h)
    | inr kept ↦ rw kept (Memᴰ.tail (delete_where-mem p xs m h))
  ]

  -- An update that keeps the key changes the row that the key finds, if its test holds of that row.
  pub find_by-update_where :
      (key : A → ℕ) (p : A → Bool) (f : A → A)
      → ((x : A) → key (f x) ≡ key x)
      → (k : ℕ) (xs : List A)
      → find_by key k (update_where p f xs)
        ≡ Option.map (λ x. if p x then f x else x) (find_by key k xs)
  unfolding find_by find_where update_where
  find_by-update_where key p f same k [] = refl
  find_by-update_where key p f same k (x ∷ xs) =
      ground (arith, same x, find_by-update_where key p f same k xs)

  pub find_by-key :
      (key : A → ℕ) (k : ℕ) (xs : List A) (x : A) → find_by key k xs ≡ some x → key x ≡ k
  unfolding find_by
  find_by-key key k xs x e =
      let (_, hit) = find_where-mem (λ y. key y == k) xs x e in ground (arith, hit)

  pub find_by-mem :
      (key : A → ℕ) (k : ℕ) (xs : List A) (x : A) → find_by key k xs ≡ some x → Memᴰ x xs
  unfolding find_by
  find_by-mem key k xs x e = (find_where-mem (λ y. key y == k) xs x e).0

  -- The row of the key, after an update whose test holds of it.
  pub find_by-update_hit :
      (key : A → ℕ) (p : A → Bool) (f : A → A)
      → ((x : A) → key (f x) ≡ key x)
      → (k : ℕ) (xs : List A) (x : A) → find_by key k xs ≡ some x
      → p x ≡ true
      → find_by key k (update_where p f xs) ≡ some (f x)
  find_by-update_hit key p f same k xs x e hit =
      find_by-update_where key p f same k xs
      ∙ ap (Option.map (λ y. if p y then f y else y)) e
      ∙ rw hit

  -- An update of the rows under one key leaves the rows under any other.
  pub find_by-update_other :
      (key : A → ℕ) (p : A → Bool) (f : A → A)
      → ((x : A) → key (f x) ≡ key x)
      → (j k : ℕ) (xs : List A) → ((x : A) → p x ≡ true → key x ≡ j)
      → k ≢ j
      → find_by key k (update_where p f xs) ≡ find_by key k xs
  unfolding find_by find_where update_where
  find_by-update_other key p f same j k [] only other = refl
  find_by-update_other key p f same j k (x ∷ xs) only other =
      ground (arith, same x, only x, find_by-update_other key p f same j k xs only other)

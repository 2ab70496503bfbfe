-- ===== src/Base/Sort.antt =====
-- `ORDER BY` and `Array.prototype.sort` as insertion sort: stable, as the latter is, and like the
-- former a choice among the orders that the comparison allows. `LIMIT` is `take`.
use Prim.Native.Nat.{ℕ, zero, suc, ◌≤◌}
use mathlib.Core.Path.{◌≡◌, refl, ap, ◌∙◌}
use mathlib.Core.Bool.{Bool}
use mathlib.Core.Logic.{inl, inr}
use mathlib.Core.List.{List, [], ◌∷◌, map, Memᴰ, Permᴰ}
use mathlib.Core.List.Permᴰ
use native.Mathlib.Omega.{arith}
use rcab.Base.Tests.{if◌then◌else◌, Bool-cases}
use rcab.Base.Rows.{length}

module _ {ℓ} {A : Type ℓ} where
  abbrev pub take : ℕ → List A → List A
  take zero xs = []
  take (suc n) [] = []
  take (suc n) (x ∷ xs) = x ∷ take n xs

  unfoldable pub insert_by : (A → A → Bool) → A → List A → List A
  insert_by le a [] = a ∷ []
  insert_by le a (x ∷ xs) = let rest = insert_by le a xs in if le a x then a ∷ x ∷ xs else x ∷ rest

  unfoldable pub sort_by : (A → A → Bool) → List A → List A
  unfolding insert_by
  sort_by le [] = []
  sort_by le (x ∷ xs) = insert_by le x (sort_by le xs)

  insert_by-Perm : (le : A → A → Bool) (a : A) (xs : List A) → Permᴰ (insert_by le a xs) (a ∷ xs)
  unfolding insert_by
  insert_by-Perm le a [] = Permᴰ.refl (a ∷ [])
  insert_by-Perm le a (x ∷ xs) = elim (Bool-cases (le a x)) [
    | inl before ↦ rw before (Permᴰ.refl (a ∷ x ∷ xs))
    | inr behind ↦
        rw behind (Permᴰ.trans (Permᴰ.cons refl (insert_by-Perm le a xs)) (Permᴰ.swap refl refl))
  ]

  pub sort_by-Perm : (le : A → A → Bool) (xs : List A) → Permᴰ (sort_by le xs) xs
  unfolding sort_by
  sort_by-Perm le [] = Permᴰ.nil
  sort_by-Perm le (x ∷ xs) =
      Permᴰ.trans (insert_by-Perm le x (sort_by le xs)) (Permᴰ.cons refl (sort_by-Perm le xs))

  pub length-Perm : {xs ys : List A} → Permᴰ xs ys → length xs ≡ length ys
  length-Perm Permᴰ.nil = refl
  length-Perm (Permᴰ.cons e d) = ap suc (length-Perm d)
  length-Perm (Permᴰ.swap e f) = refl
  length-Perm (Permᴰ.trans d e) = length-Perm d ∙ length-Perm e

  pub mem-Perm : {xs ys : List A} {a : A} → Permᴰ xs ys → Memᴰ a xs → Memᴰ a ys
  mem-Perm Permᴰ.nil m = m
  mem-Perm (Permᴰ.cons e d) (Memᴰ.head h) = Memᴰ.head (h ∙ e)
  mem-Perm (Permᴰ.cons e d) (Memᴰ.tail m) = Memᴰ.tail (mem-Perm d m)
  mem-Perm (Permᴰ.swap e f) (Memᴰ.head h) = Memᴰ.tail (Memᴰ.head (h ∙ e))
  mem-Perm (Permᴰ.swap e f) (Memᴰ.tail (Memᴰ.head h)) = Memᴰ.head (h ∙ f)
  mem-Perm (Permᴰ.swap e f) (Memᴰ.tail (Memᴰ.tail m)) = Memᴰ.tail (Memᴰ.tail m)
  mem-Perm (Permᴰ.trans d e) m = mem-Perm e (mem-Perm d m)

  pub length-take : (n : ℕ) (xs : List A) → length (take n xs) ≤ n
  length-take zero xs = ground arith
  length-take (suc n) [] = ground arith
  length-take (suc n) (x ∷ xs) = let ih = length-take n xs in ground arith

  pub mem-take : (n : ℕ) (xs : List A) {a : A} → Memᴰ a (take n xs) → Memᴰ a xs
  mem-take zero xs m = elim m [ ]
  mem-take (suc n) [] m = elim m [ ]
  mem-take (suc n) (x ∷ xs) (Memᴰ.head e) = Memᴰ.head e
  mem-take (suc n) (x ∷ xs) (Memᴰ.tail m) = Memᴰ.tail (mem-take n xs m)

-- A function that keeps what the order looks at goes through the sort.
module _ {ℓ ℓ'} {A : Type ℓ} {B : Type ℓ'} (f : A → B) (le : A → A → Bool) (le' : B → B → Bool)
    (same : (a b : A) → le' (f a) (f b) ≡ le a b) where
  insert_by-map : (a : A) (xs : List A) → insert_by le' (f a) (map f xs) ≡ map f (insert_by le a xs)
  unfolding insert_by
  insert_by-map a [] = refl
  insert_by-map a (x ∷ xs) =
      let ih = insert_by-map a xs in
      rw (same a x) (elim (Bool-cases (le a x)) [
        | inl before ↦ rw before refl
        | inr behind ↦ rw behind (ap (λ ys. f x ∷ ys) ih)
      ])

  pub sort_by-map : (xs : List A) → sort_by le' (map f xs) ≡ map f (sort_by le xs)
  unfolding sort_by
  sort_by-map [] = refl
  sort_by-map (x ∷ xs) = ap (insert_by le' (f x)) (sort_by-map xs) ∙ insert_by-map x (sort_by le xs)

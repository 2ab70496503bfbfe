-- ===== src/Assignments/Walk.antt =====
-- The walk over the guards names the trip of each driver in its presence.
use rcab.Base.{
  ℕ, ◌==◌, ◌≡◌, refl, sym, ap, ◌∙◌, Bool, true, false, Option, none, some, List, [], ◌∷◌, inl, inr,
  Memᴰ, Bool-cases, Option-cases, ==_iff, is_id, subst,
}
use rcab.Store.{trip_id, Guard, Db}
use rcab.Guards.{find_by_driver}
use rcab.Assignments.{
  DriverStates, current_of, project_current_ride, still_assigned, counted, project_guard,
  project_guards,
}

-- The trip of the driver by the guards.
unfoldable pub target : Db → ℕ → Option ℕ
target db driver = elim (find_by_driver db driver) [ none ↦ none | some g ↦ some (trip_id g.trip) ]

-- Where the driver has a presence, it names that trip or none.
abbrev pub IsCurrent : Db → DriverStates → ℕ → Type 0
IsCurrent db s driver = (field : Option ℕ) → s driver ≡ some field → field ≡ target db driver

pub no_some : {A : Type 0} {a : A} → none ≡ some a → ⊥
no_some h = cc

pub inner : {A : Type 0} {a b : A} → some a ≡ some b → a ≡ b
inner h = cc

pub counted-states : (r : DriverStates × Bool) (n : ℕ) → (counted r n).0 ≡ r.0
counted-states (s, true) n = refl
counted-states (s, false) n = refl

module _ (db : Db) (d : ℕ) where
  pub assigned-target : (t : ℕ) → still_assigned db d t ≡ true → target db d ≡ some t
  unfolding still_assigned target
  assigned-target t e = elim (Option-cases (find_by_driver db d)) [
    | inl gone ↦ absurd (lost (rw (still_assigned, gone) at e))
    | inr (g, found) ↦
        let same : trip_id g.trip ≡ t =
          (==_iff (trip_id g.trip) t).0 (rw (still_assigned, found) at e) in
        rw (target, found, same) refl
  ]
    where
      lost : false ≡ true → ⊥
      lost h = cc

  pub target-assigned : (t : ℕ) → target db d ≡ some t → still_assigned db d t ≡ true
  unfolding still_assigned target
  target-assigned t e = elim (Option-cases (find_by_driver db d)) [
    | inl gone ↦ absurd (no_some (rw (target, gone) at e))
    | inr (g, found) ↦
        rw (still_assigned, found) ((==_iff (trip_id g.trip) t).1 (inner (rw (target, found) at e)))
  ]

  -- One guard of the walk, for this driver and the others.
  project_guard-other :
      (g : Guard) (s : DriverStates) (n : ℕ)
      → (d == g.driver_id) ≡ false
      → (project_guard db g (s, n)).0 d ≡ s d
  unfolding project_guard project_current_ride
  project_guard-other g s n miss =
      elim (Bool-cases (is_id (current_of (s g.driver_id)) (trip_id g.trip))) [
        | inl same ↦ rw (project_guard, same) refl
        | inr stale ↦ elim (Bool-cases (still_assigned db g.driver_id (trip_id g.trip))) [
          | inr ended ↦ rw (project_guard, stale, ended) refl
          | inl held ↦ elim (Option-cases (s g.driver_id)) [
            | inl gone ↦ rw (project_guard, stale, held, project_current_ride, gone) refl
            | inr (f, there) ↦
                rw (project_guard, stale, held, project_current_ride, there) (rw miss refl)
          ]
        ]
      ]

  -- Putting the trip that the driver has into its presence.
  written-IsCurrent :
      (g : Guard) (s : DriverStates)
      → still_assigned db g.driver_id (trip_id g.trip) ≡ true
      → d ≡ g.driver_id
      → IsCurrent db (project_current_ride s g.driver_id (trip_id g.trip)).0 d
  unfolding project_current_ride
  written-IsCurrent g s held at field e = elim (Option-cases (s g.driver_id)) [
    | inl gone ↦
        absurd (no_some (sym gone ∙ ap s (sym at) ∙ (rw (project_current_ride, gone) at e)))
    | inr (f, there) ↦
        let hit : (d == g.driver_id) ≡ true = (==_iff d g.driver_id).1 at in
        let written = rw hit at (rw (project_current_ride, there) at e) in
        sym (inner written)
        ∙ sym (
            assigned-target (trip_id g.trip)
              (subst (λ x. still_assigned db x (trip_id g.trip) ≡ true) (sym at) held))
  ]

  project_guard-keeps :
      (g : Guard) (s : DriverStates) (n : ℕ)
      → IsCurrent db s d
      → IsCurrent db (project_guard db g (s, n)).0 d
  unfolding project_guard project_current_ride
  project_guard-keeps g s n was = elim (Bool-cases (d == g.driver_id)) [
    | inr miss ↦
        subst (λ (x : Option (Option ℕ)). (field : Option ℕ) → x ≡ some field → field ≡ target db d)
          (sym (project_guard-other g s n miss)) was
    | inl own ↦ elim (Bool-cases (is_id (current_of (s g.driver_id)) (trip_id g.trip))) [
      | inl same ↦ rw (project_guard, same) was
      | inr stale ↦ elim (Bool-cases (still_assigned db g.driver_id (trip_id g.trip))) [
        | inr ended ↦ rw (project_guard, stale, ended) was
        | inl held ↦
            let at : d ≡ g.driver_id = (==_iff d g.driver_id).0 own in
            rw
              (
                project_guard,
                stale,
                held,
                counted-states (project_current_ride s g.driver_id (trip_id g.trip)) n,
              )
              (written-IsCurrent g s held at)
      ]
    ]
  ]

  project_guard-IsCurrent :
      (g : Guard) (s : DriverStates) (n : ℕ)
      → d ≡ g.driver_id
      → target db d ≡ some (trip_id g.trip)
      → IsCurrent db (project_guard db g (s, n)).0 d
  unfolding project_guard
  project_guard-IsCurrent g s n at aim =
      elim (Bool-cases (is_id (current_of (s g.driver_id)) (trip_id g.trip))) [
        | inl same ↦
            rw (project_guard, same)
              (λ field e. named field (trip_id g.trip) aim (rw (sym (ap s at) ∙ e) at same))
        | inr stale ↦
            let held : still_assigned db g.driver_id (trip_id g.trip) ≡ true =
              subst (λ x. still_assigned db x (trip_id g.trip) ≡ true) at
                (target-assigned (trip_id g.trip) aim) in
            rw
              (
                project_guard,
                stale,
                held,
                counted-states (project_current_ride s g.driver_id (trip_id g.trip)) n,
              )
              (written-IsCurrent g s held at)
      ]
    where
      named :
          (field : Option ℕ) (t : ℕ)
          → target db d ≡ some t
          → is_id field t ≡ true
          → field ≡ target db d
      named none t aim h = absurd (lost h)
        where
          lost : false ≡ true → ⊥
          lost x = cc
      named (some k) t aim h = ap some ((==_iff k t).0 h) ∙ sym aim

  pub project_guards-keeps :
      (gs : List Guard) (s : DriverStates × ℕ)
      → IsCurrent db s.0 d
      → IsCurrent db (project_guards db gs s).0 d
  unfolding project_guards
  project_guards-keeps [] s was = was
  project_guards-keeps (g ∷ gs) s was =
      project_guards-keeps gs (project_guard db g s) (project_guard-keeps g s.0 s.1 was)

  pub project_guards-IsCurrent :
      (gs : List Guard) (g : Guard) (s : DriverStates × ℕ)
      → Memᴰ g gs
      → d ≡ g.driver_id
      → target db d ≡ some (trip_id g.trip)
      → IsCurrent db (project_guards db gs s).0 d
  unfolding project_guards
  project_guards-IsCurrent [] g s m at aim = elim m [ ]
  project_guards-IsCurrent (x ∷ gs) g s (Memᴰ.head same) at aim =
      project_guards-keeps gs (project_guard db x s)
        (project_guard-IsCurrent x s.0 s.1 (rw (← same) at) (rw (← same) aim))
  project_guards-IsCurrent (x ∷ gs) g s (Memᴰ.tail m) at aim =
      project_guards-IsCurrent gs g (project_guard db x s) m at aim

-- ===== src/Assignments/Repaired.antt =====
-- A reconciliation brings the presence of every driver in line with the guards.
use rcab.Base.{
  ℕ, ◌==◌, ◌≡◌, refl, sym, ap, ◌∙◌, true, false, Option, none, some, List, [], ◌∷◌, ◌⊎◌, inl, inr,
  Memᴰ, Bool-cases, Option-cases, ==_iff, ==_refl, is_id, find_where-mem, find_where-none, subst,
}
use rcab.Store.{Guard, Db}
use rcab.Offers.{expire_lapsed}
use rcab.Guards.{find_by_driver}
use rcab.Assignments.{
  DriverStates, current_of, clear_current_ride, expected, still_assigned, project_guards,
  clear_stale, clear_all, reconcile,
}
use rcab.Assignments.Walk.{
  target, IsCurrent, no_some, inner, counted-states, assigned-target, target-assigned,
  project_guards-IsCurrent,
}

module _ (db : Db) (d : ℕ) where
  expected-none :
      (gs : List Guard)
      → ((g : Guard) → Memᴰ g gs → (g.driver_id == d) ≡ false)
      → expected gs d ≡ none
  unfolding expected
  expected-none [] other = refl
  expected-none (g ∷ gs) other =
      rw (expected-none gs (λ x m. other x (Memᴰ.tail m)), other g (Memᴰ.head refl)) refl

  clear_stale-other :
      (x : ℕ) (s : DriverStates) (n : ℕ) → (d == x) ≡ false → (clear_stale db x (s, n)).0 d ≡ s d
  unfolding clear_stale clear_current_ride
  clear_stale-other x s n miss = elim (Option-cases (current_of (s x))) [
    | inl gone ↦ rw (clear_stale, gone) refl
    | inr (t, names) ↦ elim (Bool-cases (is_id (expected db.guards x) t)) [
      | inl fine ↦ rw (clear_stale, names, fine) refl
      | inr stale ↦ elim (Bool-cases (still_assigned db x t)) [
        | inl held ↦ rw (clear_stale, names, stale, held) refl
        | inr ended ↦
            rw (clear_stale, names, stale, ended, counted-states (clear_current_ride s x t) n)
              (rw (clear_current_ride, names) (rw (==_refl t) (rw miss refl)))
      ]
    ]
  ]

  -- Nothing is expected of a driver without a guard.
  unexpected : target db d ≡ none → expected db.guards d ≡ none
  unfolding target find_by_driver
  unexpected free = elim (Option-cases (find_by_driver db d)) [
    | inr (g, found) ↦ absurd (no_some (rw (target, found) at (sym free)))
    | inl gone ↦
        expected-none db.guards (λ g m. find_where-none (λ x. x.driver_id == d) db.guards g gone m)
  ]

  is_named : (o : Option (Option ℕ)) (t : ℕ) → current_of o ≡ some t → o ≡ some (some t)
  is_named none t e = absurd (no_some e)
  is_named (some f) t e = ap some e

  cleared_field :
      (s : DriverStates) (t : ℕ)
      → current_of (s d) ≡ some t
      → (clear_current_ride s d t).0 d ≡ some none
  unfolding clear_current_ride
  cleared_field s t names = rw (clear_current_ride, names) (rw (==_refl t) (rw (==_refl d) refl))

  clear_stale-own :
      (s : DriverStates) (n : ℕ)
      → (target db d ≡ none) ⊎ IsCurrent db s d
      → IsCurrent db (clear_stale db d (s, n)).0 d
  unfolding clear_stale
  clear_stale-own s n ready = elim (Option-cases (current_of (s d))) [
    | inl gone ↦
        rw (clear_stale, gone)
          (elim ready [
            | inr was ↦ was
            | inl free ↦ λ field e. ap current_of (sym e) ∙ gone ∙ sym free
          ])
    | inr (t, names) ↦ elim (Bool-cases (is_id (expected db.guards d) t)) [
      | inl fine ↦
          rw (clear_stale, names, fine)
            (elim ready [ inr was ↦ was | inl free ↦ absurd (lost (rw (unexpected free) at fine)) ])
      | inr stale ↦ elim (Bool-cases (still_assigned db d t)) [
        | inl held ↦
            rw (clear_stale, names, stale, held)
              (elim ready [
                | inr was ↦ was
                | inl free ↦ absurd (no_some (sym free ∙ assigned-target db d t held))
              ])
        | inr ended ↦
            rw (clear_stale, names, stale, ended, counted-states (clear_current_ride s d t) n)
              (λ field e. sym (inner (sym (cleared_field s t names) ∙ e)) ∙ no_aim t names ended)
      ]
    ]
  ]
    where
      lost : false ≡ true → ⊥
      lost x = cc

      no_aim :
          (t : ℕ) → current_of (s d) ≡ some t → still_assigned db d t ≡ false → none ≡ target db d
      no_aim t names ended = elim ready [
        | inl free ↦ sym free
        | inr was ↦ absurd (
            lost (sym ended ∙ target-assigned db d t (sym (was (some t) (is_named (s d) t names)))))
      ]

  clear_stale-keeps :
      (x : ℕ) (s : DriverStates) (n : ℕ)
      → IsCurrent db s d
      → IsCurrent db (clear_stale db x (s, n)).0 d
  clear_stale-keeps x s n was = elim (Bool-cases (d == x)) [
    | inl own ↦
        subst (λ k. IsCurrent db (clear_stale db k (s, n)).0 d) ((==_iff d x).0 own)
          (clear_stale-own s n (inr was))
    | inr miss ↦
        subst (λ (o : Option (Option ℕ)). (field : Option ℕ) → o ≡ some field → field ≡ target db d)
          (sym (clear_stale-other x s n miss)) was
  ]

  clear_all-keeps :
      (ds : List ℕ) (s : DriverStates × ℕ)
      → IsCurrent db s.0 d
      → IsCurrent db (clear_all db ds s).0 d
  unfolding clear_all
  clear_all-keeps [] s was = was
  clear_all-keeps (x ∷ ds) s was =
      clear_all-keeps ds (clear_stale db x s) (clear_stale-keeps x s.0 s.1 was)

  clear_all-IsCurrent :
      (ds : List ℕ) (s : DriverStates × ℕ)
      → Memᴰ d ds
      → target db d ≡ none
      → IsCurrent db (clear_all db ds s).0 d
  unfolding clear_all
  clear_all-IsCurrent [] s m free = elim m [ ]
  clear_all-IsCurrent (x ∷ ds) s (Memᴰ.head same) free =
      clear_all-keeps ds (clear_stale db x s) (
        subst (λ k. IsCurrent db (clear_stale db k s).0 d) same
          (clear_stale-own s.0 s.1 (inl free)))
  clear_all-IsCurrent (x ∷ ds) s (Memᴰ.tail m) free =
      clear_all-IsCurrent ds (clear_stale db x s) m free

-- after a reconciliation, the presence of a driver whose key was found, where it has one, names
-- the trip of the guard of the driver, or no trip where there is no guard, whatever it named
-- before.
pub reconcile-IsCurrent :
    (db : Db) (s : DriverStates) (now : ℕ) (keys : List ℕ) (d : ℕ)
    → Memᴰ d keys
    → IsCurrent db (reconcile db s now keys).1 d
unfolding reconcile expire_lapsed target find_by_driver
reconcile-IsCurrent db s now keys d m =
    let db' = (expire_lapsed db now).0 in
    let walked = project_guards db' db.guards (s, 0) in
    elim (Option-cases (find_by_driver db d)) [
      | inl gone ↦ clear_all-IsCurrent db' d keys (walked.0, 0) m (rw (target, gone) refl)
      | inr (g, found) ↦
          let (there, hit) = find_where-mem (λ x. x.driver_id == d) db.guards g found in
          clear_all-keeps db' d keys (walked.0, 0)
            (project_guards-IsCurrent db' d db.guards g (s, 0) there
              (sym ((==_iff g.driver_id d).0 hit)) (rw (target, found) refl))
    ]

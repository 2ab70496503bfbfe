-- ===== src/Timers/Windows.antt =====
-- A window of a scheduled ride is re-armed once.
use rcab.Base.{
  ℕ, suc, ◌≡◌, refl, ap, ◌∙◌, true, false, Option, none, some, inl, inr, Bool-cases, Option-cases,
  arith, ==_refl, find_by-key, find_by-update_hit, exists_where,
}
use rcab.Store.{Ride, Topic, Db}
use rcab.Trips.View.{ride_key, find_ride}
use rcab.Offers.{revoke_live_for_trip}
use rcab.Outbox.{enqueue, is_intent}
use rcab.Timers.{Retry, at_new_generation, rearmable, same_window, rearm_row, rearm_scheduled}

enqueue-rides :
    (db : Db) (now id : ℕ) (t : Topic) (a g : ℕ) (at : Option ℕ)
    → (enqueue db now id t a g at).rides ≡ db.rides
unfolding enqueue
enqueue-rides db now id t a g at = elim (Bool-cases (exists_where (is_intent t a g) db.outbox)) [
  | inl old ↦ rw old refl
  | inr new ↦ rw new refl
]

module _ (db : Db) (now row id : ℕ) where
  -- The ride, as the re-arming leaves it.
  rearm_row-ride :
      (r : Ride)
      → find_ride id db.rides ≡ some r
      → find_ride id (rearm_row db now row r).0.rides
        ≡ some (at_new_generation (suc r.dispatch_generation) r)
  unfolding rearm_row revoke_live_for_trip
  rearm_row-ride r found =
      let key : r.id ≡ id = find_by-key ride_key id db.rides r found in
      ap (find_ride id) (
        enqueue-rides _ now row Topic.ride_dispatch_requested r.id (suc r.dispatch_generation) none)
      ∙ find_by-update_hit ride_key (same_window r.id r.dispatch_generation)
          (at_new_generation (suc r.dispatch_generation)) (λ x. refl) id db.rides r found
          (rw (==_refl r.id, ==_refl r.dispatch_generation) refl)

  -- when a scheduled ride was re-armed for the window of a generation, a second request for the
  -- same generation re-arms nothing and leaves the tables as they are.
  pub rearm_scheduled-once :
      (g later row' : ℕ) (retry : Retry)
      → (rearm_scheduled db now row id (some g)).1 ≡ some retry
      → rearm_scheduled (rearm_scheduled db now row id (some g)).0 later row' id (some g)
        ≡ ((rearm_scheduled db now row id (some g)).0, none)
  unfolding rearm_scheduled
  rearm_scheduled-once g later row' retry told = elim (Option-cases (find_ride id db.rides)) [
    | inl gone ↦ absurd (none_some (rw (gone, rearm_scheduled) at told))
    | inr (r, found) ↦ elim (Bool-cases (rearmable (some g) r)) [
      | inr calm ↦ absurd (none_some (rw (found, calm, rearm_scheduled) at told))
      | inl due ↦
          let first : rearm_scheduled db now row id (some g)
              ≡ ((rearm_row db now row r).0, some (rearm_row db now row r).1) =
            rw (found, due, rearm_scheduled) refl in
          rw first (second r due (rearm_row-ride r found))
    ]
  ]
    where
      none_some : ◌≡◌ {A = Option Retry} none (some retry) → ⊥
      none_some h = cc

      again :
          (r : Ride)
          → rearmable (some g) r ≡ true
          → rearmable (some g) (at_new_generation (suc r.dispatch_generation) r) ≡ false
      again r due = ground (arith, due)

      second :
          (r : Ride)
          → rearmable (some g) r ≡ true
          → find_ride id (rearm_row db now row r).0.rides
            ≡ some (at_new_generation (suc r.dispatch_generation) r)
          → rearm_scheduled (rearm_row db now row r).0 later row' id (some g)
            ≡ ((rearm_row db now row r).0, none)
      second r due there = rw (there, rearm_scheduled) (rw (again r due) refl)

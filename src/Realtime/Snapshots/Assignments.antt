-- ===== src/Realtime/Snapshots/Assignments.antt =====
-- A driver is told of the trip that it is bound to, and of no other.
use rcab.Base.{
  ℕ, ◌≡◌, refl, sym, ap, ◌∙◌, ◌==◌, some, none, inl, inr, Memᴰ, Option-cases, arith, find_by-key,
  find_where-mem, find_where-none, ==_iff,
}
use rcab.Store.{TripRef, solo, shared, Guard, Db}
use rcab.Trips.Ledger.{bound}
use rcab.Trips.View.{find_ride, find_pool, ride_key, pool_key, trip_state, IsSound}
use rcab.Guards.{find_by_driver}
use rcab.Stops.{stops_of}
use rcab.Realtime.{ride_status_version}
use rcab.Realtime.Snapshots.{
  AssignmentView, solo_view, shared_view, trip_of_view, assignment_view, driver_assignment,
}

module _ (db : Db) (v : IsSound db) (driver : ℕ) where
  -- The guard row that is read is the driver's.
  guard_read :
      (g : Guard) → find_by_driver db driver ≡ some g → Memᴰ g db.guards × (g.driver_id ≡ driver)
  unfolding find_by_driver
  guard_read g e =
      let (m, hit) = find_where-mem (λ (g : Guard). g.driver_id == driver) db.guards g e in
      (m, (==_iff g.driver_id driver).0 hit)

  -- A bound trip has a row, which the view is of.
  view-total :
      (g : Guard) (t : TripRef)
      → trip_state db t ≡ bound driver
      → (a : AssignmentView) × (assignment_view db g t ≡ some a) × (trip_of_view a ≡ t)
  unfolding assignment_view
  view-total g (solo id) held = elim (Option-cases (find_ride id db.rides)) [
    | inl gone ↦ absurd (ground (arith, gone, held))
    | inr (r, e) ↦ (
      solo_view g r (ride_status_version r.status),
      rw (e, assignment_view) refl,
      ap solo (find_by-key ride_key id db.rides r e),
    )
  ]
  view-total g (shared id) held = elim (Option-cases (find_pool id db.pools)) [
    | inl gone ↦ absurd (ground (arith, gone, held))
    | inr (p, e) ↦ (
      shared_view g p (stops_of db id),
      rw (e, assignment_view) refl,
      ap shared (find_by-key pool_key id db.pools p e),
    )
  ]

  -- on sound tables a driver who is bound to a trip is told of that trip, so a phone that lost
  -- every message and every room recovers its assignment from the rows.
  pub driver_assignment-recovers :
      (t : TripRef)
      → trip_state db t ≡ bound driver
      → (a : AssignmentView) × (driver_assignment db driver ≡ some a) × (trip_of_view a ≡ t)
  unfolding driver_assignment find_by_driver
  driver_assignment-recovers t held =
      let (g, m, to, by) = v.bound_guard t driver held in
      elim (Option-cases (find_by_driver db driver)) [
        | inl gone ↦ absurd (missing g m by gone)
        | inr (h, e) ↦
            let (mh, own) = guard_read h e in
            let same : h ≡ g = v.one_trip h g mh m (own ∙ sym by) in
            let at : h.trip ≡ t = ap (λ (x : Guard). x.trip) same ∙ to in
            let (a, seen, here) = view-total h h.trip (ap (trip_state db) at ∙ held) in
            (a, rw (e, driver_assignment) seen, here ∙ at)
      ]
    where
      missing :
          (g : Guard)
          → Memᴰ g db.guards
          → g.driver_id ≡ driver
          → find_by_driver db driver ≡ none
          → ⊥
      missing g m by gone =
          let miss = find_where-none (λ (g : Guard). g.driver_id == driver) db.guards g gone m in
          ground (arith, miss, by)

  -- on sound tables what a driver is told of as its assignment is a trip that it is bound to.
  pub driver_assignment-bound :
      (a : AssignmentView)
      → driver_assignment db driver ≡ some a
      → trip_state db (trip_of_view a) ≡ bound driver
  unfolding driver_assignment
  driver_assignment-bound a told = elim (Option-cases (find_by_driver db driver)) [
    | inl gone ↦ absurd (ground (arith, gone, told))
    | inr (h, e) ↦
        let (mh, own) = guard_read h e in
        let held : trip_state db h.trip ≡ bound driver = v.guard_bound h mh ∙ ap bound own in
        let (b, seen, at) = view-total h h.trip held in
        let reads : driver_assignment db driver ≡ assignment_view db h h.trip =
          rw (e, driver_assignment) refl in
        ap (trip_state db) (sym (shown b a (sym seen ∙ sym reads ∙ told)) ∙ at) ∙ held
  ]
    where
      shown : (b a : AssignmentView) → some b ≡ some a → trip_of_view b ≡ trip_of_view a
      shown b a e = cc

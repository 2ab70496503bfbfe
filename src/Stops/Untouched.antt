-- ===== src/Stops/Untouched.antt =====
-- The confirmation of a stop leaves the solo rides alone.
use rcab.Base.{
  ℕ, ◌≡◌, refl, ◌==◌, ◌-◌, Bool, true, false, not, List, ◌⊎◌, inl, inr, Bool-cases, Option-cases,
  if◌then◌else◌, exists_where, find_where, is_id, is_some,
}
use rcab.Store.{Pool, RideStop, Db}
use rcab.Trips.View.{find_pool}
use rcab.Guards.{Outcome, after, release}
use rcab.Stops.{
  StopFailure, StopConfirm, Confirmed, confirm, confirmable, mark_ride_started, mark_ride_completed,
  completable, touch_pool, is_row, touched, complete_pool, starts, confirm_next, confirm_target,
  confirm_stop, stops_of, pending_stops, same_stop_type, is_at, is_open_stop,
}

module _ (db : Db) (now : ℕ) (c : StopConfirm) where
  record Keeps (o : Outcome (StopFailure ⊎ Confirmed)) : Type 0 where
    pub rides : (after db o).rides ≡ db.rides

  touched-Keeps :
      (db' : Db) (x : StopFailure ⊎ Confirmed)
      → db'.rides ≡ db.rides
      → Keeps (touched (touch_pool db' c.ride_id) x)
  unfolding touch_pool
  touched-Keeps db' x e = elim (Bool-cases (exists_where (is_row c.ride_id) db'.pools)) [
    | inl there ↦ rw there (record { rides = e })
    | inr gone ↦ rw gone (record { rides = refl })
  ]

  complete_pool-Keeps :
      (db' : Db) (x : Confirmed) → db'.rides ≡ db.rides → Keeps (complete_pool db' now c x)
  unfolding complete_pool mark_ride_completed release
  complete_pool-Keeps db' x e = elim (Bool-cases (exists_where (completable c.ride_id) db'.pools)) [
    | inl there ↦ rw there (touched-Keeps _ (inr x) e)
    | inr gone ↦ rw gone (record { rides = refl })
  ]

  started-rides :
      (b : Bool) (db' : Db)
      → db'.rides ≡ db.rides
      → (if b then mark_ride_started db' c.ride_id else db').rides ≡ db.rides
  unfolding mark_ride_started
  started-rides true db' e = e
  started-rides false db' e = e

  -- What follows the confirmed stop.
  ending-Keeps :
      (b : Bool) (db' : Db) (x : Confirmed)
      → db'.rides ≡ db.rides
      → Keeps (if b then complete_pool db' now c x else touched (touch_pool db' c.ride_id) (inr x))
  ending-Keeps true db' x e = complete_pool-Keeps db' x e
  ending-Keeps false db' x e = touched-Keeps db' (inr x) e

  confirm-rides : (confirm db now c.ride_id c.sequence_index).0.rides ≡ db.rides
  unfolding confirm
  confirm-rides =
      elim (Option-cases (find_where (confirmable c.ride_id c.sequence_index) db.stops)) [
        | inl gone ↦ rw (gone, confirm) refl
        | inr (s, e) ↦ rw (e, confirm) refl
      ]

  abbrev started_db : List RideStop → Db
  started_db stops =
      let db1 = (confirm db now c.ride_id c.sequence_index).0 in
      if starts c stops then mark_ride_started db1 c.ride_id else db1

  confirm_next-Keeps : (stops : List RideStop) → Keeps (confirm_next db now c stops)
  unfolding confirm_next confirm
  confirm_next-Keeps stops =
      elim (Option-cases (find_where (confirmable c.ride_id c.sequence_index) db.stops)) [
        | inl gone ↦ rw (gone, confirm_next) (record { rides = refl })
        | inr (s, e) ↦
            rw (e, confirm_next)
              (ending-Keeps (pending_stops stops - 1 == 0) (started_db stops) _
                (started-rides (starts c stops) _ confirm-rides))
      ]

  confirm_target-Keeps :
      (p : Pool) (stops : List RideStop) (s : RideStop) → Keeps (confirm_target db now c p stops s)
  unfolding confirm_target
  confirm_target-Keeps p stops s = elim (Bool-cases (not (same_stop_type s.type c.type))) [
    | inl wrong ↦ rw wrong (record { rides = refl })
    | inr right ↦ rw right (elim (Bool-cases (is_some s.confirmed_at)) [
      | inl done ↦ rw done (record { rides = refl })
      | inr pending ↦
          rw pending (elim (Bool-cases (is_at c.sequence_index (find_where is_open_stop stops))) [
            | inr early ↦ rw early (record { rides = refl })
            | inl turn ↦ rw turn (confirm_next-Keeps stops)
          ])
    ])
  ]

  confirm_stop-Keeps : Keeps (confirm_stop db now c)
  unfolding confirm_stop
  confirm_stop-Keeps = elim (Option-cases (find_pool c.ride_id db.pools)) [
    | inl gone ↦ rw (gone, confirm_stop) (record { rides = refl })
    | inr (q, found) ↦
        rw (found, confirm_stop)
          (elim (Bool-cases (is_id q.claimed_by_driver_id c.driver_id)) [
            | inr other ↦ rw other (record { rides = refl })
            | inl mine ↦
                rw (mine, confirm_stop)
                  (elim (Option-cases (
                    find_where (λ s. s.sequence_index == c.sequence_index)
                      (stops_of db c.ride_id))) [
                        | inl missing ↦ rw (missing, confirm_stop) (record { rides = refl })
                        | inr (target, at) ↦
                            rw (at, confirm_stop)
                              (confirm_target-Keeps q (stops_of db c.ride_id) target)
                      ])
          ])
  ]

  pub confirm_stop-rides : (after db (confirm_stop db now c)).rides ≡ db.rides
  confirm_stop-rides = confirm_stop-Keeps.rides

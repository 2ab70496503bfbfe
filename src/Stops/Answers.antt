-- ===== src/Stops/Answers.antt =====
-- What a driver hears about a stop.
use rcab.Base.{
  ℕ, ◌==◌, ◌-◌, ◌≡◌, refl, Bool, true, false, not, Option, none, some, List, inl, inr, ◌⊎◌,
  Bool-cases, Option-cases, arith, is_id, is_some, find_where, if◌then◌else◌, ◌+◌, sym, ap, ◌∙◌,
  update_where, exists_where,
}
use rcab.Store.{Pool, RideStop, Db}
use rcab.Trips.View.{find_pool}
use rcab.Guards.{Outcome, commit, abort, after, release}
use rcab.Stops.Counts.{IsKeyed, pending-confirmed}
use rcab.Stops.{
  StopConfirm, StopFailure, Confirmed, confirm, confirm_stop, confirm_target, confirm_next,
  stops_of, same_stop_type, repeated, is_open_stop, complete_pool, mark_ride_completed, touch_pool,
  touched, pending_stops, confirmable, confirmed_stop, mark_ride_started, starts, is_row,
  completable,
}

-- What a transaction tells, if it commits.
abbrev pub told : Outcome (StopFailure ⊎ Confirmed) → Option Confirmed
told (commit db (inr r)) = some r
told (commit db (inl e)) = none
told abort = none

-- The stop that is confirmed is the first one that was not; its row is stamped, no other stop
-- changes, and one fewer is left.
pub record IsNext (db : Db) (now : ℕ) (c : StopConfirm) (r : Confirmed) (db' : Db) : Type 0 where
  pub first : RideStop
  pub found : find_where is_open_stop (stops_of db c.ride_id) ≡ some first
  pub at : first.sequence_index ≡ c.sequence_index
  pub stamped :
      db'.stops
      ≡ update_where (confirmable c.ride_id c.sequence_index) (confirmed_stop now) db.stops
  pub answer :
      (s : RideStop) × (find_where (confirmable c.ride_id c.sequence_index) db.stops ≡ some s)
      × (r.stop ≡ confirmed_stop now s)
  pub left : r.pending_after ≡ pending_stops (stops_of db' c.ride_id)
  pub fewer : pending_stops (stops_of db c.ride_id) ≡ pending_stops (stops_of db' c.ride_id) + 1
  pub completed : r.ride_completed ≡ (pending_stops (stops_of db' c.ride_id) == 0)

module _ (db : Db) (now : ℕ) (c : StopConfirm) (r : Confirmed) where
  silent : ◌≡◌ {A = Option Confirmed} none (some r) → ⊥
  silent e = cc

  -- A transaction that tells `r` tells `result`, and leaves the stops as they are in `db1`.
  abbrev Tells : Db → Confirmed → Outcome (StopFailure ⊎ Confirmed) → Type 0
  Tells db1 result o = told o ≡ some r → (r ≡ result) × ((after db o).stops ≡ db1.stops)

  touch-Tells :
      (db1 : Db) (result : Confirmed)
      → Tells db1 result (touched (touch_pool db1 c.ride_id) (inr result))
  unfolding touch_pool
  touch-Tells db1 result = elim (Bool-cases (exists_where (is_row c.ride_id) db1.pools)) [
    | inl there ↦ rw there (λ h. (cc, refl))
    | inr gone ↦ rw gone (λ h. absurd (silent h))
  ]

  complete_pool-Tells :
      (db1 : Db) (result : Confirmed) → Tells db1 result (complete_pool db1 now c result)
  unfolding complete_pool mark_ride_completed release
  complete_pool-Tells db1 result =
      elim (Bool-cases (exists_where (completable c.ride_id) db1.pools)) [
        | inl runs ↦ rw runs (touch-Tells _ result)
        | inr gone ↦ rw gone (λ h. absurd (silent h))
      ]

  ending-Tells :
      (last : Bool) (db1 : Db) (result : Confirmed)
      → Tells db1 result (
          if last
          then complete_pool db1 now c result
          else touched (touch_pool db1 c.ride_id) (inr result))
  ending-Tells true db1 result = complete_pool-Tells db1 result
  ending-Tells false db1 result = touch-Tells db1 result

  abbrev started_db : Bool → Db → Db
  started_db starting db1 = if starting then mark_ride_started db1 c.ride_id else db1

  started-stops : (starting : Bool) (db1 : Db) → (started_db starting db1).stops ≡ db1.stops
  unfolding mark_ride_started
  started-stops true db1 = refl
  started-stops false db1 = refl

  abbrev stamped_db : Db
  stamped_db = record db {
    stops = update_where (confirmable c.ride_id c.sequence_index) (confirmed_stop now) db.stops;
  }

  abbrev confirmed_db : Db
  confirmed_db = (confirm db now c.ride_id c.sequence_index).0

  confirm-stamped :
      (s : RideStop)
      → find_where (confirmable c.ride_id c.sequence_index) db.stops ≡ some s
      → (confirm db now c.ride_id c.sequence_index).0.stops ≡ stamped_db.stops
  unfolding confirm
  confirm-stamped s hit = rw (hit, confirm) refl

  -- A confirmation that tells stamped a stop, and told what it read before.
  next-told :
      (stops : List RideStop)
      → told (confirm_next db now c stops) ≡ some r
      → ((s : RideStop) × (find_where (confirmable c.ride_id c.sequence_index) db.stops ≡ some s)
          × (r.stop ≡ confirmed_stop now s))
        × (r.pending_after ≡ pending_stops stops - 1)
        × (r.ride_completed ≡ (r.pending_after == 0))
        × ((after db (confirm_next db now c stops)).stops ≡ stamped_db.stops)
  unfolding confirm_next confirm
  next-told stops h =
      elim (Option-cases (find_where (confirmable c.ride_id c.sequence_index) db.stops)) [
        | inl gone ↦ absurd (silent (rw (gone, confirm_next) at h))
        | inr (s, hit) ↦
            let start = starts c stops in
            let left = pending_stops stops - 1 in
            let result : Confirmed = record {
              stop = confirmed_stop now s;
              pending_after = left;
              ride_completed = left == 0;
              duplicate = false;
            } in
            let (it, same) =
              ending-Tells (left == 0) (started_db start confirmed_db) result
                (rw (hit, confirm_next) at h) in
            rw (hit, confirm_next)
              (
                (s, refl, ap (λ (x : Confirmed). x.stop) it),
                ap (λ (x : Confirmed). x.pending_after) it,
                ap (λ (x : Confirmed). x.ride_completed) it
                    ∙ sym (ap (λ (x : Confirmed). x.pending_after == 0) it),
                same ∙ started-stops start confirmed_db ∙ confirm-stamped s hit,
              )
      ]

  module _ (keyed : IsKeyed db.stops) where
    confirm_next-IsNext :
        (x : RideStop)
        → find_where is_open_stop (stops_of db c.ride_id) ≡ some x
        → x.sequence_index ≡ c.sequence_index
        → told (confirm_next db now c (stops_of db c.ride_id)) ≡ some r
        → IsNext db now c r (after db (confirm_next db now c (stops_of db c.ride_id)))
    confirm_next-IsNext x found at h =
        let ((s, hit, shown), left, completed, stamped) = next-told (stops_of db c.ride_id) h in
        let one =
          pending-confirmed db (after db (confirm_next db now c (stops_of db c.ride_id))) c.ride_id
            c.sequence_index now s keyed hit stamped in
        let rest : r.pending_after
            ≡ pending_stops
                (stops_of (after db (confirm_next db now c (stops_of db c.ride_id))) c.ride_id) =
          omega arith in
        record {
          first = x;
          found = found;
          at = at;
          stamped = stamped;
          answer = (s, hit, shown);
          left = rest;
          fewer = one;
          completed = completed ∙ ap (λ n. n == 0) rest;
        }

    target-told :
        (p : Pool) (s : RideStop)
        → told (confirm_target db now c p (stops_of db c.ride_id) s) ≡ some r
        → r.duplicate ≡ false
        → IsNext db now c r (after db (confirm_target db now c p (stops_of db c.ride_id) s))
    unfolding confirm_target
    target-told p s h new = elim (Bool-cases (not (same_stop_type s.type c.type))) [
      | inl wrong ↦ absurd (silent (rw wrong at h))
      | inr right ↦ elim (Bool-cases (is_some s.confirmed_at)) [
        | inl done ↦ absurd (again (rw (right, done) at h))
        | inr pending ↦ elim (Option-cases (find_where is_open_stop (stops_of db c.ride_id))) [
          | inl gone ↦ absurd (silent (rw (right, pending, gone) at h))
          | inr (x, found) ↦ elim (Bool-cases (x.sequence_index == c.sequence_index)) [
            | inr early ↦ absurd (silent (rw (right, pending, found, early) at h))
            | inl turn ↦
                rw (right, pending, found, turn)
                  (confirm_next-IsNext x found (ground (arith, turn))
                    (rw (right, pending, found, turn) at h))
          ]
        ]
      ]
    ]
      where
        again : some (repeated p (stops_of db c.ride_id) s) ≡ some r → ⊥
        again e = ground (arith, e, new)

    -- a confirmation that is answered as done and not as a duplicate is, where the stops have
    -- their primary key, of the first stop of the pool that was not confirmed: afterwards that
    -- stop is stamped and no other has changed, one fewer of the pool is not confirmed, and the
    -- answer gives the stamped stop and how many are left, and says that the ride is completed
    -- exactly when there is none.
    pub confirm_stop-IsNext :
        told (confirm_stop db now c) ≡ some r
        → r.duplicate ≡ false
        → IsNext db now c r (after db (confirm_stop db now c))
    unfolding confirm_stop
    confirm_stop-IsNext h new = elim (Option-cases (find_pool c.ride_id db.pools)) [
      | inl gone ↦ absurd (silent (rw (gone, confirm_stop) at h))
      | inr (p, found) ↦ elim (Bool-cases (is_id p.claimed_by_driver_id c.driver_id)) [
        | inr other ↦ absurd (silent (rw (found, confirm_stop, other) at h))
        | inl mine ↦
            elim (Option-cases
              (find_where (λ s. s.sequence_index == c.sequence_index) (stops_of db c.ride_id))) [
                | inl none_there ↦ absurd (silent (rw (found, confirm_stop, mine, none_there) at h))
                | inr (s, at) ↦
                    rw (found, confirm_stop, mine, at)
                      (target-told p s (rw (found, confirm_stop, mine, at) at h) new)
              ]
      ]
    ]

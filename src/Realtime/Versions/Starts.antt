-- ===== src/Realtime/Versions/Starts.antt =====
-- The creation of a ride and its assignment without an offer take the versions of rides forward.
use rcab.Base.{
  ℕ, ◌≡◌, refl, sym, ap, subst, ◌∙◌, ◌==◌, ◌&&◌, not, max, none, some, ◌∷◌, inl, inr, Bool-cases,
  Option-cases, ==_iff, arith, is_some, find_by, find_where, exists_where,
}
use rcab.Store.{solo, same_trip, Topic, Db}
use rcab.Trips.View.{find_ride}
use rcab.Offers.{is_requested, revoke_live_for_trip}
use rcab.Guards.{
  commit, abort, after, acquire, has_driver, Acquired, claim_solo_row, claimable_row, same_offer,
}
use rcab.Pools.Closing.{Outcome-cases}
use rcab.Rides.Create.{
  NewRide, in_scope, is_scheduled, created_ride, enqueue_work, create, claim_requested, claim_solo,
}
use rcab.Realtime.Versions.{IsForward, IsForward-refl, IsAhead-refl}
use rcab.Realtime.Versions.Steps.{enqueue-rides, claimed_rides-IsForward}

module _ (db : Db) (now id : ℕ) where
  created-IsForward :
      (n : NewRide)
      → find_ride id db.rides ≡ none
      → IsForward db.rides (created_ride id n ∷ db.rides)
  unfolding find_by find_where
  created-IsForward n new k r e = elim (Bool-cases (id == k)) [
    | inl same ↦
        let at : id ≡ k = (==_iff id k).0 same in
        absurd (ground (arith, ap (λ x. find_ride x db.rides) at, new, e))
    | inr other ↦ (r, rw other e, IsAhead-refl r)
  ]

  enqueue_work-kept :
      (d : Db) (row : ℕ) (n : NewRide) → (after d (enqueue_work d now id row n)).rides ≡ d.rides
  unfolding enqueue_work
  enqueue_work-kept d row n = elim (Bool-cases (is_scheduled n.type)) [
    | inr soon ↦ rw soon (enqueue-rides d now row Topic.ride_dispatch_requested id 1 none)
    | inl planned ↦ rw planned (elim (Option-cases n.scheduled_for) [
      | inl never ↦ rw (never, enqueue_work) refl
      | inr (at, e) ↦
          rw (e, enqueue_work) (enqueue-rides d now row Topic.ride_wake_schedule id 1 (some at))
    ])
  ]

  enqueue_work-rides :
      (d d' : Db) (row : ℕ) (n : NewRide) (u : Unit {0})
      → enqueue_work d now id row n ≡ commit d' u
      → d'.rides ≡ d.rides
  enqueue_work-rides d d' row n u e =
      sym (ap (λ o. (after d o).rides) e) ∙ enqueue_work-kept d row n

  pub create-IsForward :
      (row : ℕ) (n : NewRide)
      → find_ride id db.rides ≡ none
      → IsForward db.rides (after db (create db now id row n)).rides
  unfolding create
  create-IsForward row n new = elim (Option-cases (find_where (in_scope n) db.rides)) [
    | inr (old, e) ↦ rw (e, create) (IsForward-refl db.rides)
    | inl gone ↦
        let start = record db { rides = created_ride id n ∷ db.rides } in
        rw (gone, create)
          (elim (Outcome-cases (enqueue_work start now id row n)) [
            | inl stopped ↦ rw (stopped, create) (IsForward-refl db.rides)
            | inr (db', u, done) ↦
                rw (done, create)
                  (subst (IsForward db.rides) (sym (enqueue_work-rides start db' row n u done))
                    (created-IsForward n new))
          ])
  ]

  acquire-kept :
      (driver g : ℕ) → (after db (acquire db now driver (solo id) none g)).rides ≡ db.rides
  unfolding acquire
  acquire-kept driver g = elim (Bool-cases (exists_where (λ h. h.driver_id == driver) db.guards)) [
    | inl busy ↦ rw busy refl
    | inr free ↦
        rw free (elim (Bool-cases (exists_where (λ h. same_trip h.trip (solo id)) db.guards)) [
          | inl taken ↦ rw taken refl
          | inr clear ↦ rw clear (elim (Bool-cases (exists_where (same_offer none) db.guards)) [
            | inl used ↦ rw used refl
            | inr new ↦ rw new (elim (Bool-cases (has_driver db driver)) [
              | inl known ↦ rw known refl
              | inr unknown ↦ rw unknown refl
            ])
          ])
        ])
  ]

  claim_row-IsForward :
      (db' : Db) (driver g : ℕ)
      → db'.rides ≡ db.rides
      → IsForward db.rides
          (after db (elim (claim_solo_row db' now id driver g) [
            | abort ↦ abort
            | commit db2 row ↦ commit (revoke_live_for_trip db2 now (solo id) none).0 (some row)
          ])).rides
  unfolding claim_solo_row revoke_live_for_trip
  claim_row-IsForward db' driver g same =
      elim (Option-cases (find_where (claimable_row id) db'.rides)) [
        | inl gone ↦ rw (gone, claim_solo_row) (IsForward-refl db.rides)
        | inr (r, e) ↦
            rw (e, claim_solo_row) (rw same (claimed_rides-IsForward db now (solo id) driver g))
      ]

  claim_requested-IsForward :
      (driver g : ℕ) → IsForward db.rides (after db (claim_requested db now id driver g)).rides
  unfolding claim_requested
  claim_requested-IsForward driver g =
      elim (Outcome-cases (acquire db now driver (solo id) none g)) [
        | inl stopped ↦ rw (stopped, claim_requested) (IsForward-refl db.rides)
        | inr (db', got, e) ↦
            rw (e, claim_requested)
              (taken db' got (sym (ap (λ o. (after db o).rides) e) ∙ acquire-kept driver g))
      ]
    where
      taken :
          (db' : Db) (got : Acquired)
          → db'.rides ≡ db.rides
          → IsForward db.rides
              (after db (elim got [
                | Acquired.acquired ↦ elim (claim_solo_row db' now id driver g) [
                  | abort ↦ abort
                  | commit db2 row ↦
                      commit (revoke_live_for_trip db2 now (solo id) none).0 (some row)
                ]
                | Acquired.driver_busy ↦ commit db' none
                | Acquired.trip_taken ↦ commit db' none
              ])).rides
      taken db' Acquired.acquired same = claim_row-IsForward db' driver g same
      taken db' Acquired.driver_busy same = rw same (IsForward-refl db.rides)
      taken db' Acquired.trip_taken same = rw same (IsForward-refl db.rides)

  pub claim_solo-IsForward :
      (driver : ℕ) → IsForward db.rides (after db (claim_solo db now id driver)).rides
  unfolding claim_solo
  claim_solo-IsForward driver = elim (Option-cases (find_ride id db.rides)) [
    | inl gone ↦ rw (gone, claim_solo) (IsForward-refl db.rides)
    | inr (r, found) ↦
        rw (found, claim_solo)
          (elim (Bool-cases (is_requested r.status && not (is_some r.driver_id))) [
            | inr stale ↦ rw stale (IsForward-refl db.rides)
            | inl waits ↦ rw waits (claim_requested-IsForward driver (max r.dispatch_generation 1))
          ])
  ]

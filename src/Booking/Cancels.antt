-- ===== src/Booking/Cancels.antt =====
-- What a request to cancel a ride does to its row.
use rcab.Rides.Create.{is_scheduled}
use rcab.Base.{
  if◌then◌else◌, ℕ, ◌≡◌, refl, ap, ◌∙◌, Bool, true, false, Option, none, some, ◌⊎◌, inl, inr,
  Bool-cases, Option-cases, sum_cases, arith, find_by-update_hit, find_by-key, ◌==◌, ==_iff,
}
use rcab.Store.{solo, Ride, RideStatus, TripRef, Db}
use rcab.Trips.View.{find_ride, ride_key}
use rcab.Sessions.{Role}
use rcab.Offers.{revoke_live_for_trip}
use rcab.Rides.{RideFailure, is_terminal}
use rcab.Rides.Cancel.{
  CancelRequest, owns, cancel_target, cancelled_ride, end_ride_as, release_bound, cancel,
}
use rcab.Reconciler.{JobState, Queues}
use rcab.Booking.{RequestError}
use rcab.Booking.Requests.{
  CancelRide, Ended, cancel_error, cancel_guard, cancel_request, cancel_wake, may_read, actor_of,
  request_cancel,
}

-- The cancellation ended a ride of the requester that was under way.
pub record IsSettled (db db' : Db) (user : ℕ) (role : Role) (id : ℕ) (e : Ended) : Type 0 where
  pub was : Ride
  pub is : Ride
  pub found : find_ride id db.rides ≡ some was
  pub own : may_read user role was ≡ true
  pub unfinished : is_terminal was.status ≡ false
  pub ended : find_ride id db'.rides ≡ some is
  pub told : is.status ≡ e.status
  pub over : is_terminal e.status ≡ true
  pub author : is.cancelled_by ≡ some (actor_of role)

cancel_target-over :
    (now : ℕ) (c : CancelRequest) (r : Ride) (to : RideStatus)
    → cancel_target now c r ≡ inr to
    → (is_terminal r.status ≡ false) × (is_terminal to ≡ true)
unfolding cancel_target
cancel_target-over now c r to h = ground arith

release_bound-rides :
    (d : Db) (driver : Option ℕ) (t : TripRef) → (release_bound d driver t).rides ≡ d.rides
unfolding release_bound rcab.Guards.release
release_bound-rides d none t = refl
release_bound-rides d (some k) t = refl

owns-read :
    (wait user id : ℕ) (role : Role) (dto : CancelRide) (r : Ride)
    → owns (cancel_request wait user role id dto) r ≡ true
    → may_read user role r ≡ true
owns-read wait user id Role.client dto r h = h
owns-read wait user id Role.driver dto r h = h

module _ (db : Db) (now : ℕ) (c : CancelRequest) (r : Ride) (to : RideStatus)
    (found : find_ride c.ride_id db.rides ≡ some r) where
  end_ride_as-row :
      find_ride c.ride_id (end_ride_as db now c r.driver_id to).0.rides
      ≡ some (cancelled_ride now c to r)
  unfolding end_ride_as revoke_live_for_trip
  end_ride_as-row =
      let hit : (r.id == c.ride_id) ≡ true =
        (==_iff r.id c.ride_id).1 (find_by-key ride_key c.ride_id db.rides r found) in
      ap (find_ride c.ride_id) (release_bound-rides _ r.driver_id (solo c.ride_id))
      ∙ find_by-update_hit ride_key (λ x. x.id == c.ride_id) (cancelled_ride now c to) (λ x. refl)
          c.ride_id db.rides r found hit

module _ (db : Db) (now : ℕ) (c : CancelRequest) where
  -- How a cancellation ends.
  abbrev IsCancelled : Type 0
  IsCancelled =
      (r : Ride) × (to : RideStatus) × (find_ride c.ride_id db.rides ≡ some r)
      × (owns c r ≡ true)
      × (cancel_target now c r ≡ inr to)
      × (cancel db now c ≡ (
        (end_ride_as db now c r.driver_id to).0,
        inr (cancelled_ride now c to r, (end_ride_as db now c r.driver_id to).1),
      ))

  cancel_cases : ((why : RideFailure) × (cancel db now c ≡ (db, inl why))) ⊎ IsCancelled
  unfolding cancel
  cancel_cases = elim (Option-cases (find_ride c.ride_id db.rides)) [
    | inl gone ↦ inl (RideFailure.not_found, rw (gone, cancel) refl)
    | inr (r, found) ↦ elim (Bool-cases (owns c r)) [
      | inr other ↦ inl (RideFailure.not_owner, rw (found, cancel, other) refl)
      | inl mine ↦ elim (sum_cases (cancel_target now c r)) [
        | inl (why, e) ↦ inl (why, rw (found, cancel, mine, e) refl)
        | inr (to, e) ↦ inr (r, to, found, mine, e, rw (found, cancel, mine, e) refl)
      ]
    ]
  ]

module _ (removable : JobState → Bool) (db : Db) (q : Queues) (now wait user : ℕ) (role : Role)
    (id : ℕ) (dto : CancelRide) where
  abbrev pub IsRefused : Type 0
  IsRefused =
      (e : RequestError) × (request_cancel removable db q now wait user role id dto
        ≡ ((db, q), inl e))

  abbrev pub IsEnded : Type 0
  IsEnded =
      (db' : Db) × (q' : Queues) × (e : Ended) × (request_cancel removable db q now wait user role
          id dto
        ≡ ((db', q'), inr e))
      × IsSettled db db' user role id e

  -- a request to cancel either is refused, and tables and queues are as they were, or it ended a
  -- ride of the requester that was under way, whose row now has the end that the answer tells and
  -- the requester as its author.
  pub request_cancel-settles : IsRefused ⊎ IsEnded
  unfolding request_cancel
  request_cancel-settles = elim (Option-cases (cancel_guard role dto)) [
    | inr (e, early) ↦ inl (e, rw (early, request_cancel) refl)
    | inl passed ↦ elim (cancel_cases db now (cancel_request wait user role id dto)) [
      | inl (why, e) ↦ inl (cancel_error why, rw (passed, request_cancel, e, ap (λ p. p.0) e) refl)
      | inr (r, to, found, mine, e, done) ↦
          let (unfinished, over) =
            cancel_target-over now (cancel_request wait user role id dto) r to e in
          let ended_as : Ended = record {
            ride_id = r.id;
            status = to;
            cancelled_by = some (actor_of role);
          } in
          inr (
            (end_ride_as db now (cancel_request wait user role id dto) r.driver_id to).0,
            (if is_scheduled r.type then cancel_wake removable q id else q),
            ended_as,
            rw (passed, request_cancel, done, ap (λ p. p.0) done) refl,
            record {
              was = r;
              is = cancelled_ride now (cancel_request wait user role id dto) to r;
              found = found;
              own = owns-read wait user id role dto r mine;
              unfinished = unfinished;
              ended = end_ride_as-row db now (cancel_request wait user role id dto) r to found;
              told = refl;
              over = over;
              author = refl;
            },
          )
    ]
  ]

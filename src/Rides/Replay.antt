-- ===== src/Rides/Replay.antt =====
-- The creation of a ride, and its repetition under the same idempotency key.
use text.Mathlib.Text.{◌==◌ as str_eq}
use text.Mathlib.TextEquality.{eq_iff}
use rcab.Base.{
  ℕ, ◌≡◌, ◌≢◌, ◌==◌, ◌&&◌, refl, sym, ap, ◌∙◌, true, false, Option, none, some, List, [], ◌∷◌, ◌⊎◌,
  inl, inr, Bool-cases, Option-cases, find_where, exists_where, ==_refl, arith,
}
use rcab.Store.{RideType, Ride, Topic, Db}
use rcab.Trips.Ledger.{Move}
use rcab.Trips.View.{ledger, find_ride, IsSound}
use rcab.Offers.Live.{stay}
use rcab.Guards.{Outcome, commit, abort}
use rcab.Outbox.{enqueue, is_intent}
use rcab.Rides.Create.{
  NewRide, is_scheduled, same_type, in_scope, created_ride, Created, enqueue_work, create,
}
use rcab.Rides.Ends.{enqueue-ledger, created_ride-Move}

-- A scheduled ride comes with its time.
abbrev pub IsTimed : NewRide → Type 0
IsTimed n = is_scheduled n.type ≡ true → n.scheduled_for ≢ none

module _ (db : Db) (now id row : ℕ) (n : NewRide) where
  enqueue-rides :
      (t : Topic) (a g : ℕ) (at : Option ℕ) → (enqueue db now row t a g at).rides ≡ db.rides
  unfolding enqueue
  enqueue-rides t a g at = elim (Bool-cases (exists_where (is_intent t a g) db.outbox)) [
    | inl old ↦ rw old refl
    | inr new ↦ rw new refl
  ]

  enqueue_work-total :
      IsTimed n
      → (db' : Db) × (enqueue_work db now id row n ≡ commit db' tt) × (ledger db' ≡ ledger db)
  unfolding enqueue_work
  enqueue_work-total timed = elim (Bool-cases (is_scheduled n.type)) [
    | inr soon ↦
        rw soon (_, refl, enqueue-ledger db now row Topic.ride_dispatch_requested id 1 none)
    | inl later ↦ rw later (elim (Option-cases n.scheduled_for) [
      | inl gone ↦ absurd (timed later gone)
      | inr (at, e) ↦
          rw e (_, refl, enqueue-ledger db now row Topic.ride_wake_schedule id 1 (some at))
    ])
  ]

  enqueue_work-rides :
      (db' : Db) → enqueue_work db now id row n ≡ commit db' tt → db'.rides ≡ db.rides
  unfolding enqueue_work
  enqueue_work-rides db' e = elim (Bool-cases (is_scheduled n.type)) [
    | inr soon ↦
        sym (ap rides_of (rw soon at e)) ∙ enqueue-rides Topic.ride_dispatch_requested id 1 none
    | inl later ↦ elim (Option-cases n.scheduled_for) [
      | inl gone ↦ absurd (committed (rw (later, gone) at e))
      | inr (at, s) ↦
          sym (ap rides_of (rw (later, s) at e))
          ∙ enqueue-rides Topic.ride_wake_schedule id 1 (some at)
    ]
  ]
    where
      rides_of : Outcome (Unit {0}) → List Ride
      rides_of (commit d u) = d.rides
      rides_of abort = []

      committed : ◌≡◌ {A = Outcome (Unit {0})} abort (commit db' tt) → ⊥
      committed h = cc

in_scope_own : (id : ℕ) (n : NewRide) → in_scope n (created_ride id n) ≡ true
in_scope_own id n = rw (==_refl n.passenger_id, same n.type, (eq_iff n.key n.key).1 refl) refl
  where
    same : (t : RideType) → same_type t t ≡ true
    same RideType.scheduled = refl
    same RideType.normal = refl

module _ (db : Db) (now id row : ℕ) (n : NewRide) where
  -- A creation commits and moves the ledger, if the database's new id is new.
  pub create-Move :
      IsSound db
      → find_ride id db.rides ≡ none
      → IsTimed n
      → (db' : Db) × (c : Created) × (create db now id row n ≡ commit db' c)
        × Move (ledger db) (ledger db')
  unfolding create
  create-Move v new timed = elim (Option-cases (find_where (in_scope n) db.rides)) [
    | inr (old, e) ↦ rw (e, create) (db, _, refl, stay (ledger db))
    | inl gone ↦
        let (db', e, same) =
          enqueue_work-total (record db { rides = created_ride id n ∷ db.rides }) now id row n
            timed in
        rw (gone, create)
          (
            db',
            record { row = created_ride id n; created = true },
            rw e refl,
            rw same (created_ride-Move db id n v new),
          )
  ]

work_cases : (o : Outcome (Unit {0})) → (o ≡ abort) ⊎ ((d : Db) × (o ≡ commit d tt))
work_cases abort = inl refl
work_cases (commit d tt) = inr (d, refl)

-- A creation that committed leaves the ride of its scope in the table.
pub create-known :
    (db db' : Db) (now id row : ℕ) (n : NewRide) (c : Created)
    → create db now id row n ≡ commit db' c
    → find_where (in_scope n) db'.rides ≡ some c.row
unfolding create find_where
create-known db db' now id row n c e = elim (Option-cases (find_where (in_scope n) db.rides)) [
  | inr (old, found) ↦ first_known old found (rw (found, create) at e)
  | inl gone ↦
      elim (work_cases
        (enqueue_work (record db { rides = created_ride id n ∷ db.rides }) now id row n)) [
          | inl stopped ↦ absurd (no_commit (rw (gone, stopped, create) at e))
          | inr (d, done) ↦ second_known d done (rw (gone, done, create) at e)
        ]
]
  where
    no_commit : abort ≡ commit db' c → ⊥
    no_commit h = cc

    first_known :
        (old : Ride)
        → find_where (in_scope n) db.rides ≡ some old
        → commit db (record { row = old; created = false }) ≡ commit db' c
        → find_where (in_scope n) db'.rides ≡ some c.row
    first_known old found h = cc

    second_known :
        (d : Db)
        → enqueue_work (record db { rides = created_ride id n ∷ db.rides }) now id row n
          ≡ commit d tt
        → commit d (record { row = created_ride id n; created = true }) ≡ commit db' c
        → find_where (in_scope n) db'.rides ≡ some c.row
    second_known d done h =
        let rides =
          enqueue_work-rides (record db { rides = created_ride id n ∷ db.rides }) now id row n d
            done in
        let same : db' ≡ d = cc in
        let it : c.row ≡ created_ride id n = cc in rw (same, rides, in_scope_own id n, it) refl

same_scope :
    (n n' : NewRide)
    → n'.passenger_id ≡ n.passenger_id
    → n'.type ≡ n.type
    → n'.key ≡ n.key
    → in_scope n' ≡ in_scope n
same_scope n n' p t k = λ i r.
    r.passenger_id == p i
    && same_type r.idempotency_operation (t i)
    && str_eq r.idempotency_key (k i)

-- after a creation that committed, another one of the same passenger, type and key, on the tables
-- that it left, answers with the same ride as one that it did not create, and leaves the tables as
-- they are, whatever else it asks for and whatever new ids it is given.
pub create-again :
    (db db' : Db) (now later id id' row row' : ℕ) (n n' : NewRide) (c : Created)
    → create db now id row n ≡ commit db' c
    → n'.passenger_id ≡ n.passenger_id
    → n'.type ≡ n.type
    → n'.key ≡ n.key
    → create db' later id' row' n' ≡ commit db' (record { row = c.row; created = false })
unfolding create
create-again db db' now later id id' row row' n n' c e same_passenger same_kind same_key =
    rw
      (
        same_scope n n' same_passenger same_kind same_key,
        create-known db db' now id row n c e,
        create,
      )
      refl

-- The row of a ride that was created is the one of the request.
pub create-created :
    (db db' : Db) (now id row : ℕ) (n : NewRide) (c : Created)
    → create db now id row n ≡ commit db' c
    → c.created ≡ true
    → c.row ≡ created_ride id n
unfolding create
create-created db db' now id row n c e made =
    elim (Option-cases (find_where (in_scope n) db.rides)) [
      | inr (old, found) ↦ absurd (was_there old (rw (found, create) at e))
      | inl gone ↦
          elim (work_cases
            (enqueue_work (record db { rides = created_ride id n ∷ db.rides }) now id row n)) [
              | inl stopped ↦ absurd (no_commit (rw (gone, stopped, create) at e))
              | inr (d, done) ↦ it d (rw (gone, done, create) at e)
            ]
    ]
  where
    was_there : (old : Ride) → commit db (record { row = old; created = false }) ≡ commit db' c → ⊥
    was_there old h = let no : false ≡ c.created = cc in ground (arith, no, made)

    no_commit : abort ≡ commit db' c → ⊥
    no_commit h = cc

    it :
        (d : Db)
        → commit d (record { row = created_ride id n; created = true }) ≡ commit db' c
        → c.row ≡ created_ride id n
    it d h = cc

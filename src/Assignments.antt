-- ===== src/Assignments.antt =====
-- apps/api/src/modules/dispatch/driver-assignment.projection.ts: the trip that the presence of a driver in
-- Redis names. The state of a driver is none without a presence, and else holds the field
-- `current_ride_id`; the presence has other fields, so it does not go with this one. The tables do
-- not change during a reconciliation, and `keys` are the drivers that SCAN finds.
pub mod Walk
pub mod Repaired
use rcab.Base.{
  ℕ, suc, ◌==◌, Bool, true, false, Option, none, some, List, [], ◌∷◌, is_id, if◌then◌else◌,
}
use rcab.Store.{trip_id, Guard, Db}
use rcab.Offers.{expire_lapsed}
use rcab.Guards.{find_by_driver}

abbrev pub DriverStates : Type 0
DriverStates = ℕ → Option (Option ℕ)

abbrev pub set_state : DriverStates → ℕ → Option (Option ℕ) → DriverStates
set_state s driver field d = if d == driver then field else s d

-- HGET of the field.
abbrev pub current_of : Option (Option ℕ) → Option ℕ
current_of none = none
current_of (some field) = field

-- `projectCurrentRide`, by SET_IF_PRESENT.
unfoldable pub project_current_ride : DriverStates → ℕ → ℕ → DriverStates × Bool
project_current_ride s driver trip = elim (s driver) [
  | none ↦ (s, false)
  | some field ↦ (set_state s driver (some (some trip)), true)
]

-- `clearCurrentRide`, by CLEAR_IF_MATCH.
unfoldable pub clear_current_ride : DriverStates → ℕ → ℕ → DriverStates × Bool
clear_current_ride s driver trip =
    if is_id (current_of (s driver)) trip
    then (set_state s driver (some none), true)
    else (s, false)

-- The map of what is expected: of two guards of a driver the later one counts.
unfoldable pub expected : List Guard → ℕ → Option ℕ
expected [] driver = none
expected (g ∷ gs) driver =
    let rest = expected gs driver in
    elim rest [
      | some trip ↦ some trip
      | none ↦ if g.driver_id == driver then some (trip_id g.trip) else none
    ]

-- `stillAssigned`.
unfoldable pub still_assigned : Db → ℕ → ℕ → Bool
unfolding find_by_driver
still_assigned db driver trip = elim (find_by_driver db driver) [
  | none ↦ false
  | some g ↦ trip_id g.trip == trip
]

abbrev pub counted : DriverStates × Bool → ℕ → DriverStates × ℕ
counted (s, true) n = (s, suc n)
counted (s, false) n = (s, n)

unfoldable pub project_guard : Db → Guard → DriverStates × ℕ → DriverStates × ℕ
unfolding still_assigned project_current_ride
project_guard db g (s, n) =
    if is_id (current_of (s g.driver_id)) (trip_id g.trip)
    then (s, n)
    else if still_assigned db g.driver_id (trip_id g.trip)
    then counted (project_current_ride s g.driver_id (trip_id g.trip)) n
    else (s, n)

unfoldable pub project_guards : Db → List Guard → DriverStates × ℕ → DriverStates × ℕ
unfolding project_guard
project_guards db [] s = s
project_guards db (g ∷ gs) s = project_guards db gs (project_guard db g s)

unfoldable pub clear_stale : Db → ℕ → DriverStates × ℕ → DriverStates × ℕ
unfolding still_assigned clear_current_ride expected
clear_stale db driver (s, n) = elim (current_of (s driver)) [
  | none ↦ (s, n)
  | some trip ↦
      if is_id (expected db.guards driver) trip
      then (s, n)
      else if still_assigned db driver trip
      then (s, n)
      else counted (clear_current_ride s driver trip) n
]

unfoldable pub clear_all : Db → List ℕ → DriverStates × ℕ → DriverStates × ℕ
unfolding clear_stale
clear_all db [] s = s
clear_all db (d ∷ ds) s = clear_all db ds (clear_stale db d s)

pub record Reconciled : Type 0 where
  pub projected : ℕ
  pub cleared : ℕ
  pub expired_offers : ℕ

-- `reconcile`.
unfoldable pub reconcile : Db → DriverStates → ℕ → List ℕ → Db × DriverStates × Reconciled
unfolding project_guards clear_all expire_lapsed
reconcile db s now keys =
    let (db', expired_offers) = expire_lapsed db now in
    let (s1, projected) = project_guards db' db'.guards (s, 0) in
    let (s2, cleared) = clear_all db' keys (s1, 0) in
    (db', s2, record { projected = projected; cleared = cleared; expired_offers = expired_offers })

-- ===== src/Tests/Stops.antt =====
-- A driver confirms the two stops of a pool with one passenger.
use rcab.Base.{ℕ, ◌≡◌, refl, none, some, [], ◌∷◌, true, false, ◌==◌, inl, inr, Bool-cases, arith}
use rcab.Store.{Point, Pool, PoolState, StopType, RideStop, Db}
use rcab.Stops.{StopConfirm, Confirmed, confirmed_stop, confirm_stop}
use rcab.Guards.{after}
use rcab.Stops.Counts.{IsKeyed}
use rcab.Stops.Answers.{told, IsNext, confirm_stop-IsNext}
use rcab.Tests.Dispatch.{empty}

abbrev corner : Point
corner = record { lat = 3; lng = 4 }

abbrev pub pickup_stop : RideStop
pickup_stop = record {
  ride_id = 5;
  sequence_index = 0;
  passenger_id = 100;
  type = StopType.pickup;
  point = corner;
  confirmed_at = none;
}

abbrev pub dropoff_stop : RideStop
dropoff_stop = record pickup_stop { sequence_index = 1; type = StopType.dropoff }

abbrev pub riding : Pool
riding = record {
  ride_id = 5;
  seat_count = 1;
  max_seats = 4;
  pool_state = PoolState.closed_full;
  pool_opened_at = 600;
  pool_closed_at = some 900;
  detour_budget_m = 800;
  origin = corner;
  dest = corner;
  claimed_by_driver_id = some 7;
  claimed_at = some 950;
  completed_at = none;
  dispatch_generation = 1;
  state_version = 3;
}

abbrev pub on_the_way : Db
on_the_way = record empty { pools = riding ∷ []; stops = pickup_stop ∷ dropoff_stop ∷ [] }

abbrev confirmation : ℕ → StopType → StopConfirm
confirmation index type = record { ride_id = 5; driver_id = 7; sequence_index = index; type = type }

abbrev first_confirmed : Confirmed
first_confirmed = record {
  stop = confirmed_stop 1000 pickup_stop;
  pending_after = 1;
  ride_completed = false;
  duplicate = false;
}

first_told :
    told (confirm_stop on_the_way 1000 (confirmation 0 StopType.pickup)) ≡ some first_confirmed
unfolding confirm_stop rcab.Base.find_by rcab.Base.sort_by rcab.Base.select_where
    rcab.Base.exists_where rcab.Base.update_where
first_told = refl

stops-IsKeyed : IsKeyed on_the_way.stops
unfolding rcab.Base.select_where
stops-IsKeyed id index = elim (Bool-cases (5 == id)) [
  | inr other ↦ rw other (omega arith)
  | inl own ↦ rw own (elim (Bool-cases (0 == index)) [
    | inl first ↦
        let later : (1 == index) ≡ false = ground (arith, first) in rw (first, later) (omega arith)
    | inr later ↦ rw later (elim (Bool-cases (1 == index)) [
      | inl second ↦ rw second (omega arith)
      | inr beyond ↦ rw beyond (omega arith)
    ])
  ])
]

confirm_stop-IsNext_example :
    IsNext on_the_way 1000
      (confirmation 0 StopType.pickup)
      first_confirmed
      (after on_the_way (confirm_stop on_the_way 1000 (confirmation 0 StopType.pickup)))
confirm_stop-IsNext_example =
    confirm_stop-IsNext on_the_way 1000 (confirmation 0 StopType.pickup) first_confirmed
      stops-IsKeyed first_told refl

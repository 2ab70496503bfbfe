-- ===== src/Tests/Told.antt =====
-- What the two members of pool 5 and its driver are told.
use rcab.Base.{
  ℕ, ◌≡◌, ◌≢◌, ◌≤◌, refl, sym, ap, Bool, true, false, none, some, Option, List, [], ◌∷◌, Memᴰ, ◌⊎◌,
  inl, inr, Bool-cases, ==_iff, ◌==◌, if◌then◌else◌, arith,
}
use rcab.Store.{solo, Ride, Point, PoolMember, RideStop, Db}
use rcab.Trips.View.{find_ride}
use rcab.Rides.Create.{created_ride, create}
use rcab.System.{start, then, accepted}
use rcab.Realtime.{ride_status_version}
use rcab.Realtime.Versions.Histories.{History-versions}
use rcab.Realtime.Snapshots.{pool_snapshot, AssignmentView, driver_assignment, trip_of_view}
use rcab.Realtime.Snapshots.Privacy.{HidesStop, HidesSeat, disguised, pool_snapshot-private}
use rcab.Realtime.Snapshots.Assignments.{driver_assignment-recovers}
use rcab.Realtime.Gateway.{Socket, pool_room, handle_pool_subscribe}
use rcab.Realtime.Gateway.Rooms.{IsAdmitted, handle_pool_subscribe-IsAdmitted}
use rcab.Tests.Dispatch.{db3, db4, db3-IsSound, db4-IsSound, holds, request}
use rcab.Tests.Stops.{on_the_way, pickup_stop, dropoff_stop}

abbrev nowhere : Point
nowhere = record { lat = 0; lng = 0 }

-- Every stop and seat of others becomes the one of passenger 0, nowhere.
abbrev hide_stop : RideStop → RideStop
hide_stop s = if s.passenger_id == 100 then s else record s { passenger_id = 0; point = nowhere }

abbrev hide_seat : PoolMember → PoolMember
hide_seat m = if m.passenger_id == 100 then m else record m { passenger_id = 0; origin = nowhere }

hide_stop-HidesStop : HidesStop 100 hide_stop
hide_stop-HidesStop = record {
  own = λ s e. rw e refl;
  others = λ s other. elim (Bool-cases (s.passenger_id == 100)) [
    | inl same ↦ absurd (other ((==_iff s.passenger_id 100).0 same))
    | inr miss ↦ rw miss (λ e. ground arith)
  ];
  ride = λ s. elim (Bool-cases (s.passenger_id == 100)) [ inl h ↦ rw h refl | inr h ↦ rw h refl ];
  index = λ s. elim (Bool-cases (s.passenger_id == 100)) [ inl h ↦ rw h refl | inr h ↦ rw h refl ];
  type = λ s. elim (Bool-cases (s.passenger_id == 100)) [ inl h ↦ rw h refl | inr h ↦ rw h refl ];
  confirmed =
      λ s. elim (Bool-cases (s.passenger_id == 100)) [ inl h ↦ rw h refl | inr h ↦ rw h refl ];
}

hide_seat-HidesSeat : HidesSeat 100 hide_seat
hide_seat-HidesSeat = record {
  own = λ s e. rw e refl;
  others = λ s other. elim (Bool-cases (s.passenger_id == 100)) [
    | inl same ↦ absurd (other ((==_iff s.passenger_id 100).0 same))
    | inr miss ↦ rw miss (λ e. ground arith)
  ];
}

abbrev seat : ℕ → PoolMember
seat passenger = record {
  pool_id = 5;
  passenger_id = passenger;
  origin = nowhere;
  dest = nowhere;
  agreed_fare_cents = 15000;
  idempotency_key = none;
  active = true;
  joined_at = 10;
}

abbrev shared_tables : Db
shared_tables = record on_the_way {
  members = seat 100 ∷ seat 101 ∷ [];
  stops = pickup_stop ∷ record pickup_stop { passenger_id = 101 } ∷ dropoff_stop ∷ [];
}

pool_snapshot-private_example :
    pool_snapshot (disguised 100 hide_stop hide_seat shared_tables) 5 100
    ≡ pool_snapshot shared_tables 5 100
pool_snapshot-private_example =
    pool_snapshot-private 100 shared_tables 5 hide_stop hide_seat hide_stop-HidesStop
      hide_seat-HidesSeat

driver_assignment-recovers_example :
    (a : AssignmentView) × (driver_assignment db4 7 ≡ some a) × (trip_of_view a ≡ solo 1)
driver_assignment-recovers_example = driver_assignment-recovers db4 db4-IsSound 7 (solo 1) holds

abbrev phone : Socket
phone = record { user_id = some 100; is_driver = false; rooms = []; sent = []; connected = true }

entered :
    Memᴰ
      (pool_room 5)
      (handle_pool_subscribe phone (some 5) (some shared_tables) (some shared_tables)).0.rooms
unfolding handle_pool_subscribe rcab.Realtime.Snapshots.is_pool_member rcab.Base.exists_where
    pool_snapshot rcab.Base.find_by rcab.Base.find_where
entered = Memᴰ.tail (Memᴰ.head refl)

handle_pool_subscribe-IsAdmitted_example :
    Memᴰ (pool_room 5) [] ⊎ IsAdmitted phone (some 5) (some shared_tables) (pool_room 5)
handle_pool_subscribe-IsAdmitted_example =
    handle_pool_subscribe-IsAdmitted phone (some 5) (some shared_tables) (some shared_tables)
      (pool_room 5) entered

requested : find_ride 1 db3.rides ≡ some (created_ride 1 request)
unfolding create rcab.Offers.create_offer rcab.Base.find_by rcab.Base.find_where rcab.Outbox.enqueue
    rcab.Base.exists_where rcab.Offers.insert_offer rcab.Offers.expire_driver
    rcab.Offers.dispatchable rcab.Base.update_where
requested = refl

History-versions_example :
    (r : Ride) × (find_ride 1 db4.rides ≡ some r)
    × (1 ≤ ride_status_version r.status)
    × (1 ≡ ride_status_version r.status → r.status ≡ (created_ride 1 request).status)
History-versions_example =
    History-versions 1 (created_ride 1 request) ((then) start (accepted 40 50 7)) db3-IsSound
      requested

-- ===== src/Tests/Dispatch.antt =====
-- A ride is created and offered to two drivers; the first accepts it, asks again, and the second is
-- too late.
use rcab.Base.{ℕ, ◌≡◌, refl, Bool, true, false, Option, none, some, List, [], ◌∷◌, Memᴰ, arith}
use rcab.Store.{TripRef, solo, shared, Point, RideType, Ride, OfferState, Offer, User, Vehicle, Db}
use rcab.Trips.Ledger.{bound, stray, Live, Move}
use rcab.Trips.View.{IsSound, ledger, trip_state}
use rcab.Offers.{create_offer, lock_for_update, RevokedOffer}
use rcab.Guards.{Outcome, commit, after, has_driver}
use rcab.Accept.{assigned, accept_in_tx, accept_offer, refuse, trip_taken}
use rcab.Accept.Outcomes.{answer, Commits, accept_offer-Commits, assigned-bound}
use rcab.Accept.Replay.{accept-replays, accept-trip_taken}
use rcab.Rides.Create.{NewRide, created_ride, create, claim_solo}
use rcab.Rides.Claim.{claim_solo-Move}
use rcab.Rides.Replay.{create-again}
use rcab.System.{
  History, start, then, accepted, offered, created, Step-Move, History-IsSound, History-one_trip,
}

abbrev here : Point
here = record { lat = 10; lng = 20 }

abbrev driver_user : ℕ → User
driver_user id = record { id = id; is_active = true; is_driver = true; has_driver_row = true }

abbrev car : ℕ → Vehicle
car driver = record { driver_id = driver; seats = 4; active = true }

abbrev pub empty : Db
empty = record {
  rides = [];
  pools = [];
  members = [];
  stops = [];
  offers = [];
  guards = [];
  outbox = [];
  users = driver_user 7 ∷ driver_user 8 ∷ [];
  vehicles = car 7 ∷ car 8 ∷ [];
}

empty-IsSound : IsSound empty
unfolding rcab.Base.find_by rcab.Base.find_where
empty-IsSound = record {
  one_trip = λ g h mg mh e. elim mg [ ];
  guard_bound = λ g m. elim m [ ];
  bound_guard = λ t d e. absurd (nobody t d e);
  live_claimable = λ o lv. elim lv.0 [ ];
  one_live = λ o p a b e. elim a.0 [ ];
  one_live_id = λ o p a b e. elim a.0 [ ];
  accepted_over = λ o sp. elim sp.0 [ ];
  offer_spent = λ g o m lv. elim m [ ];
  no_stray = λ t d e. astray t d e;
}
  where
    nobody : (t : TripRef) (d : ℕ) → trip_state empty t ≡ bound d → ⊥
    nobody (solo k) d e = cc
    nobody (shared k) d e = cc

    astray : (t : TripRef) (d : ℕ) → trip_state empty t ≡ stray d → ⊥
    astray (solo k) d e = cc
    astray (shared k) d e = cc

abbrev pub request : NewRide
request = record {
  passenger_id = 100;
  origin = here;
  dest = here;
  fare_cents = 25000;
  key = "k1";
  type = RideType.normal;
  scheduled_for = none;
  fingerprint = none;
}

-- The database after each transaction, written out by the transaction itself.
abbrev pub db1 : Db
db1 = after empty (create empty 10 1 900 request)

abbrev db2 : Db
db2 = (create_offer db1 20 50 (solo 1) 7 1 1 1000).0

abbrev pub db3 : Db
db3 = (create_offer db2 30 51 (solo 1) 8 1 1 1000).0

abbrev pub db4 : Db
db4 = after db3 (accept_offer db3 40 50 7)

history3 : History empty db3
unfolding create create_offer rcab.Base.find_by rcab.Base.find_where rcab.Outbox.enqueue
    rcab.Base.exists_where rcab.Offers.insert_offer rcab.Offers.expire_driver
    rcab.Offers.dispatchable rcab.Base.update_where
history3 =
    then
      (then (then start (created 10 1 900 request refl (λ e. cc)))
        (offered 20 50 (solo 1) 7 1 1 1000 (λ h m. elim m [ ])))
      (offered 30 51 (solo 1) 8 1 1 1000 (λ h m. elim m [ ]))

history4 : History empty db4
history4 = then history3 (accepted 40 50 7)

pub db3-IsSound : IsSound db3
db3-IsSound = History-IsSound history3 empty-IsSound

won : answer (accept_in_tx db3 40 50 7 (solo 1)) ≡ some (assigned (solo 1) 1 false)
unfolding accept_in_tx create_offer create rcab.Base.find_by rcab.Offers.dispatchable
    rcab.Outbox.enqueue rcab.Base.exists_where rcab.Offers.insert_offer rcab.Offers.expire_driver
    rcab.Base.update_where rcab.Guards.driver_eligibility rcab.Guards.max_seats rcab.Guards.acquire
    rcab.Guards.claim_solo_row rcab.Offers.resolve_live
won = refl

pub holds : trip_state db4 (solo 1) ≡ bound 7
unfolding rcab.Base.find_by accept_offer rcab.Offers.find_for_driver create_offer
    rcab.Offers.dispatchable create rcab.Outbox.enqueue rcab.Base.exists_where
    rcab.Offers.insert_offer rcab.Offers.expire_driver rcab.Base.update_where
    rcab.Guards.driver_eligibility rcab.Guards.max_seats rcab.Guards.acquire
    rcab.Guards.claim_solo_row rcab.Offers.resolve_live rcab.Offers.revoke_live_for_trip
holds = refl

pub db4-IsSound : IsSound db4
db4-IsSound = History-IsSound history4 empty-IsSound

History-one_trip_example : solo 1 ≡ solo 1
History-one_trip_example = History-one_trip (solo 1) (solo 1) 7 history4 empty-IsSound holds holds

History-IsSound_example : IsSound db4
History-IsSound_example = History-IsSound history4 empty-IsSound

accept_offer-Commits_example : Commits db3 (accept_offer db3 40 50 7)
accept_offer-Commits_example = accept_offer-Commits db3 40 50 7 db3-IsSound

assigned-bound_example :
    trip_state (after db3 (accept_in_tx db3 40 50 7 (solo 1))) (solo 1) ≡ bound 7
assigned-bound_example = assigned-bound db3 40 50 7 (solo 1) (solo 1) 1 false db3-IsSound won

accept-replays_example :
    accept_in_tx (after db3 (accept_in_tx db3 40 50 7 (solo 1))) 45 50 7 (solo 1)
    ≡ commit (after db3 (accept_in_tx db3 40 50 7 (solo 1))) (assigned (solo 1) 1 true, [])
accept-replays_example = accept-replays db3 40 50 7 (solo 1) (solo 1) 1 45 false db3-IsSound won

-- The other driver's offer, as it is before the acceptance.
abbrev late_offer : Offer
late_offer = record {
  id = 51;
  trip = solo 1;
  driver_id = 8;
  generation = 1;
  wave_number = 1;
  state = OfferState.offered;
  offered_at = 30;
  expires_at = 1030;
  resolved_at = none;
}

late_read : lock_for_update db3 51 ≡ some late_offer
unfolding create create_offer rcab.Base.find_by rcab.Base.find_where rcab.Outbox.enqueue
    rcab.Base.exists_where rcab.Offers.insert_offer rcab.Offers.expire_driver
    rcab.Offers.dispatchable rcab.Base.update_where
late_read = refl

late_offer-Live : Live late_offer (ledger db3)
unfolding create create_offer rcab.Base.find_by rcab.Base.find_where rcab.Outbox.enqueue
    rcab.Base.exists_where rcab.Offers.insert_offer rcab.Offers.expire_driver
    rcab.Offers.dispatchable rcab.Base.update_where
late_offer-Live = (Memᴰ.head refl, refl)

accept-trip_taken_example :
    accept_in_tx (after db3 (accept_in_tx db3 40 50 7 (solo 1))) 45 51 8 (solo 1)
    ≡ refuse (after db3 (accept_in_tx db3 40 50 7 (solo 1))) trip_taken
accept-trip_taken_example =
    accept-trip_taken db3 40 50 7 (solo 1) (solo 1) 1 45 51 8 late_offer db3-IsSound won
      (record { read = late_read; mine = refl }) late_offer-Live refl (λ e. ground (arith, e))

first_creation :
    create empty 10 1 900 request
    ≡ commit db1 (record { row = created_ride 1 request; created = true })
unfolding create rcab.Base.find_where rcab.Outbox.enqueue rcab.Base.exists_where
first_creation = refl

-- Another fare and another destination under the same key.
abbrev changed_request : NewRide
changed_request = record request { fare_cents = 1; dest = request.origin }

create-again_example :
    create db1 60 2 901 changed_request
    ≡ commit db1 (record { row = created_ride 1 request; created = false })
create-again_example =
    create-again empty db1 10 60 1 2 900 901 request changed_request
      (record { row = created_ride 1 request; created = true }) first_creation refl refl refl

db3_driver : has_driver db3 7 ≡ true
unfolding rcab.Base.exists_where create_offer rcab.Offers.dispatchable rcab.Base.find_by create
    rcab.Outbox.enqueue rcab.Offers.insert_offer rcab.Offers.expire_driver rcab.Base.update_where
db3_driver = refl

claim_solo-Move_example :
    (db' : Db) × (row : Option Ride) × (claim_solo db3 40 1 7 ≡ commit db' row)
    × Move (ledger db3) (ledger db')
claim_solo-Move_example = claim_solo-Move db3 40 1 7 db3-IsSound db3_driver

Step-Move_example : Move (ledger db3) (ledger db4)
Step-Move_example = Step-Move (accepted 40 50 7) db3-IsSound

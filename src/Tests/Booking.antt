-- ===== src/Tests/Booking.antt =====
-- A passenger books a ride, and asks again when the quote has expired.
use Prim.Native.String.{String}
use rcab.Base.{ltb, if◌then◌else◌, ℕ, ◌≡◌, refl, true, none, some, Option, ◌⊎◌, inl, inr}
use rcab.Store.{Point, RideType, Db, RideStatus}
use rcab.Guards.{after}
use rcab.Rides.Create.{NewRide, create}
use rcab.Booking.{
  CreateRide, QuoteClaims, QuoteCheck, verified, expired, SoloResponse, RequestError, Reply,
  create_normal,
}
use rcab.Booking.Replays.{create_normal-replays}
use rcab.Sessions.{Role}
use rcab.Booking.Cancels.{IsRefused, IsEnded, request_cancel-settles}
use rcab.Base.{false}
use rcab.Tests.Dispatch.{empty}

abbrev home : Point
home = record { lat = 12; lng = 77 }

abbrev airport : Point
airport = record { lat = 13; lng = 77 }

abbrev trip : CreateRide
trip = record { origin = home; dest = airport; quote_token = some "quote"; scheduled_for = none }

abbrev quoted : QuoteClaims
quoted = record { origin = home; dest = airport; solo_fare_cents = 45000 }

-- The quote expires at 1000.
abbrev read_quote : ℕ → String → QuoteCheck
read_quote wall token = if ltb wall 1000 then verified quoted else expired

abbrev digest : RideType → CreateRide → String
digest type dto = "digest"

abbrev new_trip : NewRide
new_trip = record {
  passenger_id = 100;
  origin = home;
  dest = airport;
  fare_cents = 45000;
  key = "key-1";
  type = RideType.normal;
  scheduled_for = none;
  fingerprint = some "digest";
}

abbrev booked : Db
booked = after empty (create empty 10 1 900 new_trip)

abbrev response : SoloResponse
response = record {
  ride_id = 1;
  passenger_id = 100;
  status = RideStatus.requested;
  fare_cents = 45000;
}

first_booking :
    create_normal digest read_quote
      (λ a b. true)
      (λ s. none)
      empty
      empty
      500
      10
      1
      900
      100
      trip
      (some "key-1")
    ≡ (booked, (some (100, 1), inr response))
unfolding create_normal rcab.Booking.is_key rcab.Booking.all_visible create rcab.Base.find_where
    rcab.Outbox.enqueue rcab.Base.exists_where rcab.Base.length
first_booking = refl

create_normal-replays_example :
    create_normal digest read_quote
      (λ a b. true)
      (λ s. none)
      booked
      booked
      5000
      60
      2
      901
      100
      trip
      (some "key-1")
    ≡ (booked, (none, inr response))
create_normal-replays_example =
    create_normal-replays digest read_quote (λ a b. true) (λ s. none) empty booked 100 trip
      (some (100, 1)) response 500 10 1 900 (some "key-1") first_booking booked 5000 60 2 901

request_cancel-settles_example :
    IsRefused
      (λ s. true)
      booked
      (λ j. none)
      60
      300000
      100
      Role.client
      1
      (record { is_no_show = false; reason = none })
    ⊎ IsEnded
        (λ s. true)
        booked
        (λ j. none)
        60
        300000
        100
        Role.client
        1
        (record { is_no_show = false; reason = none })
request_cancel-settles_example =
    request_cancel-settles (λ s. true) booked (λ j. none) 60 300000 100 Role.client 1
      (record { is_no_show = false; reason = none })

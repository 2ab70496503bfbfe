-- ===== src/Booking.antt =====
-- apps/api/src/modules/rides/rides.controller.ts: the requests of passengers and drivers on rides, with the
-- scope of idempotency keys (idempotency.ts) and the quotes (quote-token.service.ts). The digest of a request,
-- the verification of a quote token, the reading of a date and the comparison of coordinates (floating
-- point) are parameters. `seen` are the tables at the lookup of a replay, `db` those at the transaction.
pub mod Replays
pub mod Requests
pub mod Cancels
use Prim.Native.String.{String}
use text.Mathlib.Text.{◌==◌ as str_eq}
use rcab.Base.{
  ℕ, ◌+◌, ◌==◌, ◌&&◌, ◌||◌, not, leb, ltb, Bool, true, false, Option, none, some, List, [], ◌∷◌,
  ◌⊎◌, inl, inr, length, find_where, if◌then◌else◌,
}
use rcab.Store.{Point, RideStatus, RideType, Ride, Db}
use rcab.Guards.{Outcome, commit, abort}
use rcab.Rides.Create.{NewRide, same_type, create, Created}
use rcab.Sessions.{codes}

-- The texts are none where they are missing or empty.
pub record CreateRide : Type 0 where
  pub origin : Point
  pub dest : Point
  pub quote_token : Option String
  pub scheduled_for : Option String

pub record QuoteClaims : Type 0 where
  pub origin : Point
  pub dest : Point
  pub solo_fare_cents : ℕ

pub data QuoteCheck : Type 0 where
  verified : QuoteClaims → QuoteCheck
  expired tampered : QuoteCheck

pub record SoloResponse : Type 0 where
  pub ride_id : ℕ
  pub passenger_id : ℕ
  pub status : RideStatus
  pub fare_cents : ℕ

-- The errors, by their codes; `server_error` is one that the code does not expect.
pub data RequestError : Type 0 where
  idempotency_key_required idempotency_key_invalid idempotency_key_conflict : RequestError
  invalid_quote quote_expired quote_mismatch : RequestError
  scheduled_for_required scheduled_for_out_of_window : RequestError
  forbidden ride_not_found invalid_event invalid_transition reason_required no_show_too_early :
      RequestError
  server_error : RequestError

-- KEY_PATTERN.
abbrev pub is_visible : ℕ → Bool
is_visible c = leb 33 c && leb c 126

unfoldable pub all_visible : List ℕ → Bool
all_visible [] = true
all_visible (c ∷ cs) = is_visible c && all_visible cs

unfoldable pub is_key : String → Bool
unfolding all_visible
is_key s = let cs = codes s in all_visible cs && leb 1 (length cs) && leb (length cs) 128

-- `parseIdempotencyKey`.
unfoldable pub parse_idempotency_key : Option String → RequestError ⊎ Option String
unfolding is_key
parse_idempotency_key none = inr none
parse_idempotency_key (some raw) =
    if str_eq raw ""
    then inr none
    else if is_key raw
    then inr (some raw)
    else inl idempotency_key_invalid

-- The key of an operation that requires one.
unfoldable pub required_key : Option String → RequestError ⊎ String
unfolding parse_idempotency_key
required_key raw = elim (parse_idempotency_key raw) [
  | inl e ↦ inl e
  | inr found ↦ elim found [ none ↦ inl idempotency_key_required | some key ↦ inr key ]
]

-- `fingerprintMatches`.
abbrev pub fingerprint_matches : Option String → String → Bool
fingerprint_matches none incoming = true
fingerprint_matches (some stored) incoming = str_eq stored incoming

abbrev pub solo_response : Ride → SoloResponse
solo_response r = record {
  ride_id = r.id;
  passenger_id = r.passenger_id;
  status = r.status;
  fare_cents = r.fare_cents;
}

-- `findByIdempotencyScope`.
abbrev pub is_of_scope : ℕ → RideType → String → Ride → Bool
is_of_scope passenger type key r =
    r.passenger_id == passenger
    && same_type r.idempotency_operation type
    && str_eq r.idempotency_key key

-- `replaySolo`.
unfoldable pub replay_solo :
    Db → ℕ → RideType → String → String → RequestError ⊎ Option SoloResponse
replay_solo db passenger type key fingerprint =
    elim (find_where (is_of_scope passenger type key) db.rides) [
      | none ↦ inr none
      | some r ↦
          if fingerprint_matches r.request_fingerprint fingerprint
          then inr (some (solo_response r))
          else inl idempotency_key_conflict
    ]

-- The tables, the passenger and ride whose room the client is made to join, and the answer.
abbrev pub Reply : Type 0
Reply = Db × (Option (ℕ × ℕ) × (RequestError ⊎ SoloResponse))

abbrev pub denied : Db → RequestError → Reply
denied db e = (db, (none, inl e))

-- `if (replay) return replay`, and what throws.
abbrev pub or_replay : RequestError ⊎ Option SoloResponse → Db → Reply → Reply
or_replay (inl e) db rest = denied db e
or_replay (inr (some r)) db rest = (db, (none, inr r))
or_replay (inr none) db rest = rest

-- The answer for the row that `create` gave.
abbrev pub created_reply : String → Created → RequestError ⊎ SoloResponse
created_reply fingerprint c =
    if not c.created && not (fingerprint_matches c.row.request_fingerprint fingerprint)
    then inl idempotency_key_conflict
    else inr (solo_response c.row)

unfoldable pub book : Db → ℕ → ℕ → ℕ → NewRide → String → Reply
book db now id row n fingerprint = elim (create db now id row n) [
  | abort ↦ denied db server_error
  | commit db' c ↦
      let join = if c.created then some (n.passenger_id, c.row.id) else none in
      (db', (join, created_reply fingerprint c))
]

abbrev pub min_lead_ms : ℕ
min_lead_ms = 900000

abbrev pub max_lead_ms : ℕ
max_lead_ms = 86400000

-- `leadMs` between the limits; the difference may be negative, so the limits are added to the clock.
abbrev pub is_in_window : ℕ → ℕ → Bool
is_in_window wall at = leb (wall + min_lead_ms) at && leb at (wall + max_lead_ms)

module _ (digest : RideType → CreateRide → String) (verify : ℕ → String → QuoteCheck)
    (near : Point → Point → Bool) (read_date : String → Option ℕ) where
  -- `verifyQuote`, with `coordsMatch`.
  unfoldable pub verify_quote : ℕ → CreateRide → String → RequestError ⊎ QuoteClaims
  verify_quote wall dto token = elim (verify wall token) [
    | expired ↦ inl quote_expired
    | tampered ↦ inl invalid_quote
    | verified claims ↦
        if near claims.origin dto.origin && near claims.dest dto.dest
        then inr claims
        else inl quote_mismatch
  ]

  abbrev pub new_ride : ℕ → CreateRide → RideType → String → Option ℕ → ℕ → NewRide
  new_ride passenger dto type key at fare = record {
    passenger_id = passenger;
    origin = dto.origin;
    dest = dto.dest;
    fare_cents = fare;
    key = key;
    type = type;
    scheduled_for = at;
    fingerprint = some (digest type dto);
  }

  -- A booking that is no replay.
  unfoldable pub book_quoted :
      Db → ℕ → ℕ → ℕ → ℕ → ℕ → CreateRide → RideType → String → Option ℕ → String → Reply
  unfolding book verify_quote
  book_quoted db wall now id row passenger dto type key at token =
      elim (verify_quote wall dto token) [
        | inl e ↦ denied db e
        | inr claims ↦
            book db now id row (new_ride passenger dto type key at claims.solo_fare_cents)
              (digest type dto)
      ]

  -- `createNormal`.
  unfoldable pub create_normal : Db → Db → ℕ → ℕ → ℕ → ℕ → ℕ → CreateRide → Option String → Reply
  unfolding required_key replay_solo book_quoted
  create_normal seen db wall now id row passenger dto raw = elim (required_key raw) [
    | inl e ↦ denied db e
    | inr key ↦ elim dto.quote_token [
      | none ↦ denied db invalid_quote
      | some token ↦
          or_replay (replay_solo seen passenger RideType.normal key (digest RideType.normal dto)) db
            (book_quoted db wall now id row passenger dto RideType.normal key none token)
    ]
  ]

  -- The check of the window, after a replay was looked for.
  unfoldable pub book_scheduled :
      Db → ℕ → ℕ → ℕ → ℕ → ℕ → CreateRide → String → String → String → Reply
  unfolding book_quoted
  book_scheduled db wall now id row passenger dto key token date = elim (read_date date) [
    | none ↦ denied db scheduled_for_out_of_window
    | some at ↦
        if is_in_window wall at
        then book_quoted db wall now id row passenger dto RideType.scheduled key (some at) token
        else denied db scheduled_for_out_of_window
  ]

  -- `createScheduled`.
  unfoldable pub create_scheduled : Db → Db → ℕ → ℕ → ℕ → ℕ → ℕ → CreateRide → Option String → Reply
  unfolding required_key replay_solo book_scheduled
  create_scheduled seen db wall now id row passenger dto raw = elim (required_key raw) [
    | inl e ↦ denied db e
    | inr key ↦ elim dto.quote_token [
      | none ↦ denied db invalid_quote
      | some token ↦ elim dto.scheduled_for [
        | none ↦ denied db scheduled_for_required
        | some date ↦
            or_replay
              (replay_solo seen passenger RideType.scheduled key (digest RideType.scheduled dto)) db
              (book_scheduled db wall now id row passenger dto key token date)
      ]
    ]
  ]

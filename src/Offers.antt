-- ===== src/Offers.antt =====
-- apps/api/src/modules/dispatch/offer.repository.ts: the statements on `dispatch_offer`. Each
-- takes the tables and the database clock, and returns the tables with its result.
pub mod Live
use rcab.Base.{
  ℕ, ◌+◌, ◌==◌, ◌&&◌, ◌||◌, not, leb, ltb, max, Bool, true, false, Option, none, some, List, [],
  ◌∷◌, map, is_id, is_some, if◌then◌else◌, length, find_where, find_by, select_where, update_where,
  exists_where,
}
use rcab.Store.{
  TripRef, solo, shared, same_trip, RideStatus, PoolState, OfferState, Ride, Pool, Offer, Db,
}
use rcab.Trips.View.{find_ride, find_pool}

abbrev pub is_requested : RideStatus → Bool
is_requested RideStatus.requested = true
is_requested _ = false

-- `pool_state IN ('closed_full', 'closed_timeout')`, CLAIMABLE_POOL_STATES.
abbrev pub is_claimable : PoolState → Bool
is_claimable PoolState.closed_full = true
is_claimable PoolState.closed_timeout = true
is_claimable _ = false

abbrev pub is_offered : OfferState → Bool
is_offered OfferState.offered = true
is_offered _ = false

-- A row whose state moved on, at the clock's time.
abbrev pub resolve : OfferState → ℕ → Offer → Offer
resolve to now o = record o { state = to; resolved_at = some now }

-- `expires_at <= clock_timestamp()`.
abbrev pub lapsed : ℕ → Offer → Bool
lapsed now o = leb o.expires_at now

abbrev pub ride_dispatchable : ℕ → Option Ride → Bool
ride_dispatchable g none = false
ride_dispatchable g (some r) =
    is_requested r.status && not (is_some r.driver_id) && r.dispatch_generation == g

abbrev pub pool_dispatchable : ℕ → Option Pool → Bool
pool_dispatchable g none = false
pool_dispatchable g (some p) =
    is_claimable p.pool_state && not (is_some p.claimed_by_driver_id) && p.dispatch_generation == g

-- The `FOR SHARE` read of `createOffer`: the trip still waits for a driver at this generation.
unfoldable pub dispatchable : Db → TripRef → ℕ → Bool
dispatchable db (solo id) g = ride_dispatchable g (find_ride id db.rides)
dispatchable db (shared id) g = pool_dispatchable g (find_pool id db.pools)

-- The driver's live offers whose deadline has passed.
abbrev pub driver_lapsed : ℕ → ℕ → Offer → Bool
driver_lapsed driver now o = o.driver_id == driver && is_offered o.state && lapsed now o

unfoldable pub expire_driver : Db → ℕ → ℕ → Db
expire_driver db driver now = record db {
  offers = update_where (driver_lapsed driver now) (resolve OfferState.expired now) db.offers;
}

-- The unique constraints of the table: one row of an id, one live offer to a driver, and one offer of a trip's
-- generation to a driver.
abbrev pub conflicts : ℕ → TripRef → ℕ → ℕ → Offer → Bool
conflicts id trip g driver o =
    o.id == id
    || o.driver_id == driver && (is_offered o.state || same_trip o.trip trip && o.generation == g)

-- The row that `createOffer` inserts; `ttl` is an integer, so `Math.round` keeps it.
abbrev pub new_offer : ℕ → ℕ → TripRef → ℕ → ℕ → ℕ → ℕ → Offer
new_offer now id trip driver g wave ttl = record {
  id = id;
  trip = trip;
  driver_id = driver;
  generation = g;
  wave_number = wave;
  state = OfferState.offered;
  offered_at = now;
  expires_at = now + max 1 ttl;
  resolved_at = none;
}

-- `INSERT … ON CONFLICT DO NOTHING RETURNING …`.
unfoldable pub insert_offer : Db → Offer → Db × Option Offer
insert_offer db o =
    if exists_where (conflicts o.id o.trip o.generation o.driver_id) db.offers
    then (db, none)
    else (record db { offers = o ∷ db.offers }, some o)

-- `createOffer`. The new row's id is an argument, and so is the clock. A wave asks for a
-- generation of at least 1, and for drivers with a row of `driver` (`eligibleCandidates`), so the
-- checks and references of the row hold.
unfoldable pub create_offer : Db → ℕ → ℕ → TripRef → ℕ → ℕ → ℕ → ℕ → Db × Option Offer
create_offer db now id trip driver g wave ttl =
    if dispatchable db trip g
    then insert_offer (expire_driver db driver now) (new_offer now id trip driver g wave ttl)
    else (db, none)

-- `findForDriver`.
unfoldable pub find_for_driver : Db → ℕ → ℕ → Option Offer
find_for_driver db id driver = find_where (λ o. o.id == id && o.driver_id == driver) db.offers

abbrev pub offer_key : Offer → ℕ
offer_key o = o.id

-- `lockForUpdate`.
abbrev pub lock_for_update : Db → ℕ → Option Offer
lock_for_update db id = find_by offer_key id db.offers

abbrev pub is_accepted : OfferState → Bool
is_accepted OfferState.accepted = true
is_accepted _ = false

-- `resolveLive`; its result says whether the row was live.
unfoldable pub resolve_live : Db → ℕ → ℕ → OfferState → Db × Bool
resolve_live db now id to =
    let hit = λ (o : Offer). o.id == id && is_offered o.state in
    (record db { offers = update_where hit (resolve to now) db.offers }, exists_where hit db.offers)

pub data DeclineResult : Type 0 where
  declined not_found not_live : DeclineResult

-- `decline`: one statement, so both reads see the rows as they were.
unfoldable pub decline : Db → ℕ → ℕ → ℕ → Db × DeclineResult
decline db now id driver =
    let own = λ (o : Offer). o.id == id && o.driver_id == driver in
    let hit = λ (o : Offer). own o && is_offered o.state in
    (
      record db { offers = update_where hit (resolve OfferState.declined now) db.offers },
      if exists_where hit db.offers
          then declined
          else if exists_where own db.offers
          then not_live
          else not_found,
    )

pub record RevokedOffer : Type 0 where
  pub offer_id : ℕ
  pub driver_id : ℕ

abbrev pub live_of : TripRef → Option ℕ → Offer → Bool
live_of trip except o = same_trip o.trip trip && is_offered o.state && not (is_id except o.id)

-- `revokeLiveForTrip`.
unfoldable pub revoke_live_for_trip : Db → ℕ → TripRef → Option ℕ → Db × List RevokedOffer
revoke_live_for_trip db now trip except = (
  record db {
    offers = update_where (live_of trip except) (resolve OfferState.revoked now) db.offers;
  },
  map (λ o. record { offer_id = o.id; driver_id = o.driver_id })
      (select_where (live_of trip except) db.offers),
)

-- `expireLapsed`.
unfoldable pub expire_lapsed : Db → ℕ → Db × ℕ
expire_lapsed db now =
    let hit = λ (o : Offer). is_offered o.state && lapsed now o in
    (
      record db { offers = update_where hit (resolve OfferState.expired now) db.offers },
      length (select_where hit db.offers),
    )

-- `offeredDriverIds`.
unfoldable pub offered_driver_ids : Db → TripRef → ℕ → List ℕ
offered_driver_ids db trip g =
    map (λ o. o.driver_id)
      (select_where (λ o. same_trip o.trip trip && o.generation == g) db.offers)

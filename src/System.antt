-- ===== src/System.antt =====
-- Histories of the api: the transactions of dispatch, of solo rides and of pools, run one after the other in
-- any order and by any number of processes, since each holds the locks of what it reads. A
-- transaction that takes an id from the database takes one that no row has.
use rcab.Base.{ℕ, ◌≡◌, ◌≢◌, refl, Option, none, some, Memᴰ, inl, inr}
use rcab.Store.{TripRef, Point, Guard, Db}
use rcab.Trips.Ledger.{bound, Move}
use rcab.Trips.View.{ledger, find_ride, trip_state, IsSound}
use rcab.Trips.Exclusive.{Move-IsExclusive, bound-injective_trip}
use rcab.Offers.{create_offer, decline, expire_lapsed}
use rcab.Offers.Live.{stay, create_offer-Move, decline-Move, expire_lapsed-Move}
use rcab.Guards.{Outcome, commit, after}
use rcab.Accept.{accept_offer}
use rcab.Accept.Outcomes.{accept_offer-Commits}
use rcab.Rides.{RideEvent, apply_event}
use rcab.Rides.Moves.{apply_event-Move}
use rcab.Rides.Cancel.{CancelRequest, cancel, mark_no_driver}
use rcab.Rides.Ends.{cancel-Move, mark_no_driver-Move}
use rcab.Rides.Create.{NewRide, create, claim_solo}
use rcab.Rides.Claim.{claim_solo-Claims}
use rcab.Pools.Joins.{QuoteRequest}
use rcab.Pools.Runs.{PoolStep, PoolStep-kept}
use rcab.Pools.Sound.{IsSound-IsKept}
use rcab.Stops.{StopConfirm, confirm_stop}
use rcab.Stops.Moves.{confirm_stop-IsSound}
use rcab.Timers.{wake_scheduled, rearm_scheduled, hard_fail}
use rcab.Timers.Moves.{wake_scheduled-Move, rearm_scheduled-Move, hard_fail-Move}
use rcab.Rides.Replay.{IsTimed, create-Move}

pub data Step (db : Db) : Db → Type 0 where
  accepted : (now id driver : ℕ) → Step db (after db (accept_offer db now id driver))
  offered :
      (now id : ℕ) (t : TripRef) (driver g wave ttl : ℕ)
      → ((h : Guard) → Memᴰ h db.guards → h.offer_id ≢ some id)
      → Step db (create_offer db now id t driver g wave ttl).0
  declined : (now id driver : ℕ) → Step db (decline db now id driver).0
  lapsed : (now : ℕ) → Step db (expire_lapsed db now).0
  driven : (now id driver : ℕ) (e : RideEvent) → Step db (apply_event db now id driver e).0
  cancelled : (now : ℕ) (c : CancelRequest) → Step db (cancel db now c).0
  gave_up : (now id : ℕ) (g : Option ℕ) → Step db (mark_no_driver db now id g).0
  claimed : (now id driver : ℕ) → Step db (after db (claim_solo db now id driver))
  created :
      (now id row : ℕ) (n : NewRide)
      → find_ride id db.rides ≡ none
      → IsTimed n
      → Step db (after db (create db now id row n))
  woken : (id g : ℕ) → Step db (wake_scheduled db id g).0
  rearmed : (now row id : ℕ) (g : Option ℕ) → Step db (rearm_scheduled db now row id g).0
  hard_failed : (now row : ℕ) (t : TripRef) (g : Option ℕ) → Step db (hard_fail db now row t g)

pub data History (db : Db) : Db → Type 0 where
  start : History db db
  then : {mid last : Db} → History db mid → Step mid last → History db last
  then_pool :
      {distance : Point → Point → ℕ} {quote : QuoteRequest → Option ℕ} {mid last : Db}
      → History db mid
      → PoolStep distance quote mid last
      → History db last
  then_stop :
      {mid : Db} (now : ℕ) (c : StopConfirm)
      → History db mid
      → History db (after mid (confirm_stop mid now c))

after-commit :
    {A : Type 0} (db db' : Db) (o : Outcome A) (a : A) → o ≡ commit db' a → after db o ≡ db'
after-commit db db' o a e = rw e refl

-- on sound tables, each transaction of dispatch, of solo and scheduled rides and of a hard failure
-- is one move of the abstract ledger: it settles offers, adds one, claims a trip for a free
-- driver, finishes a trip with its guard and offers gone, or changes a trip that no driver has.
pub Step-Move : {db db' : Db} → Step db db' → IsSound db → Move (ledger db) (ledger db')
Step-Move {db} (accepted now id driver) v =
    let (last, r, e, move) = accept_offer-Commits db now id driver v in
    rw (after-commit db last _ r e) move
Step-Move {db} (offered now id t driver g wave ttl new) v =
    create_offer-Move db now id t driver g wave ttl new
Step-Move {db} (declined now id driver) v = decline-Move db now id driver
Step-Move {db} (lapsed now) v = expire_lapsed-Move db now
Step-Move {db} (driven now id driver e) v = apply_event-Move db now id v driver e
Step-Move {db} (cancelled now c) v = cancel-Move db now v c
Step-Move {db} (gave_up now id g) v = mark_no_driver-Move db now v id g
Step-Move {db} (claimed now id driver) v = elim (claim_solo-Claims db now id driver v) [
  | inl (threw, unknown) ↦ rw threw (stay (ledger db))
  | inr (last, r, e, move) ↦ rw (after-commit db last _ r e) move
]
Step-Move {db} (created now id row n new timed) v =
    let (last, r, e, move) = create-Move db now id row n v new timed in
    rw (after-commit db last _ r e) move
Step-Move {db} (woken id g) v = wake_scheduled-Move db id g
Step-Move {db} (rearmed now row id g) v = rearm_scheduled-Move db now row id g
Step-Move {db} (hard_failed now row t g) v = hard_fail-Move db now row t g v

-- any such sequence keeps the tables sound: a guard row stands exactly for a trip bound to its
-- driver, one for each driver, live offers are for claimable trips only, each driver has one live
-- offer at most, and an offer that was accepted is of a trip that is bound or closed.
pub History-IsSound : {db db' : Db} → History db db' → IsSound db → IsSound db'
History-IsSound start v = v
History-IsSound (then h s) v = let w = History-IsSound h v in Move-IsExclusive (Step-Move s w) w
History-IsSound (then_pool h s) v = PoolStep-kept IsSound IsSound-IsKept s (History-IsSound h v)
History-IsSound (then_stop now c h) v = confirm_stop-IsSound _ now c (History-IsSound h v)

-- after any sequence of the transactions of dispatch, of solo, scheduled and pooled rides, of
-- their timers and of stop confirmations that starts on sound tables, two trips that are bound to
-- one driver, solo or shared, are the same trip.
pub History-one_trip :
    {db db' : Db} (t u : TripRef) (d : ℕ)
    → History db db'
    → IsSound db
    → trip_state db' t ≡ bound d
    → trip_state db' u ≡ bound d
    → t ≡ u
History-one_trip t u d h v a b = bound-injective_trip t u d (History-IsSound h v) a b

-- ===== src/Accept/Outcomes.antt =====
-- What an acceptance does: it never fails with an error, it is a move of the ledger, and it binds
-- the driver exactly when it says so for the first time.
use rcab.Base.{
  ℕ, ◌≡◌, ◌≢◌, refl, Bool, true, Option, none, some, List, inl, inr, Bool-cases, Option-cases,
  find_where-mem, Memᴰ, arith, sym, ap, ◌∙◌, ◌==◌, ◌&&◌, ◌∷◌, [], find_where, find_by, ==_iff,
}
use rcab.Store.{TripRef, same_trip, same_trip_iff, OfferState, Offer, Guard, Db}
use rcab.Trips.Ledger.{bound, Move}
use rcab.Trips.View.{ledger, trip_state, IsSound}
use rcab.Offers.{RevokedOffer, resolve_live, find_for_driver}
use rcab.Offers.Live.{stay, resolve-Move}
use rcab.Guards.{commit, abort, after, find_by_trip}
use rcab.Accept.{AcceptResult, AcceptOutcome, assigned, accept_in_tx, accept_offer, is_guard_of}
use rcab.Accept.Bind.{bound_db-Move, claimed_db-bound}
use rcab.Accept.Cases.{Own, Ending, refused, replayed, resolved, bound_by, accept_in_tx-Ending}

find_where-and :
    (p q : Offer → Bool) (xs : List Offer) (x : Offer)
    → find_where p xs ≡ some x
    → q x ≡ true
    → find_where (λ y. p y && q y) xs ≡ some x
unfolding find_where
find_where-and p q [] x e h = absurd (nothing e)
  where
    nothing : ◌≡◌ {A = Option Offer} none (some x) → ⊥
    nothing n = cc
find_where-and p q (y ∷ ys) x e h = elim (Bool-cases (p y)) [
  | inl hit ↦
      let same : some y ≡ some x = rw hit at e in
      let it : y ≡ x = cc in let also : q y ≡ true = ap q it ∙ h in rw (hit, also) same
  | inr miss ↦ rw miss (find_where-and p q ys x (rw miss at e) h)
]

-- A transaction that commits, and moves the ledger by one move.
abbrev pub Commits : Db → AcceptOutcome → Type 0
Commits db out =
    (db' : Db) × (r : AcceptResult × List RevokedOffer) × (out ≡ commit db' r)
    × Move (ledger db) (ledger db')

resolve_live-Move :
    (db : Db) (now id : ℕ) (to : OfferState)
    → to ≢ OfferState.offered
    → to ≢ OfferState.accepted
    → Move (ledger db) (ledger (resolve_live db now id to).0)
unfolding resolve_live
resolve_live-Move db now id to dead other = resolve-Move db _ to now dead other

-- The guard that makes an acceptance a replay.
holder :
    (db : Db) (driver : ℕ) (t : TripRef) (o : Offer)
    → o.driver_id ≡ driver
    → is_guard_of o (find_by_trip db t) ≡ true
    → (h : Guard) × Memᴰ h db.guards × (h.trip ≡ t) × (h.driver_id ≡ driver)
unfolding find_by_trip
holder db driver t o mine held = elim (Option-cases (find_by_trip db t)) [
  | inl gone ↦ absurd (ground (arith, gone, held))
  | inr (h, e) ↦
      let (mh, hit) = find_where-mem (λ (g : Guard). same_trip g.trip t) db.guards h e in
      (h, mh, (same_trip_iff h.trip t).0 hit, ground (arith, e, held, mine))
]

module _ (db : Db) (now id driver : ℕ) where
  Ending-Commits :
      (t : TripRef) (out : AcceptOutcome)
      → IsSound db
      → ((o : Offer) → Own db id driver o → o.trip ≡ t)
      → Ending db now id driver t out
      → Commits db out
  Ending-Commits t out v of_trip (refused reason e) = (db, _, e, stay (ledger db))
  Ending-Commits t out v of_trip (replayed o locked found own spent held e) =
      (db, _, e, stay (ledger db))
  Ending-Commits t out v of_trip (resolved to o reason dead other e) =
      (_, _, e, resolve_live-Move db now o.id to dead other)
  Ending-Commits t out v of_trip (bound_by o own live waits at free e) =
      (_, _, e, bound_db-Move db now t o v live waits at free (of_trip o own))

  -- On sound tables an acceptance under the lock of the offer's trip commits, never throws, and
  -- moves the ledger by one move.
  accept_in_tx-Commits :
      (t : TripRef)
      → IsSound db
      → ((o : Offer) → Own db id driver o → o.trip ≡ t)
      → Commits db (accept_in_tx db now id driver t)
  accept_in_tx-Commits t v of_trip =
      Ending-Commits t _ v of_trip (accept_in_tx-Ending db now id driver t v)

  -- The driver's offer is the same row under the lock.
  seen_again :
      (seen : Offer)
      → find_for_driver db id driver ≡ some seen
      → (o : Offer) → Own db id driver o
      → o.trip ≡ seen.trip
  unfolding find_for_driver find_by
  seen_again seen e o own =
      let found =
        find_where-and (λ (x : Offer). x.id == id) (λ (x : Offer). x.driver_id == driver) db.offers
          o own.read ((==_iff o.driver_id driver).1 own.mine) in
      let same : some o ≡ some seen = sym found ∙ e in cc

  -- on sound tables an acceptance always commits with an answer, so none of the errors for rows
  -- that changed under the locks is ever thrown, nor a violation of the unique indexes on accepted
  -- offers and on guards or of the reference to the driver, and what it commits is a move of the
  -- ledger.
  pub accept_offer-Commits : IsSound db → Commits db (accept_offer db now id driver)
  unfolding accept_offer
  accept_offer-Commits v = elim (Option-cases (find_for_driver db id driver)) [
    | inl gone ↦ rw (gone, accept_offer) (db, _, refl, stay (ledger db))
    | inr (seen, e) ↦ rw (e, accept_offer) (accept_in_tx-Commits seen.trip v (seen_again seen e))
  ]

-- What the driver is told.
abbrev pub answer : AcceptOutcome → Option AcceptResult
answer (commit db (r, revoked)) = some r
answer abort = none

module _ (db : Db) (now id driver : ℕ) where
  Ending-bound :
      (t : TripRef) (out : AcceptOutcome) (u : TripRef) (g : ℕ) (again : Bool)
      → IsSound db
      → Ending db now id driver t out
      → answer out ≡ some (assigned u g again)
      → trip_state (after db out) u ≡ bound driver
  Ending-bound t out u g again v (refused reason e) told = absurd (ground (arith, e, told))
  Ending-bound t out u g again v (resolved to o reason dead other e) told =
      absurd (ground (arith, e, told))
  Ending-bound t out u g again v (replayed o locked found own spent held e) told =
      let (h, mh, at, by) = holder db driver t o own.mine held in
      let same : u ≡ t = ground (arith, e, told) in rw (e, same, ← at, ← by) (v.guard_bound h mh)
  Ending-bound t out u g again v (bound_by o own live waits at free e) told =
      let same : u ≡ t = ground (arith, e, told) in
      rw (e, same, ← own.mine) (claimed_db-bound db now o.driver_id o.generation t waits at)

  -- on sound tables, a driver who is told that the trip is assigned, for the first time or again,
  -- is bound to that trip in the tables afterwards.
  pub assigned-bound :
      (t u : TripRef) (g : ℕ) (again : Bool)
      → IsSound db
      → answer (accept_in_tx db now id driver t) ≡ some (assigned u g again)
      → trip_state (after db (accept_in_tx db now id driver t)) u ≡ bound driver
  assigned-bound t u g again v told =
      Ending-bound t _ u g again v (accept_in_tx-Ending db now id driver t v) told

-- ===== src/Accept/Replay.antt =====
-- Asking again after an acceptance: the winner hears the same, a loser hears that the trip is
-- taken, and neither changes anything.
use rcab.Base.{
  ℕ, ◌≡◌, ◌≢◌, refl, sym, subst, ◌∙◌, Bool, true, false, some, [], inl, inr, Option-cases, arith,
  find_where, find_by-key, find_by-update_where, find_by-update_hit, update_where, ==_iff,
}
use rcab.Store.{TripRef, solo, shared, same_trip_iff, OfferState, Offer, Db}
use rcab.Trips.Ledger.{claimable, bound, Live}
use rcab.Trips.View.{ledger, trip_state, IsSound, find_ride, find_pool}
use rcab.Offers.{offer_key, lock_for_update, resolve, live_of}
use rcab.Guards.{commit, after, find_by_trip}
use rcab.Accept.{
  TripLock, lock_trip, taken_by, AcceptOutcome, assigned, refuse, trip_taken, is_guard_of,
  accept_state, accept_locked, accept_in_tx,
}
use rcab.Accept.Bind.{AtGeneration, bound_db, accepts, claimed_db-bound}
use rcab.Accept.Cases.{Own, Ending, refused, replayed, resolved, bound_by, accept_in_tx-Ending}
use rcab.Accept.Outcomes.{answer}

-- A trip that a driver has can be locked, and shows who has it.
bound-lock :
    (db : Db) (t : TripRef) (d : ℕ)
    → trip_state db t ≡ bound d
    → (locked : TripLock) × (lock_trip db t ≡ some locked) × (taken_by locked ≡ some d)
unfolding lock_trip
bound-lock db (solo id) d h = elim (Option-cases (find_ride id db.rides)) [
  | inl gone ↦ absurd (ground (arith, gone, h))
  | inr (r, e) ↦ (TripLock.solo_lock r, rw (e, lock_trip) refl, ground (arith, e, h))
]
bound-lock db (shared id) d h = elim (Option-cases (find_pool id db.pools)) [
  | inl gone ↦ absurd (ground (arith, gone, h))
  | inr (p, e) ↦ (TripLock.shared_lock p, rw (e, lock_trip) refl, ground (arith, e, h))
]

-- An accepted offer whose driver has the guard replays.
accepted-replays :
    (db : Db) (now id driver : ℕ) (t : TripRef) (o : Offer) (locked : TripLock)
    → lock_trip db t ≡ some locked
    → Own db id driver o
    → o.state ≡ OfferState.accepted
    → is_guard_of o (find_by_trip db t) ≡ true
    → accept_in_tx db now id driver t ≡ commit db (assigned t o.generation true, [])
unfolding accept_in_tx accept_locked accept_state
accepted-replays db now id driver t o locked found own spent held =
    rw (found, accept_in_tx)
      (rw (own.read, accept_locked) (rw ((==_iff o.driver_id driver).1 own.mine, spent, held) refl))

revoked-taken :
    (db : Db) (now id driver d : ℕ) (t : TripRef) (o : Offer) (locked : TripLock)
    → lock_trip db t ≡ some locked
    → taken_by locked ≡ some d
    → d ≢ driver
    → Own db id driver o
    → o.state ≡ OfferState.revoked
    → accept_in_tx db now id driver t ≡ refuse db trip_taken
unfolding accept_in_tx accept_locked accept_state
revoked-taken db now id driver d t o locked found taken other own gone =
    rw (found, accept_in_tx)
      (rw (own.read, accept_locked)
        (rw ((==_iff o.driver_id driver).1 own.mine, gone, taken)
          (ground (arith, other, own.mine))))

module _ (db : Db) (now id driver : ℕ) (t : TripRef) (o : Offer) (own : Own db id driver o)
    (live : Live o (ledger db)) where
  key : o.id ≡ id
  key = find_by-key offer_key id db.offers o own.read

  -- The winner's offer, read again.
  bound_db-offer :
      lock_for_update (bound_db db now t o) id ≡ some (resolve OfferState.accepted now o)
  bound_db-offer =
      find_by-update_where offer_key (live_of t (some o.id)) (resolve OfferState.revoked now)
        (λ x. refl) id (update_where (accepts o.id) (resolve OfferState.accepted now) db.offers)
      ∙ rw
          (find_by-update_hit offer_key (accepts o.id) (resolve OfferState.accepted now) (λ x. refl)
            id db.offers o own.read (ground (arith, live.1)))
          (ground arith)

  bound_db-replays :
      (later : ℕ)
      → trip_state db t ≡ claimable
      → AtGeneration db t o.generation
      → accept_in_tx (bound_db db now t o) later id driver t
        ≡ commit (bound_db db now t o) (assigned t o.generation true, [])
  unfolding find_by_trip find_where
  bound_db-replays later waits at =
      let (locked, found, _) =
        bound-lock (bound_db db now t o) t o.driver_id
          (claimed_db-bound db now o.driver_id o.generation t waits at) in
      accepted-replays (bound_db db now t o) later id driver t (resolve OfferState.accepted now o)
        locked found (record { read = bound_db-offer; mine = own.mine }) refl
        (rw ((same_trip_iff t t).1 refl) (ground arith))

  module _ (id' driver' : ℕ) (o' : Offer) (own' : Own db id' driver' o')
      (live' : Live o' (ledger db)) (same : o'.trip ≡ t) (rival : driver ≢ driver') where
    rival_offer : o'.id ≢ o.id
    rival_offer e =
        let key' = find_by-key offer_key id' db.offers o' own'.read in
        let one : id' ≡ id = omega (arith, key, key', e) in
        let read : lock_for_update db id ≡ some o' =
          subst (λ k. lock_for_update db k ≡ some o') one own'.read in
        rival (ground (arith, read, own.read, own.mine, own'.mine))

    rival_revoked :
        lock_for_update (bound_db db now t o) id' ≡ some (resolve OfferState.revoked now o')
    rival_revoked =
        find_by-update_where offer_key (live_of t (some o.id)) (resolve OfferState.revoked now)
          (λ x. refl) id' (update_where (accepts o.id) (resolve OfferState.accepted now) db.offers)
        ∙ rw
            (find_by-update_where offer_key (accepts o.id) (resolve OfferState.accepted now)
              (λ x. refl) id' db.offers)
            (rw own'.read (ground (arith, rival_offer, live'.1, (same_trip_iff o'.trip t).1 same)))

    rival-taken :
        (later : ℕ)
        → trip_state db t ≡ claimable
        → AtGeneration db t o.generation
        → accept_in_tx (bound_db db now t o) later id' driver' t
          ≡ refuse (bound_db db now t o) trip_taken
    rival-taken later waits at =
        let (locked, found, taken) =
          bound-lock (bound_db db now t o) t o.driver_id
            (claimed_db-bound db now o.driver_id o.generation t waits at) in
        revoked-taken (bound_db db now t o) later id' driver' o.driver_id t
          (resolve OfferState.revoked now o') locked found taken (λ e. rival (sym own.mine ∙ e))
          (record { read = rival_revoked; mine = own'.mine }) refl

module _ (db : Db) (now id driver : ℕ) (t : TripRef) where
  Ending-replays :
      (out : AcceptOutcome) (u : TripRef) (g later : ℕ) (again : Bool)
      → Ending db now id driver t out
      → answer out ≡ some (assigned u g again)
      → accept_in_tx (after db out) later id driver t
        ≡ commit (after db out) (assigned t g true, [])
  Ending-replays out u g later again (refused reason e) told = absurd (ground (arith, e, told))
  Ending-replays out u g later again (resolved to o reason dead other e) told =
      absurd (ground (arith, e, told))
  Ending-replays out u g later again (replayed o locked found own spent held e) told =
      let same : o.generation ≡ g = ground (arith, e, told) in
      rw (e, ← same) (accepted-replays db later id driver t o locked found own spent held)
  Ending-replays out u g later again (bound_by o own live waits at free e) told =
      let same : o.generation ≡ g = ground (arith, e, told) in
      rw (e, ← same) (bound_db-replays db now id driver t o own live later waits at)

  -- on sound tables, a driver whose acceptance was answered with the assignment gets the same
  -- assignment from a second request, marked as a replay, however late it comes, and the second
  -- request writes nothing.
  pub accept-replays :
      (u : TripRef) (g later : ℕ) (again : Bool)
      → IsSound db
      → answer (accept_in_tx db now id driver t) ≡ some (assigned u g again)
      → let db' = after db (accept_in_tx db now id driver t) in
        accept_in_tx db' later id driver t ≡ commit db' (assigned t g true, [])
  accept-replays u g later again v told =
      Ending-replays _ u g later again (accept_in_tx-Ending db now id driver t v) told

  Ending-taken :
      (out : AcceptOutcome) (u : TripRef) (g later id' driver' : ℕ) (o' : Offer)
      → Ending db now id driver t out
      → answer out ≡ some (assigned u g false)
      → Own db id' driver' o'
      → Live o' (ledger db)
      → o'.trip ≡ t
      → driver ≢ driver'
      → accept_in_tx (after db out) later id' driver' t ≡ refuse (after db out) trip_taken
  Ending-taken out u g later id' driver' o' (refused reason e) told own' live' same rival =
      absurd (ground (arith, e, told))
  Ending-taken out u g later id' driver' o' (resolved to o reason dead other e) told own' live' same
        rival =
      absurd (ground (arith, e, told))
  Ending-taken out u g later id' driver' o' (replayed o locked found own spent held e) told own'
        live' same rival =
      absurd (ground (arith, e, told))
  Ending-taken out u g later id' driver' o' (bound_by o own live waits at free e) told own' live'
        same rival =
      rw e (
        rival-taken db now id driver t o own live id' driver' o' own' live' same rival later waits
          at)

  -- on sound tables, when a driver has accepted a trip for the first time, another driver whose
  -- own offer for that trip was live before is answered that the trip is taken, and nothing is
  -- written.
  pub accept-trip_taken :
      (u : TripRef) (g later id' driver' : ℕ) (o' : Offer)
      → IsSound db
      → answer (accept_in_tx db now id driver t) ≡ some (assigned u g false)
      → Own db id' driver' o'
      → Live o' (ledger db)
      → o'.trip ≡ t
      → driver ≢ driver'
      → let db' = after db (accept_in_tx db now id driver t) in
        accept_in_tx db' later id' driver' t ≡ refuse db' trip_taken
  accept-trip_taken u g later id' driver' o' v told own' live' same rival =
      Ending-taken _ u g later id' driver' o' (accept_in_tx-Ending db now id driver t v) told own'
        live' same rival

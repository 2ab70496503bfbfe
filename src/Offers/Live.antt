-- ===== src/Offers/Live.antt =====
-- What the statements on `dispatch_offer` do to the ledger.
use rcab.Base.{
  some, ℕ, ◌≡◌, ◌≢◌, refl, sym, ap, ◌∙◌, Option, subst, ◌⊎◌, inl, inr, Bool, true, false, List, ◌∷◌,
  Memᴰ, arith, Bool-cases, update_where, exists_where, exists_where-false, mem-update_where,
  mem-cons_cases,
}
use rcab.Store.{TripRef, solo, shared, OfferState, Offer, Guard, Db}
use rcab.Trips.Ledger.{Ledger, claimable, Move, settle, offer}
use rcab.Trips.View.{ledger, trip_state}
use rcab.Offers.{
  resolve, live_of, dispatchable, driver_lapsed, expire_driver, conflicts, new_offer, insert_offer,
  create_offer, decline, expire_lapsed,
}

pub stay : (l : Ledger) → Move l l
stay l = settle (λ t. refl) refl (λ o lv. lv) (λ o sp. sp)

-- A row that an update leaves live was live, and the update passed it over.
pub live-update :
    (p : Offer → Bool) (to : OfferState) (now : ℕ) (os : List Offer) (o : Offer)
    → to ≢ OfferState.offered
    → Memᴰ o (update_where p (resolve to now) os)
    → o.state ≡ OfferState.offered
    → Memᴰ o os × (p o ≡ false)
live-update p to now os o dead m live =
    let (x, mx, e) = mem-update_where p (resolve to now) os m in
    elim (Bool-cases (p x)) [
      | inl hit ↦ let moved : o ≡ resolve to now x = rw hit at e in absurd (dead (rw moved at live))
      | inr miss ↦
          let same : o ≡ x = rw miss at e in (subst (λ y. Memᴰ y os) (sym same) mx, rw same miss)
    ]

-- A row that an update to another state leaves accepted was so before.
pub spent-update :
    (p : Offer → Bool) (to : OfferState) (now : ℕ) (os : List Offer) (o : Offer)
    → to ≢ OfferState.accepted
    → Memᴰ o (update_where p (resolve to now) os) × (o.state ≡ OfferState.accepted)
    → Memᴰ o os × (o.state ≡ OfferState.accepted)
spent-update p to now os o other (m, done) =
    let (x, mx, e) = mem-update_where p (resolve to now) os m in
    elim (Bool-cases (p x)) [
      | inl hit ↦
          let moved : o ≡ resolve to now x = rw hit at e in absurd (other (rw moved at done))
      | inr miss ↦ let same : o ≡ x = rw miss at e in (subst (λ y. Memᴰ y os) (sym same) mx, done)
    ]

-- The acceptances that a revocation of a trip's offers leaves.
pub revoked-spent :
    (os : List Offer) (now : ℕ) (t : TripRef) (except : Option ℕ) (o : Offer)
    → Memᴰ o (update_where (live_of t except) (resolve OfferState.revoked now) os)
      × (o.state ≡ OfferState.accepted)
    → Memᴰ o os × (o.state ≡ OfferState.accepted)
revoked-spent os now t except o =
    spent-update (live_of t except) OfferState.revoked now os o (λ e. cc)

module _ (db : Db) where
  -- Resolving offers settles.
  pub resolve-Move :
      (p : Offer → Bool) (to : OfferState) (now : ℕ)
      → to ≢ OfferState.offered
      → to ≢ OfferState.accepted
      → Move (ledger db) (ledger (record db { offers = update_where p (resolve to now) db.offers }))
  resolve-Move p to now dead other =
      settle (λ t. refl) refl (λ o lv. ((live-update p to now db.offers o dead lv.0 lv.1).0, lv.1))
        (λ o. spent-update p to now db.offers o other)

  dispatchable-claimable :
      (t : TripRef) (g : ℕ) → dispatchable db t g ≡ true → trip_state db t ≡ claimable
  unfolding dispatchable
  dispatchable-claimable (solo id) g h = ground arith
  dispatchable-claimable (shared id) g h = ground arith

  insert_offer-Move :
      (driver now : ℕ) (n : Offer)
      → n.state ≡ OfferState.offered
      → trip_state db n.trip ≡ claimable
      → ((g : Guard) → Memᴰ g db.guards → g.offer_id ≢ some n.id)
      → Move (ledger db) (ledger (insert_offer (expire_driver db driver now) n).0)
  unfolding insert_offer expire_driver
  insert_offer-Move driver now n out open_trip unused =
      elim (Bool-cases (exists_where (conflicts n.id n.trip n.generation n.driver_id) rows)) [
        | inl taken ↦
            rw taken
              (resolve-Move (driver_lapsed driver now) OfferState.expired now (λ e. cc) (λ e. cc))
        | inr vacant ↦ rw vacant (offer n open_trip unused (λ t. refl) refl (fresh vacant) spent)
      ]
    where
      rows : List Offer
      rows = update_where (driver_lapsed driver now) (resolve OfferState.expired now) db.offers

      fresh :
          exists_where (conflicts n.id n.trip n.generation n.driver_id) rows ≡ false
          → (o : Offer) → Memᴰ o (n ∷ rows) × (o.state ≡ OfferState.offered)
          → (o ≡ n)
            ⊎ ((Memᴰ o db.offers × (o.state ≡ OfferState.offered))
                × (o.driver_id ≢ n.driver_id)
                × (o.id ≢ n.id))
      fresh vacant o lv = elim (mem-cons_cases lv.0) [
        | inl e ↦ inl e
        | inr m ↦
            let clear =
              exists_where-false (conflicts n.id n.trip n.generation n.driver_id) rows o vacant m in
            let old =
              live-update (driver_lapsed driver now) OfferState.expired now db.offers o (λ e. cc) m
                lv.1 in
            inr (
              (old.0, lv.1),
              λ same. ground (arith, clear, lv.1, same),
              λ same. ground (arith, clear, same),
            )
      ]

      accepted-ne-offered : OfferState.accepted ≡ OfferState.offered → ⊥
      accepted-ne-offered e = cc

      spent :
          (o : Offer)
          → Memᴰ o (n ∷ rows) × (o.state ≡ OfferState.accepted)
          → Memᴰ o db.offers × (o.state ≡ OfferState.accepted)
      spent o sp = elim (mem-cons_cases sp.0) [
        | inl e ↦ absurd (accepted-ne-offered (sym sp.1 ∙ ap (λ (x : Offer). x.state) e ∙ out))
        | inr m ↦
            spent-update (driver_lapsed driver now) OfferState.expired now db.offers o (λ e. cc)
              (m, sp.1)
      ]

  -- A new offer goes to a driver who has none, for a trip that waits for a driver. Its id is new.
  pub create_offer-Move :
      (now id : ℕ) (t : TripRef) (driver g wave ttl : ℕ)
      → ((h : Guard) → Memᴰ h db.guards → h.offer_id ≢ some id)
      → Move (ledger db) (ledger (create_offer db now id t driver g wave ttl).0)
  unfolding create_offer
  create_offer-Move now id t driver g wave ttl unused = elim (Bool-cases (dispatchable db t g)) [
    | inl waits ↦ rw waits (
        insert_offer-Move driver now (new_offer now id t driver g wave ttl) refl
          (dispatchable-claimable t g waits) unused)
    | inr gone ↦ rw gone (stay (ledger db))
  ]

  pub decline-Move : (now id driver : ℕ) → Move (ledger db) (ledger (decline db now id driver).0)
  unfolding decline
  decline-Move now id driver = resolve-Move _ OfferState.declined now (λ e. cc) (λ e. cc)

  pub expire_lapsed-Move : (now : ℕ) → Move (ledger db) (ledger (expire_lapsed db now).0)
  unfolding expire_lapsed
  expire_lapsed-Move now = resolve-Move _ OfferState.expired now (λ e. cc) (λ e. cc)

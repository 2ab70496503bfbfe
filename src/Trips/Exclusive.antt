-- ===== src/Trips/Exclusive.antt =====
-- Every move of the ledger keeps drivers and trips exclusive.
use rcab.Base.{
  ℕ, ◌≡◌, ◌≢◌, some, ◌⊎◌, inl, inr, sym, ap, subst, ◌∙◌, refl, Memᴰ, arith, true, mem-cons_cases,
}
use rcab.Store.{TripRef, TripRef-discrete, Offer, Guard}
use rcab.Trips.Ledger.{
  Ledger, claimable, closed, bound, stray, Live, Spent, is_over, IsExclusive, Move, settle, offer,
  claim, finish, arise, Moves, none_yet, then,
}

pub bound-injective : {d e : ℕ} → bound d ≡ bound e → d ≡ e
bound-injective h = ground arith

bound-ne-stray : {d e : ℕ} → bound d ≡ stray e → ⊥
bound-ne-stray h = cc

pub closed-ne-stray : {d : ℕ} → closed ≡ stray d → ⊥
closed-ne-stray h = cc

pub claimable-ne-stray : {d : ℕ} → claimable ≡ stray d → ⊥
claimable-ne-stray h = cc

pub claimable-ne-bound : {d : ℕ} → claimable ≡ bound d → ⊥
claimable-ne-bound h = cc

module _ {l m : Ledger} (v : IsExclusive l) where
  -- Guards and trip states as before.
  guards_kept :
      ((t : TripRef) → m.state t ≡ l.state t)
      → m.guards ≡ l.guards
      → ((o : Offer) → Live o m → m.state o.trip ≡ claimable)
      → ((o p : Offer) → Live o m → Live p m → o.driver_id ≡ p.driver_id → o ≡ p)
      → ((o p : Offer) → Live o m → Live p m → o.id ≡ p.id → o ≡ p)
      → ((g : Guard) (o : Offer) → Memᴰ g l.guards → Live o m → g.offer_id ≢ some o.id)
      → ((o : Offer) → Spent o m → Spent o l)
      → IsExclusive m
  guards_kept same guards claimables lone lone_id spent old = record {
    one_trip = λ g h mg mh. v.one_trip g h (subst (Memᴰ g) guards mg) (subst (Memᴰ h) guards mh);
    guard_bound = λ g mg. same g.trip ∙ v.guard_bound g (subst (Memᴰ g) guards mg);
    bound_guard = λ t d e.
        let (g, mg, to, by) = v.bound_guard t d (sym (same t) ∙ e) in
        (g, subst (Memᴰ g) (sym guards) mg, to, by);
    live_claimable = claimables;
    one_live = lone;
    one_live_id = lone_id;
    accepted_over = λ o sp. ap is_over (same o.trip) ∙ v.accepted_over o (old o sp);
    offer_spent = λ g o mg. spent g o (subst (Memᴰ g) guards mg);
    no_stray = λ t d e. v.no_stray t d (sym (same t) ∙ e);
  }

  claim-IsExclusive :
      (g : Guard)
      → l.state g.trip ≡ claimable
      → ((h : Guard) → Memᴰ h l.guards → h.driver_id ≢ g.driver_id)
      → m.state g.trip ≡ bound g.driver_id
      → ((u : TripRef) → u ≢ g.trip → m.state u ≡ l.state u)
      → ((h : Guard) → Memᴰ h m.guards → (h ≡ g) ⊎ Memᴰ h l.guards)
      → Memᴰ g m.guards
      → ((h : Guard) → Memᴰ h l.guards → Memᴰ h m.guards)
      → ((o : Offer) → Live o m → Live o l × (o.trip ≢ g.trip) × (g.offer_id ≢ some o.id))
      → ((o : Offer) → Spent o m → Spent o l ⊎ (o.trip ≡ g.trip))
      → IsExclusive m
  claim-IsExclusive g open_before free now others from there here live spent = record {
    one_trip = λ a b ma mb e. elim (from a ma) [
      | inl ea ↦ elim (from b mb) [
        | inl eb ↦ ea ∙ sym eb
        | inr ob ↦ absurd (free b ob (sym e ∙ ap (λ (x : Guard). x.driver_id) ea))
      ]
      | inr oa ↦ elim (from b mb) [
        | inl eb ↦ absurd (free a oa (e ∙ ap (λ (x : Guard). x.driver_id) eb))
        | inr ob ↦ v.one_trip a b oa ob e
      ]
    ];
    guard_bound = λ h mh. elim (from h mh) [
      | inl e ↦ rw e now
      | inr old ↦
          others h.trip
            (λ same. claimable-ne-bound (sym (rw same open_before) ∙ v.guard_bound h old))
          ∙ v.guard_bound h old
    ];
    bound_guard = λ t d e. elim (TripRef-discrete t g.trip) [
      | yes same ↦ (g, there, sym same, bound-injective (sym now ∙ rw same at e))
      | no other ↦
          let (h, mh, to, by) = v.bound_guard t d (sym (others t other) ∙ e) in
          (h, here h mh, to, by)
    ];
    live_claimable = λ o lv. others o.trip (live o lv).1 ∙ v.live_claimable o (live o lv).0;
    one_live = λ o p a b e. v.one_live o p (live o a).0 (live p b).0 e;
    one_live_id = λ o p a b e. v.one_live_id o p (live o a).0 (live p b).0 e;
    accepted_over = λ o sp. elim (TripRef-discrete o.trip g.trip) [
      | yes same ↦ ap is_over (ap m.state same ∙ now)
      | no other ↦ elim (spent o sp) [
        | inl old ↦ ap is_over (others o.trip other) ∙ v.accepted_over o old
        | inr same ↦ absurd (other same)
      ]
    ];
    offer_spent = λ h o mh lv. elim (from h mh) [
      | inl e ↦ rw e (live o lv).2
      | inr old ↦ v.offer_spent h o old (live o lv).0
    ];
    no_stray = λ t d e. elim (TripRef-discrete t g.trip) [
      | yes same ↦ bound-ne-stray (sym now ∙ rw same at e)
      | no other ↦ v.no_stray t d (sym (others t other) ∙ e)
    ];
  }

  -- A trip that was nobody's, or is nobody's any more: its guard and its offers are gone.
  unbind-IsExclusive :
      (t : TripRef)
      → ((d : ℕ) → m.state t ≢ bound d)
      → ((d : ℕ) → m.state t ≢ stray d)
      → ((u : TripRef) → u ≢ t → m.state u ≡ l.state u)
      → ((g : Guard) → Memᴰ g m.guards → Memᴰ g l.guards × (g.trip ≢ t))
      → ((g : Guard) → Memᴰ g l.guards → g.trip ≢ t → Memᴰ g m.guards)
      → ((o : Offer) → Live o m → Live o l × (o.trip ≢ t))
      → ((o : Offer) → Spent o m → Spent o l)
      → ((o : Offer) → Spent o l → o.trip ≡ t → is_over (m.state t) ≡ true)
      → IsExclusive m
  unbind-IsExclusive t free settled others from here live spent over = record {
    one_trip = λ a b ma mb e. v.one_trip a b (from a ma).0 (from b mb).0 e;
    guard_bound = λ h mh. others h.trip (from h mh).1 ∙ v.guard_bound h (from h mh).0;
    bound_guard = λ u d e. elim (TripRef-discrete u t) [
      | yes same ↦ absurd (free d (rw same at e))
      | no other ↦
          let (g, mg, to, by) = v.bound_guard u d (sym (others u other) ∙ e) in
          (g, here g mg (λ same. other (sym to ∙ same)), to, by)
    ];
    live_claimable = λ o lv. others o.trip (live o lv).1 ∙ v.live_claimable o (live o lv).0;
    one_live = λ o p a b e. v.one_live o p (live o a).0 (live p b).0 e;
    one_live_id = λ o p a b e. v.one_live_id o p (live o a).0 (live p b).0 e;
    accepted_over = λ o sp. elim (TripRef-discrete o.trip t) [
      | yes same ↦ ap (λ u. is_over (m.state u)) same ∙ over o (spent o sp) same
      | no other ↦ ap is_over (others o.trip other) ∙ v.accepted_over o (spent o sp)
    ];
    offer_spent = λ h o mh lv. v.offer_spent h o (from h mh).0 (live o lv).0;
    no_stray = λ u d e. elim (TripRef-discrete u t) [
      | yes same ↦ settled d (rw same at e)
      | no other ↦ v.no_stray u d (sym (others u other) ∙ e)
    ];
  }

pub closed-ne-bound : {d : ℕ} → closed ≡ bound d → ⊥
closed-ne-bound h = cc

-- Each move of the ledger keeps it exclusive: one trip to a driver, one driver to a trip, offers
-- for claimable trips only, and one offer at a time to a driver.
pub Move-IsExclusive : {l m : Ledger} → Move l m → IsExclusive l → IsExclusive m
Move-IsExclusive (settle same guards live spent) v =
    guards_kept v same guards (λ o lv. same o.trip ∙ v.live_claimable o (live o lv))
      (λ o p a b e. v.one_live o p (live o a) (live p b) e)
      (λ o p a b e. v.one_live_id o p (live o a) (live p b) e)
      (λ g o mg lv. v.offer_spent g o mg (live o lv)) spent
Move-IsExclusive {l} {m} (offer n waits unused same guards live spent) v =
    guards_kept v same guards
      (λ o lv. elim (live o lv) [
        | inl e ↦ rw e (same n.trip ∙ waits)
        | inr old ↦ same o.trip ∙ v.live_claimable o old.0
      ])
      lone lone_id
      (λ g o mg lv. elim (live o lv) [
        | inl e ↦ rw e (unused g mg)
        | inr old ↦ v.offer_spent g o mg old.0
      ])
      spent
  where
    lone : (o p : Offer) → Live o m → Live p m → o.driver_id ≡ p.driver_id → o ≡ p
    lone o p a b e = elim (live o a) [
      | inl eo ↦ elim (live p b) [
        | inl ep ↦ eo ∙ sym ep
        | inr old ↦ absurd (old.1 (sym e ∙ ap (λ (x : Offer). x.driver_id) eo))
      ]
      | inr oa ↦ elim (live p b) [
        | inl ep ↦ absurd (oa.1 (e ∙ ap (λ (x : Offer). x.driver_id) ep))
        | inr ob ↦ v.one_live o p oa.0 ob.0 e
      ]
    ]

    lone_id : (o p : Offer) → Live o m → Live p m → o.id ≡ p.id → o ≡ p
    lone_id o p a b e = elim (live o a) [
      | inl eo ↦ elim (live p b) [
        | inl ep ↦ eo ∙ sym ep
        | inr old ↦ absurd (old.2 (sym e ∙ ap (λ (x : Offer). x.id) eo))
      ]
      | inr oa ↦ elim (live p b) [
        | inl ep ↦ absurd (oa.2 (e ∙ ap (λ (x : Offer). x.id) ep))
        | inr ob ↦ v.one_live_id o p oa.0 ob.0 e
      ]
    ]
Move-IsExclusive (claim g waits free now others guards live spent) v =
    claim-IsExclusive v g waits free now others (λ h mh. mem-cons_cases (subst (Memᴰ h) guards mh))
      (subst (Memᴰ g) (sym guards) (Memᴰ.head refl))
      (λ h mh. subst (Memᴰ h) (sym guards) (Memᴰ.tail mh)) live spent
Move-IsExclusive (finish t now others from here live spent) v =
    unbind-IsExclusive v t (λ d e. closed-ne-bound (sym now ∙ e))
      (λ d e. closed-ne-stray (sym now ∙ e)) others from here live spent (λ o sp e. ap is_over now)
Move-IsExclusive {l} (arise t before waits now settled others guards live spent) v =
    unbind-IsExclusive v t now settled others
      (λ g mg.
        let old = subst (Memᴰ g) guards mg in
        (old, λ same. before g.driver_id (rw (← same) (v.guard_bound g old))))
      (λ g mg _. subst (Memᴰ g) (sym guards) mg) live spent
      (λ o sp e.
        let taken : is_over (l.state t) ≡ true =
          subst (λ u. is_over (l.state u) ≡ true) e (v.accepted_over o sp) in
        absurd (ground (arith, taken, waits)))

pub Moves-IsExclusive : {l m : Ledger} → Moves l m → IsExclusive l → IsExclusive m
Moves-IsExclusive none_yet v = v
Moves-IsExclusive (then ms mv) v = Move-IsExclusive mv (Moves-IsExclusive ms v)

-- Two trips of one driver are one trip.
pub bound-injective_trip :
    {l : Ledger} (t u : TripRef) (d : ℕ)
    → IsExclusive l
    → l.state t ≡ bound d
    → l.state u ≡ bound d
    → t ≡ u
bound-injective_trip t u d v a b =
    let (g, mg, gt, gd) = v.bound_guard t d a in
    let (h, mh, ht, hd) = v.bound_guard u d b in
    sym gt ∙ ap (λ (x : Guard). x.trip) (v.one_trip g h mg mh (gd ∙ sym hd)) ∙ ht

-- ===== src/Trips/Ledger.antt =====
-- The abstract view of the dispatch tables: what each trip is to a driver, who is bound to what,
-- and which offers are out. The operations of dispatch, rides and pools refine its moves.
use rcab.Base.{ℕ, ◌≡◌, ◌≢◌, ◌⊎◌, List, ◌∷◌, Memᴰ, some, Bool, true, false}
use rcab.Store.{TripRef, Offer, Guard, offered, accepted}

-- `absent`: no such row; `gathering`: a pool that is still open; `claimable`: it waits for a
-- driver; `bound d`: driver `d` has it; `closed`: neither now nor later a driver's; `stray d`: an
-- open pool with a driver, which does not happen.
pub data TripState : Type 0 where
  absent gathering claimable closed : TripState
  bound stray : ℕ → TripState

pub record Ledger : Type 0 where
  pub state : TripRef → TripState
  pub guards : List Guard
  pub offers : List Offer

-- A live offer of the ledger.
abbrev pub Live : Offer → Ledger → Type 0
Live o l = Memᴰ o l.offers × (o.state ≡ offered)

-- An offer of the ledger that was accepted.
abbrev pub Spent : Offer → Ledger → Type 0
Spent o l = Memᴰ o l.offers × (o.state ≡ accepted)

-- The trip has been given to a driver, or has ended.
abbrev pub is_over : TripState → Bool
is_over closed = true
is_over (bound d) = true
is_over _ = false

-- Every trip but `t` is as it was.
abbrev pub SameBut : TripRef → Ledger → Ledger → Type 0
SameBut t l m = (u : TripRef) → u ≢ t → m.state u ≡ l.state u

pub record IsExclusive (l : Ledger) : Type 0 where
  -- A driver is bound once, and its guard says to which trip.
  pub one_trip :
      (g h : Guard) → Memᴰ g l.guards → Memᴰ h l.guards → g.driver_id ≡ h.driver_id → g ≡ h
  pub guard_bound : (g : Guard) → Memᴰ g l.guards → l.state g.trip ≡ bound g.driver_id
  pub bound_guard :
      (t : TripRef) (d : ℕ)
      → l.state t ≡ bound d
      → (g : Guard) × Memᴰ g l.guards × (g.trip ≡ t) × (g.driver_id ≡ d)
  -- Offers are out for trips that a driver can still have, and one at most to each driver.
  pub live_claimable : (o : Offer) → Live o l → l.state o.trip ≡ claimable
  pub one_live : (o p : Offer) → Live o l → Live p l → o.driver_id ≡ p.driver_id → o ≡ p
  pub one_live_id : (o p : Offer) → Live o l → Live p l → o.id ≡ p.id → o ≡ p
  -- An offer is accepted only once its trip is taken.
  pub accepted_over : (o : Offer) → Spent o l → is_over (l.state o.trip) ≡ true
  -- The offer that a guard was taken with is not out any more.
  pub offer_spent : (g : Guard) (o : Offer) → Memᴰ g l.guards → Live o l → g.offer_id ≢ some o.id
  -- No driver has a pool that is still open.
  pub no_stray : (t : TripRef) (d : ℕ) → l.state t ≢ stray d

-- What a transaction may do to the ledger.
pub data Move (l m : Ledger) : Type 0 where
  -- Offers are resolved; nothing else.
  settle :
      ((t : TripRef) → m.state t ≡ l.state t)
      → m.guards ≡ l.guards
      → ((o : Offer) → Live o m → Live o l)
      → ((o : Offer) → Spent o m → Spent o l)
      → Move l m
  -- One more offer, to a driver who has none, for a claimable trip.
  offer :
      (n : Offer)
      → l.state n.trip ≡ claimable
      → ((g : Guard) → Memᴰ g l.guards → g.offer_id ≢ some n.id)
      → ((t : TripRef) → m.state t ≡ l.state t)
      → m.guards ≡ l.guards
      → ((o : Offer)
          → Live o m
          → (o ≡ n) ⊎ (Live o l × (o.driver_id ≢ n.driver_id) × (o.id ≢ n.id)))
      → ((o : Offer) → Spent o m → Spent o l)
      → Move l m
  -- A driver who is free gets a claimable trip, and every other offer for it goes.
  claim :
      (g : Guard)
      → l.state g.trip ≡ claimable
      → ((h : Guard) → Memᴰ h l.guards → h.driver_id ≢ g.driver_id)
      → m.state g.trip ≡ bound g.driver_id
      → SameBut g.trip l m
      → m.guards ≡ g ∷ l.guards
      → ((o : Offer) → Live o m → Live o l × (o.trip ≢ g.trip) × (g.offer_id ≢ some o.id))
      → ((o : Offer) → Spent o m → Spent o l ⊎ (o.trip ≡ g.trip))
      → Move l m
  -- A trip ends: its guard and its offers go.
  finish :
      (t : TripRef)
      → m.state t ≡ closed
      → SameBut t l m
      → ((g : Guard) → Memᴰ g m.guards → Memᴰ g l.guards × (g.trip ≢ t))
      → ((g : Guard) → Memᴰ g l.guards → g.trip ≢ t → Memᴰ g m.guards)
      → ((o : Offer) → Live o m → Live o l × (o.trip ≢ t))
      → ((o : Offer) → Spent o m → Spent o l)
      → Move l m
  -- A trip that no driver has appears or opens up for claims; its offers, if any, are dropped.
  arise :
      (t : TripRef)
      → ((d : ℕ) → l.state t ≢ bound d)
      → is_over (l.state t) ≡ false
      → ((d : ℕ) → m.state t ≢ bound d)
      → ((d : ℕ) → m.state t ≢ stray d)
      → SameBut t l m
      → m.guards ≡ l.guards
      → ((o : Offer) → Live o m → Live o l × (o.trip ≢ t))
      → ((o : Offer) → Spent o m → Spent o l)
      → Move l m

pub data Moves (l : Ledger) : Ledger → Type 0 where
  none_yet : Moves l l
  then : {m n : Ledger} → Moves l m → Move m n → Moves l n

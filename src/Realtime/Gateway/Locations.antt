-- ===== src/Realtime/Gateway/Locations.antt =====
-- How often the position of a driver is passed on.
use rcab.Base.{
  ℕ, ◌+◌, ◌<◌, ◌≡◌, refl, sym, ap, subst, ◌∙◌, ◌==◌, Bool, true, false, Option, none, some, List,
  [], ◌∷◌, Memᴰ, inl, inr, Bool-cases, ==_refl, ==_iff, exists_where, exists_where-mem,
  exists_where-true, arith, if◌then◌else◌,
}
use rcab.Realtime.Gateway.{
  LocationGates, LocationEffects, has_passed, fan_throttle_ms, geo_throttle_ms, fan_out,
  handle_driver_location,
}

-- A packet of a driver who has a ride.
pub record Packet : Type 0 where
  pub driver : ℕ
  pub ride : Option ℕ
  pub at : ℕ

-- The gates after packets, the latest first.
unfoldable pub after_packets : LocationGates → List Packet → LocationGates
after_packets g [] = g
after_packets g (p ∷ ps) = (handle_driver_location (after_packets g ps) p.driver p.ride p.at).0

-- What a packet does to the rides does not depend on the gate of the driver.
module _ (g : LocationGates) (driver : ℕ) (ride : Option ℕ) (now : ℕ) where
  record SameFan (r : LocationGates × LocationEffects) : Type 0 where
    pub fired : r.0.en_route_fired ≡ (fan_out g ride now).0.en_route_fired
    pub fan : r.0.fan ≡ (fan_out g ride now).0.fan
    pub first : r.1.first_location ≡ (fan_out g ride now).1
    pub shown : r.1.fan_out ≡ (fan_out g ride now).2

  handle_driver_location-SameFan : SameFan (handle_driver_location g driver ride now)
  unfolding handle_driver_location
  handle_driver_location-SameFan =
      elim (Bool-cases (has_passed ((fan_out g ride now).0.geo driver) geo_throttle_ms now)) [
        | inl due ↦ rw due (record { fired = refl; fan = refl; first = refl; shown = refl })
        | inr early ↦ rw early (record { fired = refl; fan = refl; first = refl; shown = refl })
      ]

-- A packet keeps the rides that have been kicked, and kicks its own.
fan_out-kept :
    (g : LocationGates) (ride : Option ℕ) (now r : ℕ)
    → Memᴰ r g.en_route_fired
    → Memᴰ r (fan_out g ride now).0.en_route_fired
unfolding fan_out
fan_out-kept g none now r m = m
fan_out-kept g (some ride) now r m =
    elim (Bool-cases (has_passed (g.fan ride) fan_throttle_ms now)) [
      | inl due ↦ rw due (longer (exists_where (λ k. k == ride) g.en_route_fired))
      | inr early ↦ rw early (longer (exists_where (λ k. k == ride) g.en_route_fired))
    ]
  where
    longer : (b : Bool) → Memᴰ r (if b then g.en_route_fired else ride ∷ g.en_route_fired)
    longer true = m
    longer false = Memᴰ.tail m

fan_out-own :
    (g : LocationGates) (ride now : ℕ) → Memᴰ ride (fan_out g (some ride) now).0.en_route_fired
unfolding fan_out
fan_out-own g ride now = elim (Bool-cases (has_passed (g.fan ride) fan_throttle_ms now)) [
  | inl due ↦ rw due (kicked (exists_where (λ k. k == ride) g.en_route_fired) refl)
  | inr early ↦ rw early (kicked (exists_where (λ k. k == ride) g.en_route_fired) refl)
]
  where
    kicked :
        (b : Bool)
        → exists_where (λ k. k == ride) g.en_route_fired ≡ b
        → Memᴰ ride (if b then g.en_route_fired else ride ∷ g.en_route_fired)
    kicked true e =
        let (k, m, hit) = exists_where-true (λ k. k == ride) g.en_route_fired e in
        subst (λ x. Memᴰ x g.en_route_fired) ((==_iff k ride).0 hit) m
    kicked false e = Memᴰ.head refl

after_packets-fired :
    (g : LocationGates) (ps : List Packet) (p : Packet) (r : ℕ)
    → Memᴰ p ps
    → p.ride ≡ some r
    → Memᴰ r (after_packets g ps).en_route_fired
unfolding after_packets
after_packets-fired g [] p r m e = elim m [ ]
after_packets-fired g (q ∷ ps) p r (Memᴰ.head at) e =
    let same = handle_driver_location-SameFan (after_packets g ps) q.driver q.ride q.at in
    let ride : q.ride ≡ some r = ap (λ (x : Packet). x.ride) (sym at) ∙ e in
    subst (Memᴰ r) (sym same.fired) (
      subst (λ o. Memᴰ r (fan_out (after_packets g ps) o q.at).0.en_route_fired) (sym ride)
        (fan_out-own (after_packets g ps) r q.at))
after_packets-fired g (q ∷ ps) p r (Memᴰ.tail m) e =
    let same = handle_driver_location-SameFan (after_packets g ps) q.driver q.ride q.at in
    subst (Memᴰ r) (sym same.fired)
      (fan_out-kept (after_packets g ps) q.ride q.at r (after_packets-fired g ps p r m e))

fan_out-known :
    (g : LocationGates) (r now : ℕ) → Memᴰ r g.en_route_fired → (fan_out g (some r) now).1 ≡ false
unfolding fan_out
fan_out-known g r now m =
    let known = exists_where-mem (λ k. k == r) g.en_route_fired r m (==_refl r) in
    elim (Bool-cases (has_passed (g.fan r) fan_throttle_ms now)) [
      | inl due ↦ rw (due, known) refl
      | inr early ↦ rw (early, known) refl
    ]

-- the first step of a ride is kicked by one packet at most: after any packets that include one of
-- a driver on the ride, no packet on that ride kicks it.
pub first_location-once :
    (g : LocationGates) (ps : List Packet) (p : Packet) (r driver now : ℕ)
    → Memᴰ p ps
    → p.ride ≡ some r
    → (handle_driver_location (after_packets g ps) driver (some r) now).1.first_location ≡ false
first_location-once g ps p r driver now m e =
    (handle_driver_location-SameFan (after_packets g ps) driver (some r) now).first
    ∙ fan_out-known (after_packets g ps) r now (after_packets-fired g ps p r m e)

-- Before its gate opens, a ride's position is not shown and its gate stays as it is.
fan_out-shut :
    (g : LocationGates) (ride : Option ℕ) (now r last : ℕ)
    → g.fan r ≡ last
    → now < last + fan_throttle_ms
    → (fan_out g ride now).0.fan r ≡ last
unfolding fan_out
fan_out-shut g none now r last at early = at
fan_out-shut g (some ride) now r last at early =
    elim (Bool-cases (has_passed (g.fan ride) fan_throttle_ms now)) [
      | inr shut ↦ rw shut at
      | inl due ↦ rw due (elim (Bool-cases (r == ride)) [
        | inl same ↦
            let e : r ≡ ride = (==_iff r ride).0 same in
            absurd (ground (arith, due, early, at, ap g.fan e))
        | inr other ↦ rw other at
      ])
    ]

after_packets-shut :
    (g : LocationGates) (ps : List Packet) (r last : ℕ)
    → g.fan r ≡ last
    → ((p : Packet) → Memᴰ p ps → p.at < last + fan_throttle_ms)
    → (after_packets g ps).fan r ≡ last
unfolding after_packets
after_packets-shut g [] r last at early = at
after_packets-shut g (p ∷ ps) r last at early =
    let same = handle_driver_location-SameFan (after_packets g ps) p.driver p.ride p.at in
    let ih = after_packets-shut g ps r last at (λ q m. early q (Memᴰ.tail m)) in
    ap (λ f. f r) same.fan
    ∙ fan_out-shut (after_packets g ps) p.ride p.at r last ih (early p (Memᴰ.head refl))

fan_out-early :
    (g : LocationGates) (r now : ℕ)
    → now < g.fan r + fan_throttle_ms
    → (fan_out g (some r) now).2 ≡ false
unfolding fan_out
fan_out-early g r now early =
    let shut : has_passed (g.fan r) fan_throttle_ms now ≡ false = ground arith in rw shut refl

-- the room of a ride is shown one position a second: if a packet on the ride was shown at `last`,
-- then no packet on it is before a second has passed, whatever packets came in between.
pub fan_out-spaced :
    (g : LocationGates) (ps : List Packet) (r last driver driver' now : ℕ)
    → (handle_driver_location g driver (some r) last).1.fan_out ≡ true
    → ((p : Packet) → Memᴰ p ps → p.at < last + fan_throttle_ms)
    → now < last + fan_throttle_ms
    → (handle_driver_location
        (after_packets (handle_driver_location g driver (some r) last).0 ps)
        driver'
        (some r)
        now).1.fan_out
      ≡ false
unfolding fan_out
fan_out-spaced g ps r last driver driver' now shown early soon =
    let same = handle_driver_location-SameFan g driver (some r) last in
    let g' = (handle_driver_location g driver (some r) last).0 in
    let set : g'.fan r ≡ last = ap (λ f. f r) same.fan ∙ set_gate (sym same.shown ∙ shown) in
    let held = after_packets-shut g' ps r last set early in
    (handle_driver_location-SameFan (after_packets g' ps) driver' (some r) now).shown
    ∙ fan_out-early (after_packets g' ps) r now (ground (arith, held, soon))
  where
    no_gate :
        has_passed (g.fan r) fan_throttle_ms last ≡ false → (fan_out g (some r) last).2 ≡ true → ⊥
    no_gate shut e = let e' = rw shut at e in ground (arith, e')

    set_gate : (fan_out g (some r) last).2 ≡ true → (fan_out g (some r) last).0.fan r ≡ last
    set_gate e = elim (Bool-cases (has_passed (g.fan r) fan_throttle_ms last)) [
      | inl due ↦ rw due (rw (==_refl r) refl)
      | inr shut ↦ absurd (no_gate shut e)
    ]

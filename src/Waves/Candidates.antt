-- ===== src/Waves/Candidates.antt =====
-- Whom a wave chooses.
use rcab.Base.{
  take, ℕ, suc, zero, ◌≤◌, ◌&&◌, ◌==◌, ◌≡◌, refl, ap, ◌∙◌, ◌≢◌, ◌*◌, ◌+◌, true, false, not, leb,
  max, some, List, [], ◌∷◌, ◌⊎◌, inl, inr, arith, Memᴰ, Bool-cases, Option-cases, length, find_by,
  find_where, select_where, exists_where, mem-select_where, find_where-mem, find_where-none,
  exists_where-true, exists_where-false,
}
use rcab.Store.{TripRef, Point, User, Vehicle, Guard, Db}
use rcab.Offers.{offered_driver_ids}
use rcab.Guards.{Eligibility, max_seats, driver_eligibility}
use rcab.Waves.{
  distinct, candidate_headroom, is_driver_row, fits, is_candidate, eligible_candidates, WaveParams,
  select_candidates,
}

length-take : (n : ℕ) (xs : List ℕ) → length (take n xs) ≤ n
length-take zero xs = omega arith
length-take (suc n) [] = omega arith
length-take (suc n) (x ∷ xs) = let rest = length-take n xs in omega arith

mem-take : (n : ℕ) (xs : List ℕ) {x : ℕ} → Memᴰ x (take n xs) → Memᴰ x xs
mem-take zero xs m = elim m [ ]
mem-take (suc n) [] m = elim m [ ]
mem-take (suc n) (x ∷ xs) (Memᴰ.head e) = Memᴰ.head e
mem-take (suc n) (x ∷ xs) (Memᴰ.tail m) = Memᴰ.tail (mem-take n xs m)

mem-distinct : (xs : List ℕ) {x : ℕ} → Memᴰ x (distinct xs) → Memᴰ x xs
unfolding distinct
mem-distinct [] m = elim m [ ]
mem-distinct (x ∷ xs) (Memᴰ.head e) = Memᴰ.head e
mem-distinct (x ∷ xs) (Memᴰ.tail m) =
    Memᴰ.tail (mem-distinct xs (mem-select_where (λ y. not (y == x)) (distinct xs) m).0)

leb-max : (n a b : ℕ) → (leb n a ≡ true) ⊎ (leb n b ≡ true) → leb n (max a b) ≡ true
leb-max n a b (inl h) = ground (arith, h)
leb-max n a b (inr h) = ground (arith, h)

fits-max_seats :
    (driver seats : ℕ) (vs : List Vehicle)
    → exists_where (fits driver seats) vs ≡ true
    → leb seats (max_seats driver vs) ≡ true
unfolding exists_where max_seats
fits-max_seats driver seats [] e = ground (arith, e)
fits-max_seats driver seats (v ∷ vs) e = elim (Bool-cases (fits driver seats v)) [
  | inl hit ↦
      rw (ours hit) (leb-max seats v.seats (max_seats driver vs) (inl (ground (arith, hit))))
  | inr miss ↦
      let rest = fits-max_seats driver seats vs (rw miss at e) in
      elim (Bool-cases (v.driver_id == driver && v.active)) [
        | inl mine ↦ rw mine (leb-max seats v.seats (max_seats driver vs) (inr rest))
        | inr other ↦ rw other rest
      ]
]
  where
    ours : fits driver seats v ≡ true → (v.driver_id == driver && v.active) ≡ true
    ours hit = ground (arith, hit)

-- The driver of an id is one row, and so is its account.
abbrev pub IsAccount : List User → Type 0
IsAccount users = (u w : User) → Memᴰ u users → Memᴰ w users → u.id ≡ w.id → u ≡ w

-- What a wave may rely on for a driver whom it chooses.
pub record IsChosen (db : Db) (t : TripRef) (g seats driver : ℕ) : Type 0 where
  pub passes : driver_eligibility db driver seats ≡ Eligibility.eligible
  pub free : (h : Guard) → Memᴰ h db.guards → h.driver_id ≢ driver
  pub fresh : (d : ℕ) → Memᴰ d (offered_driver_ids db t g) → d ≢ driver

-- A driver row, found by its key.
account-found :
    (driver : ℕ) (users : List User)
    → IsAccount users
    → exists_where (is_driver_row driver) users ≡ true
    → (u : User) × (find_by (λ (w : User). w.id) driver users ≡ some u)
      × (is_driver_row driver u ≡ true)
unfolding find_by
account-found driver users one e =
    let (u, m, hit) = exists_where-true (is_driver_row driver) users e in
    elim (Option-cases (find_where (λ (w : User). w.id == driver) users)) [
      | inl gone ↦
          absurd
            (ground (arith, hit, find_where-none (λ (w : User). w.id == driver) users u gone m))
      | inr (w, found) ↦
          let (mw, at) = find_where-mem (λ (w : User). w.id == driver) users w found in
          let same : w ≡ u = one w u mw m (ground (arith, at, hit)) in
          (u, found ∙ ap some same, hit)
    ]

module _ (db : Db) (now seats driver : ℕ) (one : IsAccount db.users)
    (e : is_candidate db now seats driver ≡ true) where
  candidate-passes : driver_eligibility db driver seats ≡ Eligibility.eligible
  unfolding driver_eligibility is_candidate
  candidate-passes =
      let (u, found, hit) = account-found driver db.users one (ground (arith, e)) in
      let seated = fits-max_seats driver seats db.vehicles (ground (arith, e)) in
      let active : (u.is_active && u.is_driver && u.has_driver_row) ≡ true = ground (arith, hit) in
      rw (found, driver_eligibility) (rw (active, seated) refl)

  candidate-free : (h : Guard) → Memᴰ h db.guards → h.driver_id ≢ driver
  unfolding is_candidate
  candidate-free h m at =
      let alone : exists_where (λ (g : Guard). g.driver_id == driver) db.guards ≡ false =
        ground (arith, e) in
      ground
        (arith, exists_where-false (λ (g : Guard). g.driver_id == driver) db.guards h alone m, at)

module _ (georadius : Point → ℕ → ℕ → List ℕ) (now : ℕ) (db : Db) (t : TripRef) (g : ℕ)
    (origin : Point) (p : WaveParams) (seats : ℕ) where
  pub select_candidates-few : length (select_candidates georadius now db t g origin p seats) ≤ p.k
  unfolding select_candidates
  select_candidates-few = length-take p.k (
      eligible_candidates db now
        (select_where (λ id. not (exists_where (λ d. d == id) (offered_driver_ids db t g)))
          (georadius origin p.radius_meters
            (p.k * candidate_headroom + length (distinct (offered_driver_ids db t g)))))
        seats)

  pub select_candidates-IsChosen :
      (driver : ℕ)
      → IsAccount db.users
      → Memᴰ driver (select_candidates georadius now db t g origin p seats)
      → IsChosen db t g seats driver
  unfolding select_candidates eligible_candidates
  select_candidates-IsChosen driver one m =
      let (raw, hit) = mem-select_where (is_candidate db now seats) _ (mem-take p.k _ m) in
      let (near, new) =
        mem-select_where (λ id. not (exists_where (λ d. d == id) (offered_driver_ids db t g))) _
          (mem-distinct _ raw) in
      let unseen : exists_where (λ d. d == driver) (offered_driver_ids db t g) ≡ false =
        ground (arith, new) in
      record {
        passes = candidate-passes db now seats driver one hit;
        free = candidate-free db now seats driver one hit;
        fresh = λ d md.
            ground (
              arith,
              exists_where-false (λ d. d == driver) (offered_driver_ids db t g) d unseen md,
            );
      }

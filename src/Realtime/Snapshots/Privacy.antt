-- ===== src/Realtime/Snapshots/Privacy.antt =====
-- What a member is told of a pool does not depend on who the other passengers are, nor on where they
-- go.
use rcab.Base.{
  ℕ, ◌≡◌, ◌≢◌, refl, ap, ◌∙◌, ◌==◌, false, Option, none, some, List, [], ◌∷◌, map, inl, inr,
  Bool-cases, Option-cases, ==_iff, arith, is_some, leb, find_where, select_where-map, sort_by,
  sort_by-map, if◌then◌else◌,
}
use rcab.Store.{Pool, PoolMember, RideStop, Db}
use rcab.Trips.View.{find_pool}
use rcab.Stops.{stops_of}
use rcab.Realtime.Snapshots.{is_member, member_stop, member_snapshot, pool_snapshot, vehicle_for}

module _ (user : ℕ) where
  -- A change of the stops of other passengers in who they are and where they are.
  pub record HidesStop (f : RideStop → RideStop) : Type 0 where
    pub own : (s : RideStop) → s.passenger_id ≡ user → f s ≡ s
    pub others : (s : RideStop) → s.passenger_id ≢ user → (f s).passenger_id ≢ user
    pub ride : (s : RideStop) → (f s).ride_id ≡ s.ride_id
    pub index : (s : RideStop) → (f s).sequence_index ≡ s.sequence_index
    pub type : (s : RideStop) → (f s).type ≡ s.type
    pub confirmed : (s : RideStop) → is_some (f s).confirmed_at ≡ is_some s.confirmed_at

  -- A change of the seats of other passengers.
  pub record HidesSeat (g : PoolMember → PoolMember) : Type 0 where
    pub own : (m : PoolMember) → m.passenger_id ≡ user → g m ≡ m
    pub others : (m : PoolMember) → m.passenger_id ≢ user → (g m).passenger_id ≢ user

  -- The tables in which others are changed so.
  abbrev pub disguised : (RideStop → RideStop) → (PoolMember → PoolMember) → Db → Db
  disguised f g db = record db { stops = map f db.stops; members = map g db.members }

  not_user : (id : ℕ) → id ≢ user → (id == user) ≡ false
  not_user id other = elim (Bool-cases (id == user)) [
    | inl same ↦ absurd (other ((==_iff id user).0 same))
    | inr miss ↦ miss
  ]

  stop-alike :
      (f : RideStop → RideStop)
      → HidesStop f
      → (s : RideStop) → member_stop user (f s) ≡ member_stop user s
  stop-alike f h s = elim (Bool-cases (s.passenger_id == user)) [
    | inl mine ↦ ap (member_stop user) (h.own s ((==_iff s.passenger_id user).0 mine))
    | inr other ↦
        let miss : ((f s).passenger_id == user) ≡ false =
          not_user (f s).passenger_id (h.others s (λ e. ground (arith, other, e))) in
        rw (miss, other, h.index s, h.type s, h.confirmed s) refl
  ]

  stops-alike :
      (f : RideStop → RideStop)
      → HidesStop f
      → (ss : List RideStop) → map (member_stop user) (map f ss) ≡ map (member_stop user) ss
  stops-alike f h [] = refl
  stops-alike f h (s ∷ ss) =
      let ih = stops-alike f h ss in
      let e = stop-alike f h s in
      ap (λ x. x ∷ map (member_stop user) (map f ss)) e ∙ ap (λ xs. member_stop user s ∷ xs) ih

  find-member :
      (g : PoolMember → PoolMember)
      → HidesSeat g
      → (pool : ℕ) (ms : List PoolMember)
      → find_where (is_member pool user) (map g ms) ≡ find_where (is_member pool user) ms
  unfolding find_where
  find-member g h pool [] = refl
  find-member g h pool (m ∷ ms) = elim (Bool-cases (m.passenger_id == user)) [
    | inl mine ↦
        rw (h.own m ((==_iff m.passenger_id user).0 mine))
          (ap (λ o. if is_member pool user m then some m else o) (find-member g h pool ms))
    | inr other ↦
        let miss : is_member pool user m ≡ false = ground (arith, other) in
        let moved = not_user (g m).passenger_id (h.others m (λ e. ground (arith, other, e))) in
        let miss' : is_member pool user (g m) ≡ false = ground (arith, moved) in
        rw (miss, miss') (find-member g h pool ms)
  ]

  -- The itinerary of a pool.
  itinerary-alike :
      (db : Db) (pool : ℕ) (f : RideStop → RideStop) (g : PoolMember → PoolMember)
      → HidesStop f
      → map (member_stop user) (stops_of (disguised f g db) pool)
        ≡ map (member_stop user) (stops_of db pool)
  unfolding stops_of
  itinerary-alike db pool f g h =
      ap (λ ss. map (member_stop user) (sort_by (λ s t. leb s.sequence_index t.sequence_index) ss))
        (select_where-map f (λ s. s.ride_id == pool) (λ s. s.ride_id == pool)
          (λ s. ap (λ id. id == pool) (h.ride s)) db.stops)
      ∙ ap (map (member_stop user)) (
          sort_by-map f (λ s t. leb s.sequence_index t.sequence_index)
            (λ s t. leb s.sequence_index t.sequence_index) (λ s t. ap2 (h.index s) (h.index t)) _)
      ∙ stops-alike f h _
    where
      ap2 : {a b c d : ℕ} → a ≡ b → c ≡ d → leb a c ≡ leb b d
      ap2 e e' = cc

  -- a member's snapshot of a pool is the same whoever the other passengers are, whatever seats
  -- they hold, and wherever they are picked up and set down.
  pub pool_snapshot-private :
      (db : Db) (pool : ℕ) (f : RideStop → RideStop) (g : PoolMember → PoolMember)
      → HidesStop f
      → HidesSeat g
      → pool_snapshot (disguised f g db) pool user ≡ pool_snapshot db pool user
  unfolding pool_snapshot vehicle_for
  pool_snapshot-private db pool f g hf hg = elim (Option-cases (find_pool pool db.pools)) [
    | inl gone ↦ rw (gone, pool_snapshot) refl
    | inr (p, found) ↦
        rw (found, pool_snapshot)
          (rw (find-member g hg pool db.members, pool_snapshot)
            (row p (find_where (is_member pool user) db.members)))
  ]
    where
      row :
          (p : Pool) (o : Option PoolMember)
          → elim o [ none ↦ none | some m ↦ some (member_snapshot (disguised f g db) user p m) ]
            ≡ elim o [ none ↦ none | some m ↦ some (member_snapshot db user p m) ]
      row p none = refl
      row p (some m) =
          ap (λ stops. some (record (member_snapshot db user p m) { itinerary = stops }))
            (itinerary-alike db p.ride_id f g hf)

-- ===== src/Pools/Capacity.antt =====
-- A pool never has more members than seats, its seat count is the number of its members, and a
-- passenger holds one active seat at most.
use rcab.Base.{
  ℕ, suc, ◌==◌, ◌&&◌, ◌≡◌, ◌≢◌, ◌≤◌, refl, sym, ap, ◌∙◌, Bool, true, false, none, some, List, [],
  ◌∷◌, inl, inr, arith, Bool-cases, Memᴰ, mem-update_where, if◌then◌else◌, length, select_where,
  update_where, exists_where, exists_where-false, find_by-update_inv, find_by-update_none,
  find_by-key,
}
use rcab.Store.{Pool, PoolMember, Db}
use rcab.Trips.View.{find_pool, pool_key}
use rcab.Guards.{release_members}
use rcab.Pools.{NewMember, member_one_active, clashes, new_member, with_seat, seat_db}

abbrev pub of_pool_id : ℕ → PoolMember → Bool
of_pool_id id m = m.pool_id == id

-- The number of the pool's members.
abbrev pub members_of : ℕ → List PoolMember → ℕ
members_of id ms = length (select_where (of_pool_id id) ms)

pub record IsFilled (pools : List Pool) (members : List PoolMember) : Type 0 where
  -- The derived count and the capacity check.
  pub counted :
      (id : ℕ) (p : Pool) → find_pool id pools ≡ some p → p.seat_count ≡ members_of id members
  pub fits : (id : ℕ) (p : Pool) → find_pool id pools ≡ some p → p.seat_count ≤ p.max_seats
  -- A member's pool is there.
  pub housed : (m : PoolMember) → Memᴰ m members → find_pool m.pool_id pools ≢ none
  -- One active seat to a passenger.
  pub lone :
      (m k : PoolMember)
      → Memᴰ m members
      → Memᴰ k members
      → m.active ≡ true
      → k.active ≡ true
      → m.passenger_id ≡ k.passenger_id
      → m ≡ k

abbrev pub Filled : Db → Type 0
Filled db = IsFilled db.pools db.members

-- An update of pools that keeps their ids and seats.
pub record KeepsSeats (f : Pool → Pool) : Type 0 where
  pub same_id : (p : Pool) → (f p).ride_id ≡ p.ride_id
  pub same_count : (p : Pool) → (f p).seat_count ≡ p.seat_count
  pub same_max : (p : Pool) → (f p).max_seats ≡ p.max_seats

members_of-cons :
    (id : ℕ) (m : PoolMember) (ms : List PoolMember)
    → members_of id (m ∷ ms)
      ≡ (if of_pool_id id m then suc (members_of id ms) else members_of id ms)
unfolding select_where
members_of-cons id m ms = elim (Bool-cases (of_pool_id id m)) [
  | inl hit ↦ rw hit refl
  | inr miss ↦ rw miss refl
]

module _ (db : Db) (v : Filled db) where
  -- Seating a passenger who has no active seat, in an open pool that has room.
  pub seat_db-IsFilled :
      (now : ℕ) (n : NewMember) (p : Pool)
      → find_pool n.pool_id db.pools ≡ some p
      → suc p.seat_count ≤ p.max_seats
      → exists_where (clashes member_one_active n) db.members ≡ false
      → Filled (seat_db db now n)
  seat_db-IsFilled now n p found room free = record {
    counted = λ id q e. (seats id q e).0;
    fits = λ id q e. (seats id q e).1;
    housed = λ m mm gone.
        house m mm (find_by-update_none pool_key hit with_seat (λ x. refl) m.pool_id db.pools gone);
    lone = single;
  }
    where
      hit : Pool → Bool
      hit q = q.ride_id == n.pool_id

      grew :
          (id : ℕ) (q x : Pool)
          → x ≡ p
          → q ≡ with_seat x
          → x.seat_count ≡ members_of id db.members
          → x.ride_id ≡ id
          → (x.ride_id == n.pool_id) ≡ true
          → (q.seat_count ≡ members_of id (seat_db db now n).members) × (q.seat_count ≤ q.max_seats)
      grew id q x it made was at same =
          let more = members_of-cons id (new_member now n) db.members in
          let own : (n.pool_id == id) ≡ true = ground (arith, at, same) in
          let grown = rw own at more in
          (ap (λ (z : Pool). z.seat_count) made ∙ ap suc was ∙ sym grown, rw (made, it) room)

      kept :
          (id : ℕ) (q x : Pool)
          → q ≡ x
          → x.seat_count ≡ members_of id db.members
          → x.seat_count ≤ x.max_seats
          → x.ride_id ≡ id
          → (x.ride_id == n.pool_id) ≡ false
          → (q.seat_count ≡ members_of id (seat_db db now n).members) × (q.seat_count ≤ q.max_seats)
      kept id q x made was had at other =
          let more = members_of-cons id (new_member now n) db.members in
          let apart : (n.pool_id == id) ≡ false = ground (arith, at, other) in
          (ap (λ (z : Pool). z.seat_count) made ∙ was ∙ sym (rw apart at more), rw made had)

      seats :
          (id : ℕ) (q : Pool)
          → find_pool id (seat_db db now n).pools ≡ some q
          → (q.seat_count ≡ members_of id (seat_db db now n).members) × (q.seat_count ≤ q.max_seats)
      seats id q e =
          let (x, at, made) =
            find_by-update_inv pool_key hit with_seat (λ x. refl) id db.pools q e in
          let at_id = find_by-key pool_key id db.pools x at in
          let was = v.counted id x at in
          let had = v.fits id x at in
          elim (Bool-cases (x.ride_id == n.pool_id)) [
            | inl same ↦
                let it : x ≡ p = ground (arith, same, at_id, at, found) in
                grew id q x it (rw same at made) was at_id same
            | inr other ↦ kept id q x (rw other at made) was had at_id other
          ]

      house :
          (m : PoolMember) → Memᴰ m (seat_db db now n).members → find_pool m.pool_id db.pools ≢ none
      house m (Memᴰ.head e) gone = ground (arith, e, gone, found)
      house m (Memᴰ.tail mm) gone = v.housed m mm gone

      single :
          (m k : PoolMember)
          → Memᴰ m (seat_db db now n).members
          → Memᴰ k (seat_db db now n).members
          → m.active ≡ true
          → k.active ≡ true
          → m.passenger_id ≡ k.passenger_id
          → m ≡ k
      single m k (Memᴰ.head e) (Memᴰ.head h) am ak same = e ∙ sym h
      single m k (Memᴰ.head e) (Memᴰ.tail mk) am ak same =
          let miss = exists_where-false _ db.members k free mk in ground (arith, miss, ak, same, e)
      single m k (Memᴰ.tail mm) (Memᴰ.head h) am ak same =
          let miss = exists_where-false _ db.members m free mm in ground (arith, miss, am, same, h)
      single m k (Memᴰ.tail mm) (Memᴰ.tail mk) am ak same = v.lone m k mm mk am ak same

-- An update of pools that keeps their seats.
pub pools-IsFilled :
    (c : Pool → Bool) (f : Pool → Pool) (k : KeepsSeats f) (pools : List Pool)
    (ms : List PoolMember)
    → IsFilled pools ms
    → IsFilled (update_where c f pools) ms
pools-IsFilled c f k pools ms v = record {
  counted = λ id p e.
      let (x, at, made) = find_by-update_inv pool_key c f k.same_id id pools p e in
      ap (λ (z : Pool). z.seat_count) made ∙ count x ∙ v.counted id x at;
  fits = λ id p e.
      let (x, at, made) = find_by-update_inv pool_key c f k.same_id id pools p e in
      rw made (fit x (v.fits id x at));
  housed =
      λ m mm gone. v.housed m mm (find_by-update_none pool_key c f k.same_id m.pool_id pools gone);
  lone = v.lone;
}
  where
    count : (x : Pool) → (if c x then f x else x).seat_count ≡ x.seat_count
    count x = elim (Bool-cases (c x)) [ inl h ↦ rw h (k.same_count x) | inr h ↦ rw h refl ]

    fit :
        (x : Pool)
        → x.seat_count ≤ x.max_seats
        → (if c x then f x else x).seat_count ≤ (if c x then f x else x).max_seats
    fit x h = elim (Bool-cases (c x)) [
      | inl hit ↦ rw (hit, k.same_count x, k.same_max x) h
      | inr miss ↦ rw miss h
    ]

members_of-release :
    (id j : ℕ) (ms : List PoolMember) → members_of id (release_members j ms) ≡ members_of id ms
unfolding release_members update_where select_where
members_of-release id j [] = refl
members_of-release id j (m ∷ ms) = elim (Bool-cases (m.pool_id == j && m.active)) [
  | inl hit ↦ rw hit (elim (Bool-cases (m.pool_id == id)) [
    | inl own ↦ rw own (ap suc (members_of-release id j ms))
    | inr other ↦ rw other (members_of-release id j ms)
  ])
  | inr miss ↦ rw miss (elim (Bool-cases (m.pool_id == id)) [
    | inl own ↦ rw own (ap suc (members_of-release id j ms))
    | inr other ↦ rw other (members_of-release id j ms)
  ])
]

-- A member that is active after the release was there before, as it is.
release-active :
    (j : ℕ) (ms : List PoolMember) (m : PoolMember)
    → Memᴰ m (release_members j ms)
    → (x : PoolMember) × Memᴰ x ms × (x.pool_id ≡ m.pool_id) × (m.active ≡ true → m ≡ x)
unfolding release_members
release-active j ms m mm =
    let (x, mx, made) = mem-update_where (λ m. m.pool_id == j && m.active) _ ms mm in
    elim (Bool-cases (x.pool_id == j && x.active)) [
      | inl hit ↦
          let e = rw hit at made in
          (x, mx, ap (λ (z : PoolMember). z.pool_id) (sym e), λ a. ground (arith, a, e))
      | inr miss ↦
          let e = rw miss at made in (x, mx, ap (λ (z : PoolMember). z.pool_id) (sym e), λ a. e)
    ]

pub released-IsFilled :
    (j : ℕ) (pools : List Pool) (ms : List PoolMember)
    → IsFilled pools ms
    → IsFilled pools (release_members j ms)
released-IsFilled j pools ms v = record {
  counted = λ id p e. v.counted id p e ∙ sym (members_of-release id j ms);
  fits = v.fits;
  housed =
      λ m mm gone. let (x, mx, same, _) = release-active j ms m mm in v.housed x mx (rw same gone);
  lone = λ m k mm mk am ak same.
      let (x, mx, _, em) = release-active j ms m mm in
      let (y, my, _, ek) = release-active j ms k mk in
      let it = em am in
      let at = ek ak in
      it ∙ v.lone x y mx my (rw (← it) am) (rw (← at) ak) (rw (← it, ← at) same) ∙ sym at;
}

-- ===== src/Itinerary/Stops.antt =====
-- The itinerary visits each member twice, first for the pickup and then for the dropoff, and its
-- stops are numbered from 0 without a gap.
use rcab.Base.{
  ℕ, zero, suc, ◌+◌, ◌≡◌, ◌≤◌, ◌<◌, refl, ap, ◌∙◌, Bool, true, false, ltb, List, [], ◌∷◌, ◌++◌, map,
  select_where, arith, ◌⊎◌, inl, inr, Bool-cases, length, sort_by, sort_by-Perm, length-Perm, Permᴰ,
  Memᴰ,
}
use mathlib.Core.List.Permᴰ
use rcab.Store.{Point, StopType, PoolMember}
use rcab.Itinerary.{
  OfferStop, by_passenger_id, nearer_pickup, sort_pickups, splice_one, scan_nearest, nearest_index,
  dropoff_rounds, order_dropoffs, dropoffs_after, pickup_stops, dropoff_stops, compute_stops,
}

splice_one-Perm :
    (n : ℕ) (m : PoolMember) (ms : List PoolMember)
    → Permᴰ ((splice_one n m ms).0 ∷ (splice_one n m ms).1) (m ∷ ms)
unfolding splice_one
splice_one-Perm zero m ms = Permᴰ.refl (m ∷ ms)
splice_one-Perm (suc n) m [] = Permᴰ.refl (m ∷ [])
splice_one-Perm (suc n) m (x ∷ xs) =
    Permᴰ.trans (Permᴰ.swap refl refl) (Permᴰ.cons refl (splice_one-Perm n x xs))

module _ (distance : Point → Point → ℕ) where
  -- With fuel for each, the rounds take every member once.
  dropoff_rounds-Perm :
      (fuel : ℕ) (at : Point) (ms : List PoolMember)
      → length ms ≤ fuel
      → Permᴰ (dropoff_rounds distance fuel at ms) ms
  unfolding dropoff_rounds
  dropoff_rounds-Perm zero at [] h = Permᴰ.nil
  dropoff_rounds-Perm zero at (m ∷ ms) h = ground arith
  dropoff_rounds-Perm (suc fuel) at [] h = Permᴰ.nil
  dropoff_rounds-Perm (suc fuel) at (m ∷ ms) h =
      let it = splice_one (nearest_index distance at m ms) m ms in
      let all = splice_one-Perm (nearest_index distance at m ms) m ms in
      let fits = length-Perm all in
      Permᴰ.trans (Permᴰ.cons refl (dropoff_rounds-Perm fuel it.0.dest it.1 (ground arith))) all

  dropoffs_after-Perm : (ms : List PoolMember) → Permᴰ (dropoffs_after distance ms) ms
  unfolding dropoffs_after order_dropoffs
  dropoffs_after-Perm [] = Permᴰ.nil
  dropoffs_after-Perm (m ∷ ms) =
      Permᴰ.trans (dropoff_rounds-Perm _ _ (sort_by by_passenger_id (m ∷ ms)) (ground arith))
        (sort_by-Perm by_passenger_id (m ∷ ms))

  -- The destination that a round goes to stands in the list.
  scan_nearest-bound :
      (at : Point) (i best best_d : ℕ) (ms : List PoolMember)
      → best < i
      → scan_nearest distance at i best best_d ms < i + length ms
  unfolding scan_nearest
  scan_nearest-bound at i best best_d [] h = ground arith
  scan_nearest-bound at i best best_d (x ∷ xs) h =
      elim (Bool-cases (ltb (distance at x.dest) best_d)) [
        | inl closer ↦ rw closer (
            let ih = scan_nearest-bound at (suc i) i (distance at x.dest) xs (ground arith) in
            ground arith)
        | inr farther ↦
            rw farther
              (let ih = scan_nearest-bound at (suc i) best best_d xs (ground arith) in ground arith)
      ]

-- The stops of a type, as the passengers they are for.
abbrev pub passengers : List PoolMember → List ℕ
passengers = map (λ m. m.passenger_id)

abbrev pub stop_passengers : List OfferStop → List ℕ
stop_passengers = map (λ s. s.passenger_id)

-- Numbers in a row from a first one.
abbrev pub count_from : ℕ → ℕ → List ℕ
count_from i zero = []
count_from i (suc n) = i ∷ count_from (suc i) n

abbrev pub indexes : List OfferStop → List ℕ
indexes = map (λ s. s.sequence_index)

abbrev pub is_type : StopType → OfferStop → Bool
is_type StopType.pickup s = elim s.type [ StopType.pickup ↦ true | StopType.dropoff ↦ false ]
is_type StopType.dropoff s = elim s.type [ StopType.pickup ↦ false | StopType.dropoff ↦ true ]

pickup-indexes :
    (i : ℕ) (ms : List PoolMember) (rest : List OfferStop)
    → indexes (pickup_stops i ms ++ rest) ≡ count_from i (length ms) ++ indexes rest
unfolding pickup_stops
pickup-indexes i [] rest = refl
pickup-indexes i (m ∷ ms) rest = ap (λ xs. i ∷ xs) (pickup-indexes (suc i) ms rest)

dropoff-indexes :
    (i : ℕ) (ms : List PoolMember) → indexes (dropoff_stops i ms) ≡ count_from i (length ms)
unfolding dropoff_stops
dropoff-indexes i [] = refl
dropoff-indexes i (m ∷ ms) = ap (λ xs. i ∷ xs) (dropoff-indexes (suc i) ms)

suc_add : (n m : ℕ) → suc (n + m) ≡ suc n + m
suc_add n m = ground arith

zero_add : (n : ℕ) → n ≡ 0 + n
zero_add n = ground arith

count_from-add : (i n m : ℕ) → count_from i n ++ count_from (i + n) m ≡ count_from i (n + m)
count_from-add i zero m = ap (λ k. count_from k m) (ground arith) ∙ ap (count_from i) (ground arith)
count_from-add i (suc n) m =
    ap (λ xs. i ∷ xs)
      (ap (λ k. count_from (suc i) n ++ count_from k m) (ground arith) ∙ count_from-add (suc i) n m)
    ∙ ap (count_from i) (suc_add n m)

map-Perm : (xs ys : List PoolMember) → Permᴰ xs ys → Permᴰ (passengers xs) (passengers ys)
map-Perm _ _ Permᴰ.nil = Permᴰ.nil
map-Perm _ _ (Permᴰ.cons e d) =
    Permᴰ.cons (ap (λ (m : PoolMember). m.passenger_id) e) (map-Perm _ _ d)
map-Perm _ _ (Permᴰ.swap e f) =
    Permᴰ.swap (ap (λ (m : PoolMember). m.passenger_id) e)
      (ap (λ (m : PoolMember). m.passenger_id) f)
map-Perm _ _ (Permᴰ.trans d e) = Permᴰ.trans (map-Perm _ _ d) (map-Perm _ _ e)

-- The dropoffs among pickups and dropoffs, and the pickups.
picked :
    (i j : ℕ) (ms ds : List PoolMember)
    → stop_passengers
        (select_where (is_type StopType.pickup) (pickup_stops i ms ++ dropoff_stops j ds))
      ≡ passengers ms
unfolding pickup_stops dropoff_stops select_where
picked i j [] [] = refl
picked i j [] (d ∷ ds) = picked i (suc j) [] ds
picked i j (m ∷ ms) ds = ap (λ xs. m.passenger_id ∷ xs) (picked (suc i) j ms ds)

dropped :
    (i j : ℕ) (ms ds : List PoolMember)
    → stop_passengers
        (select_where (is_type StopType.dropoff) (pickup_stops i ms ++ dropoff_stops j ds))
      ≡ passengers ds
unfolding pickup_stops dropoff_stops select_where
dropped i j [] [] = refl
dropped i j [] (d ∷ ds) = ap (λ xs. d.passenger_id ∷ xs) (dropped i (suc j) [] ds)
dropped i j (m ∷ ms) ds = dropped (suc i) j ms ds

module _ (distance : Point → Point → ℕ) (anchor : Point) (members : List PoolMember) where
  abbrev pickups : List PoolMember
  pickups = sort_pickups distance members anchor

  pickups-Perm : Permᴰ pickups members
  unfolding sort_pickups
  pickups-Perm = sort_by-Perm (nearer_pickup distance anchor) members

  dropoffs-Perm : Permᴰ (dropoffs_after distance pickups) members
  dropoffs-Perm = Permᴰ.trans (dropoffs_after-Perm distance pickups) pickups-Perm

  compute_stops-indexes :
      indexes (compute_stops distance anchor members)
      ≡ count_from 0 (length members + length members)
  unfolding compute_stops
  compute_stops-indexes =
      pickup-indexes 0 pickups (dropoff_stops (length pickups) (dropoffs_after distance pickups))
      ∙ ap (λ xs. count_from 0 (length pickups) ++ xs)
          (dropoff-indexes (length pickups) (dropoffs_after distance pickups))
      ∙ ap
          (λ k.
            count_from 0 (length pickups)
            ++ count_from k (length (dropoffs_after distance pickups)))
          (zero_add (length pickups))
      ∙ count_from-add 0 (length pickups) (length (dropoffs_after distance pickups))
      ∙ ap (count_from 0) (ground (arith, length-Perm pickups-Perm, length-Perm dropoffs-Perm))

  compute_stops-visits :
      Permᴰ
        (stop_passengers
          (select_where (is_type StopType.pickup) (compute_stops distance anchor members)))
        (passengers members)
      × Permᴰ
          (stop_passengers
            (select_where (is_type StopType.dropoff) (compute_stops distance anchor members)))
          (passengers members)
  unfolding compute_stops
  compute_stops-visits = (
    rw (picked 0 (length pickups) pickups (dropoffs_after distance pickups))
        (map-Perm _ _ pickups-Perm),
    rw (dropped 0 (length pickups) pickups (dropoffs_after distance pickups))
        (map-Perm _ _ dropoffs-Perm),
  )

  -- the stops of an itinerary are numbered from 0 in their order, two for each member, and the
  -- passengers of its pickups are a permutation of the members, as are those of its dropoffs,
  -- whatever the distances.
  pub compute_stops_complete :
      (indexes (compute_stops distance anchor members)
        ≡ count_from 0 (length members + length members))
      × Permᴰ
          (stop_passengers
            (select_where (is_type StopType.pickup) (compute_stops distance anchor members)))
          (passengers members)
      × Permᴰ
          (stop_passengers
            (select_where (is_type StopType.dropoff) (compute_stops distance anchor members)))
          (passengers members)
  compute_stops_complete = (compute_stops-indexes, compute_stops-visits.0, compute_stops-visits.1)

mem-append : (xs ys : List OfferStop) (s : OfferStop) → Memᴰ s (xs ++ ys) → Memᴰ s xs ⊎ Memᴰ s ys
mem-append [] ys s m = inr m
mem-append (x ∷ xs) ys s (Memᴰ.head e) = inl (Memᴰ.head e)
mem-append (x ∷ xs) ys s (Memᴰ.tail m) = elim (mem-append xs ys s m) [
  | inl k ↦ inl (Memᴰ.tail k)
  | inr k ↦ inr k
]

pickup_range :
    (i : ℕ) (ms : List PoolMember) (s : OfferStop)
    → Memᴰ s (pickup_stops i ms)
    → (is_type StopType.dropoff s ≡ false) × (s.sequence_index < i + length ms)
unfolding pickup_stops
pickup_range i [] s m = elim m [ ]
pickup_range i (x ∷ xs) s (Memᴰ.head e) = rw e (refl, ground arith)
pickup_range i (x ∷ xs) s (Memᴰ.tail m) =
    let ih = pickup_range (suc i) xs s m in (ih.0, ground arith)

dropoff_range :
    (i : ℕ) (ms : List PoolMember) (s : OfferStop)
    → Memᴰ s (dropoff_stops i ms)
    → (is_type StopType.pickup s ≡ false) × (i ≤ s.sequence_index)
unfolding dropoff_stops
dropoff_range i [] s m = elim m [ ]
dropoff_range i (x ∷ xs) s (Memᴰ.head e) = rw e (refl, ground arith)
dropoff_range i (x ∷ xs) s (Memᴰ.tail m) =
    let ih = dropoff_range (suc i) xs s m in (ih.0, ground arith)

-- in an itinerary every pickup has a smaller index than every dropoff.
pub compute_stops-order :
    (distance : Point → Point → ℕ) (anchor : Point) (members : List PoolMember) (s t : OfferStop)
    → Memᴰ s (compute_stops distance anchor members)
    → Memᴰ t (compute_stops distance anchor members)
    → is_type StopType.pickup s ≡ true
    → is_type StopType.dropoff t ≡ true
    → s.sequence_index < t.sequence_index
unfolding compute_stops
compute_stops-order distance anchor members s t ms mt p d =
    let ps = pickups distance anchor members in
    let ds = dropoffs_after distance ps in
    let heads = pickup_stops 0 ps in
    let tails = dropoff_stops (length ps) ds in
    elim (mem-append heads tails s ms) [
      | inr late ↦ ground (arith, (dropoff_range (length ps) ds s late).0, p)
      | inl early ↦ elim (mem-append heads tails t mt) [
        | inl soon ↦ ground (arith, (pickup_range 0 ps t soon).0, d)
        | inr late ↦
            ground (arith, (pickup_range 0 ps s early).1, (dropoff_range (length ps) ds t late).1)
      ]
    ]

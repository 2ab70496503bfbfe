-- ===== src/Stops/Counts.antt =====
-- How the confirmation of a stop shows in the count of the pool's stops that are not confirmed.
use rcab.Base.{
  ℕ, suc, ◌==◌, ◌&&◌, ◌≡◌, ◌+◌, ◌≤◌, refl, ap, ◌∙◌, Bool, true, Option, none, some, List, [], ◌∷◌,
  inl, inr, Bool-cases, arith, length, find_where, select_where, update_where, sort_by-Perm,
}
use mathlib.Core.List.{Permᴰ}
use rcab.Store.{RideStop, Db}
use rcab.Stops.{stops_of, is_open_stop, pending_stops, confirmable, confirmed_stop}

length-select_where-Perm :
    (p : RideStop → Bool) {xs ys : List RideStop}
    → Permᴰ xs ys
    → length (select_where p xs) ≡ length (select_where p ys)
unfolding select_where
length-select_where-Perm p Permᴰ.nil = refl
length-select_where-Perm p (Permᴰ.cons {b = y} e d) = rw e (elim (Bool-cases (p y)) [
  | inl hit ↦ rw hit (ap suc (length-select_where-Perm p d))
  | inr miss ↦ rw miss (length-select_where-Perm p d)
])
length-select_where-Perm p (Permᴰ.swap {a' = x} {b' = y} e f) =
    rw (e, f)
      (elim (Bool-cases (p x)) [
        | inl hit ↦ elim (Bool-cases (p y)) [
          | inl both ↦ rw (hit, both) refl
          | inr one ↦ rw (hit, one) refl
        ]
        | inr miss ↦ elim (Bool-cases (p y)) [
          | inl one ↦ rw (miss, one) refl
          | inr neither ↦ rw (miss, neither) refl
        ]
      ])
length-select_where-Perm p (Permᴰ.trans d e) =
    length-select_where-Perm p d ∙ length-select_where-Perm p e

-- PRIMARY KEY (ride_id, sequence_index).
abbrev pub is_stop_at : ℕ → ℕ → RideStop → Bool
is_stop_at id index s = s.ride_id == id && s.sequence_index == index

abbrev pub IsKeyed : List RideStop → Type 0
IsKeyed stops = (id index : ℕ) → length (select_where (is_stop_at id index) stops) ≤ 1

abbrev open_of : ℕ → List RideStop → ℕ
open_of id stops = length (select_where is_open_stop (select_where (λ s. s.ride_id == id) stops))

module _ (id index now : ℕ) where
  confirmable-few :
      (stops : List RideStop)
      → length (select_where (confirmable id index) stops)
        ≤ length (select_where (is_stop_at id index) stops)
  unfolding select_where
  confirmable-few [] = omega arith
  confirmable-few (s ∷ ss) =
      let rest = confirmable-few ss in
      elim (Bool-cases (is_stop_at id index s)) [
        | inr miss ↦ rw miss rest
        | inl at ↦ elim (Bool-cases (is_open_stop s)) [
          | inl ready ↦ rw (at, ready) (omega arith)
          | inr done ↦ rw (at, done) (omega arith)
        ]
      ]

  confirmable-found :
      (stops : List RideStop) (s : RideStop)
      → find_where (confirmable id index) stops ≡ some s
      → 1 ≤ length (select_where (confirmable id index) stops)
  unfolding find_where select_where
  confirmable-found [] s e = absurd (nothing e)
    where
      nothing : ◌≡◌ {A = Option RideStop} none (some s) → ⊥
      nothing h = cc
  confirmable-found (x ∷ xs) s e = elim (Bool-cases (confirmable id index x)) [
    | inl hit ↦ rw hit (omega arith)
    | inr miss ↦ rw miss (confirmable-found xs s (rw miss at e))
  ]

  -- Each stop that is confirmed is one fewer.
  open_of-update :
      (stops : List RideStop)
      → open_of id (update_where (confirmable id index) (confirmed_stop now) stops)
          + length (select_where (confirmable id index) stops)
        ≡ open_of id stops
  unfolding select_where update_where
  open_of-update [] = refl
  open_of-update (s ∷ ss) =
      let rest = open_of-update ss in
      elim (Bool-cases (confirmable id index s)) [
        | inl hit ↦
            let own : (s.ride_id == id) ≡ true = ground (arith, hit) in
            let ready : is_open_stop s ≡ true = ground (arith, hit) in
            rw (hit, own) (rw ready (omega arith))
        | inr miss ↦ rw miss (elim (Bool-cases (s.ride_id == id)) [
          | inr other ↦ rw other rest
          | inl own ↦ rw own (elim (Bool-cases (is_open_stop s)) [
            | inr done ↦ rw done rest
            | inl ready ↦ rw ready (omega arith)
          ])
        ])
      ]

pub pending-stops_of : (db : Db) (id : ℕ) → pending_stops (stops_of db id) ≡ open_of id db.stops
unfolding pending_stops stops_of
pending-stops_of db id = length-select_where-Perm is_open_stop (sort_by-Perm _ _)

-- The confirmation of one stop, where rows have their key.
pub pending-confirmed :
    (db db' : Db) (id index now : ℕ) (s : RideStop)
    → IsKeyed db.stops
    → find_where (confirmable id index) db.stops ≡ some s
    → db'.stops ≡ update_where (confirmable id index) (confirmed_stop now) db.stops
    → pending_stops (stops_of db id) ≡ pending_stops (stops_of db' id) + 1
pending-confirmed db db' id index now s keyed found stamped =
    let after : open_of id db'.stops
        ≡ open_of id (update_where (confirmable id index) (confirmed_stop now) db.stops) =
      ap (open_of id) stamped in
    let sum = open_of-update id index now db.stops in
    let few = confirmable-few id index now db.stops in
    let one = keyed id index in
    let some_one = confirmable-found id index now db.stops s found in
    let was = pending-stops_of db id in let is = pending-stops_of db' id in omega arith

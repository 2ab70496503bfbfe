-- ===== src/Realtime/Gateway/Rooms.antt =====
-- A socket enters the rooms of a pool only for a member of it, and what it is sent there follows the
-- snapshot.
use rcab.Base.{
  ℕ, ◌≡◌, refl, sym, ap, subst, ◌∙◌, true, Option, none, some, ◌⊎◌, inl, inr, Memᴰ, mem-cons_cases,
  mem-delete_where, Bool-cases, Option-cases, arith,
}
use rcab.Store.{Db}
use rcab.Realtime.Snapshots.{is_pool_member, PoolSnapshot, pool_snapshot}
use rcab.Realtime.Gateway.{
  Room, pool_room, ride_room, Socket, pool_snapshot_sent, followed, denied, Refusal, join,
  follow_pool, handle_pool_subscribe,
}

-- The room is one of the pool's, and the user of the socket was a member of the pool when the request
-- was checked.
pub record IsAdmitted (s : Socket) (pool : Option ℕ) (check : Option Db) (room : Room)
    : Type 0 where
  pub user : ℕ
  pub id : ℕ
  pub tables : Db
  pub by : s.user_id ≡ some user
  pub asked : pool ≡ some id
  pub checked : check ≡ some tables
  pub member : is_pool_member tables id user ≡ true
  pub room_of : (room ≡ pool_room id) ⊎ (room ≡ ride_room id)

joined-rooms :
    (s : Socket) (id : ℕ) (room : Room)
    → Memᴰ room (join (ride_room id) (join (pool_room id) s)).rooms
    → Memᴰ room s.rooms ⊎ ((room ≡ pool_room id) ⊎ (room ≡ ride_room id))
joined-rooms s id room m = elim (mem-cons_cases m) [
  | inl new ↦ inr (inr new)
  | inr rest ↦ elim (mem-cons_cases rest) [ inl new ↦ inr (inl new) | inr old ↦ inl old ]
]

-- What follows the check enters no room.
follow_pool-rooms :
    (s : Socket) (user pool : ℕ) (read : Option Db) (room : Room)
    → Memᴰ room (follow_pool s user pool read).0.rooms
    → Memᴰ room s.rooms
unfolding follow_pool
follow_pool-rooms s user pool none room m = m
follow_pool-rooms s user pool (some db) room m = elim (Option-cases (pool_snapshot db pool user)) [
  | inl gone ↦
      let left = rw (gone, follow_pool) at m in
      (mem-delete_where _ s.rooms (mem-delete_where _ _ left).0).0
  | inr (shot, e) ↦ (rw (e, follow_pool) at m)
]

-- however a subscription to a pool ends, a room that the socket is in afterwards is one that it
-- was in before, or one of the pool's, and then its user was a member of the pool.
pub handle_pool_subscribe-IsAdmitted :
    (s : Socket) (pool : Option ℕ) (check read : Option Db) (room : Room)
    → Memᴰ room (handle_pool_subscribe s pool check read).0.rooms
    → Memᴰ room s.rooms ⊎ IsAdmitted s pool check room
unfolding handle_pool_subscribe
handle_pool_subscribe-IsAdmitted s pool check read room m = elim (Option-cases s.user_id) [
  | inl nobody ↦ inl (rw (nobody, handle_pool_subscribe) at m)
  | inr (user, by) ↦
      let m1 = rw (by, handle_pool_subscribe) at m in
      elim (Option-cases pool) [
        | inl bad ↦ inl (rw (bad, handle_pool_subscribe) at m1)
        | inr (id, asked) ↦
            let m2 = rw (asked, handle_pool_subscribe) at m1 in
            elim (Option-cases check) [
              | inl broken ↦ inl (rw (broken, handle_pool_subscribe) at m2)
              | inr (db, checked) ↦
                  let m3 = rw (checked, handle_pool_subscribe) at m2 in
                  elim (Bool-cases (is_pool_member db id user)) [
                    | inr stranger ↦ inl (rw stranger at m3)
                    | inl member ↦
                        let m4 = rw member at m3 in
                        elim (joined-rooms s id room (follow_pool-rooms _ user id read room m4)) [
                          | inl old ↦ inl old
                          | inr new ↦ inr (record {
                            user = user;
                            id = id;
                            tables = db;
                            by = by;
                            asked = asked;
                            checked = checked;
                            member = member;
                            room_of = new;
                          })
                        ]
                  ]
            ]
      ]
]

-- The socket is told the snapshot in the rooms of the pool.
pub record IsFollowing (s : Socket) (pool : Option ℕ) (read : Option Db) (shot : PoolSnapshot)
    (s' : Socket) : Type 0 where
  pub user : ℕ
  pub id : ℕ
  pub tables : Db
  pub by : s.user_id ≡ some user
  pub asked : pool ≡ some id
  pub found : read ≡ some tables
  pub current : pool_snapshot tables id user ≡ some shot
  pub in_pool : Memᴰ (pool_room id) s'.rooms
  pub in_ride : Memᴰ (ride_room id) s'.rooms
  pub told : Memᴰ (pool_snapshot_sent shot) s'.sent

module _ (s : Socket) (user id : ℕ) (shot : PoolSnapshot) (by : s.user_id ≡ some user) where
  abbrev joined : Socket
  joined = join (ride_room id) (join (pool_room id) s)

  follow_pool-IsFollowing :
      (read : Option Db)
      → (follow_pool joined user id read).1 ≡ followed shot
      → IsFollowing s (some id) read shot (follow_pool joined user id read).0
  unfolding follow_pool
  follow_pool-IsFollowing none e = cc
  follow_pool-IsFollowing (some db) e = elim (Option-cases (pool_snapshot db id user)) [
    | inl gone ↦ let e' = rw (gone, follow_pool) at e in absurd (refused e')
    | inr (other, found) ↦
        let same : other ≡ shot = granted (rw (found, follow_pool) at e) in
        rw (found, follow_pool)
          (record {
            user = user;
            id = id;
            tables = db;
            by = by;
            asked = refl;
            found = refl;
            current = found ∙ ap some same;
            in_pool = Memᴰ.tail (Memᴰ.head refl);
            in_ride = Memᴰ.head refl;
            told = Memᴰ.head (ap pool_snapshot_sent (sym same));
          })
  ]
    where
      refused : {why : Refusal} → denied why ≡ followed shot → ⊥
      refused e = cc

      granted : {other : PoolSnapshot} → followed other ≡ followed shot → other ≡ shot
      granted e = cc

-- a subscription that is answered with a snapshot leaves the socket in both rooms of the pool, with
-- that snapshot sent, which is the pool as the rows show it to the user after the rooms were joined.
pub handle_pool_subscribe-IsFollowing :
    (s : Socket) (pool : Option ℕ) (check read : Option Db) (shot : PoolSnapshot)
    → (handle_pool_subscribe s pool check read).1 ≡ followed shot
    → IsFollowing s pool read shot (handle_pool_subscribe s pool check read).0
unfolding handle_pool_subscribe
handle_pool_subscribe-IsFollowing s pool check read shot e = elim (Option-cases s.user_id) [
  | inl nobody ↦ absurd (refused (rw (nobody, handle_pool_subscribe) at e))
  | inr (user, by) ↦
      let e1 = rw (by, handle_pool_subscribe) at e in
      elim (Option-cases pool) [
        | inl bad ↦ absurd (refused (rw (bad, handle_pool_subscribe) at e1))
        | inr (id, asked) ↦
            let e2 = rw (asked, handle_pool_subscribe) at e1 in
            elim (Option-cases check) [
              | inl broken ↦ absurd (refused (rw (broken, handle_pool_subscribe) at e2))
              | inr (db, checked) ↦
                  let e3 = rw (checked, handle_pool_subscribe) at e2 in
                  elim (Bool-cases (is_pool_member db id user)) [
                    | inr stranger ↦ absurd (refused (rw stranger at e3))
                    | inl member ↦
                        let same = entered user id db by asked checked member in
                        let reached =
                          follow_pool-IsFollowing s user id shot by read
                            (ap (λ x. x.1) (sym same) ∙ e) in
                        subst (λ s'. IsFollowing s pool read shot s') (ap (λ x. x.0) (sym same))
                          (subst
                            (λ p.
                              IsFollowing s p read shot
                                (follow_pool (joined s user id shot by) user id read).0)
                            (sym asked) reached)
                  ]
            ]
      ]
]
  where
    refused : {why : Refusal} → denied why ≡ followed shot → ⊥
    refused e = cc

    entered :
        (user id : ℕ) (db : Db) (by : s.user_id ≡ some user)
        → pool ≡ some id
        → check ≡ some db
        → is_pool_member db id user ≡ true
        → handle_pool_subscribe s pool check read
          ≡ follow_pool (joined s user id shot by) user id read
    entered user id db by asked checked member = ground (arith, by, asked, checked, member)

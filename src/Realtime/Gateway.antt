-- ===== src/Realtime/Gateway.antt =====
-- apps/api/src/modules/realtime/realtime.gateway.ts: the messages of a client's socket. A read of the
-- tables that throws is none. The rooms of a socket are numbered by the trip that they are for.
pub mod Rooms
pub mod Locations
use rcab.Base.{
  ℕ, suc, ◌+◌, ◌-◌, ◌==◌, ◌&&◌, ◌||◌, not, leb, ltb, Bool, true, false, Option, none, some, List,
  [], ◌∷◌, is_id, is_some, exists_where, find_where, delete_where, if◌then◌else◌,
}
use rcab.Store.{Point, StopType, Db}
use rcab.Stops.{StopConfirm}
use rcab.Realtime.Snapshots.{
  is_pool_member, is_ride_party, PoolSnapshot, RideSnapshot, pool_snapshot, ride_snapshot,
  AssignmentView, driver_assignment,
}

pub data Room : Type 0 where
  user_room driver_room pool_room ride_room : ℕ → Room

abbrev pub same_room : Room → Room → Bool
same_room (user_room a) (user_room b) = a == b
same_room (driver_room a) (driver_room b) = a == b
same_room (pool_room a) (pool_room b) = a == b
same_room (ride_room a) (ride_room b) = a == b
same_room _ _ = false

pub data Sent : Type 0 where
  pool_snapshot_sent : PoolSnapshot → Sent
  ride_snapshot_sent : RideSnapshot → Sent
  assignment_sent : Option AssignmentView → Sent

pub record Socket : Type 0 where
  pub user_id : Option ℕ
  pub is_driver : Bool
  pub rooms : List Room
  pub sent : List Sent
  pub connected : Bool

pub data Refusal : Type 0 where
  invalid_payload forbidden not_found unavailable : Refusal

pub data Ack (A : Type 0) : Type 0 where
  followed : A → Ack A
  denied : Refusal → Ack A

abbrev pub join : Room → Socket → Socket
join room s = record s { rooms = room ∷ s.rooms }

abbrev pub leave : Room → Socket → Socket
leave room s = record s { rooms = delete_where (same_room room) s.rooms }

abbrev pub emit : Sent → Socket → Socket
emit m s = record s { sent = m ∷ s.sent }

-- `handleConnection`: the token's subject and role, or none where it does not verify; `read` is what
-- `_emitAssignment` finds.
unfoldable pub handle_connection : Socket → Option (ℕ × Bool) → Option Db → Socket
handle_connection s none read = record s { connected = false }
handle_connection s (some (id, false)) read =
    join (user_room id) (record s { user_id = some id; is_driver = false })
handle_connection s (some (id, true)) none =
    join (driver_room id) (join (user_room id) (record s { user_id = some id; is_driver = true }))
handle_connection s (some (id, true)) (some db) =
    emit (assignment_sent (driver_assignment db id)) (
      join (driver_room id)
        (join (user_room id) (record s { user_id = some id; is_driver = true })))

-- `handlePoolSubscribe`, with the tables at its check and at its snapshot.
unfoldable pub follow_pool : Socket → ℕ → ℕ → Option Db → Socket × Ack PoolSnapshot
follow_pool s user pool none = (s, denied unavailable)
follow_pool s user pool (some db) = elim (pool_snapshot db pool user) [
  | none ↦ (leave (ride_room pool) (leave (pool_room pool) s), denied not_found)
  | some shot ↦ (emit (pool_snapshot_sent shot) s, followed shot)
]

unfoldable pub handle_pool_subscribe :
    Socket → Option ℕ → Option Db → Option Db → Socket × Ack PoolSnapshot
unfolding follow_pool
handle_pool_subscribe s data_ check read = elim s.user_id [
  | none ↦ (s, denied forbidden)
  | some user ↦ elim data_ [
    | none ↦ (s, denied invalid_payload)
    | some pool ↦ elim check [
      | none ↦ (s, denied unavailable)
      | some db ↦
          if is_pool_member db pool user
          then follow_pool (join (ride_room pool) (join (pool_room pool) s)) user pool read
          else (s, denied not_found)
    ]
  ]
]

-- `handleRideSubscribe`.
unfoldable pub follow_ride : Socket → ℕ → ℕ → Option Db → Socket × Ack RideSnapshot
follow_ride s user ride none = (s, denied unavailable)
follow_ride s user ride (some db) = elim (ride_snapshot db ride user) [
  | none ↦ (leave (ride_room ride) s, denied not_found)
  | some shot ↦ (emit (ride_snapshot_sent shot) s, followed shot)
]

unfoldable pub handle_ride_subscribe :
    Socket → Option ℕ → Option Db → Option Db → Socket × Ack RideSnapshot
unfolding follow_ride
handle_ride_subscribe s data_ check read = elim s.user_id [
  | none ↦ (s, denied forbidden)
  | some user ↦ elim data_ [
    | none ↦ (s, denied invalid_payload)
    | some ride ↦ elim check [
      | none ↦ (s, denied unavailable)
      | some db ↦
          if is_ride_party db ride user
          then follow_ride (join (ride_room ride) s) user ride read
          else (s, denied not_found)
    ]
  ]
]

-- `handleDriverSync`.
unfoldable pub handle_driver_sync : Socket → Option Db → Socket × Ack (Option AssignmentView)
handle_driver_sync s read = elim s.user_id [
  | none ↦ (s, denied forbidden)
  | some driver ↦
      if s.is_driver
      then (elim read [
        | none ↦ (s, denied unavailable)
        | some db ↦ let a = driver_assignment db driver in (emit (assignment_sent a) s, followed a)
      ])
      else (s, denied forbidden)
]

-- The request that `_emitStopConfirm` passes on; `data_` is the ride and the index, if they are well
-- formed.
unfoldable pub stop_confirm_request : Socket → Option (ℕ × ℕ) → StopType → Option StopConfirm
stop_confirm_request s data_ type = elim s.user_id [
  | none ↦ none
  | some driver ↦
      if s.is_driver
      then (elim data_ [
        | none ↦ none
        | some (ride, index) ↦
            some
              (record { ride_id = ride; driver_id = driver; sequence_index = index; type = type })
      ])
      else none
]

-- The gates of `handleDriverLocation`, by the instant of the last packet that each let through.
pub record LocationGates : Type 0 where
  pub geo : ℕ → ℕ
  pub fan : ℕ → ℕ
  pub en_route_fired : List ℕ

abbrev pub geo_throttle_ms : ℕ
geo_throttle_ms = 3000

abbrev pub fan_throttle_ms : ℕ
fan_throttle_ms = 1000

abbrev pub set_at : (ℕ → ℕ) → ℕ → ℕ → ℕ → ℕ
set_at f key now k = if k == key then now else f k

-- What a packet does: kick the ride's first step, show the position to the ride, keep it in Redis.
pub record LocationEffects : Type 0 where
  pub first_location : Bool
  pub fan_out : Bool
  pub keep : Bool

-- `now - last >= throttle`; the difference may be negative, so the throttle is added on the other side.
abbrev pub has_passed : ℕ → ℕ → ℕ → Bool
has_passed last throttle now = leb (last + throttle) now

unfoldable pub fan_out : LocationGates → Option ℕ → ℕ → LocationGates × Bool × Bool
fan_out g none now = (g, false, false)
fan_out g (some ride) now =
    let fired = exists_where (λ k. k == ride) g.en_route_fired in
    let g1 = record g {
      en_route_fired = if fired then g.en_route_fired else ride ∷ g.en_route_fired;
    } in
    if has_passed (g1.fan ride) fan_throttle_ms now
    then (record g1 { fan = set_at g1.fan ride now }, not fired, true)
    else (g1, not fired, false)

-- `handleDriverLocation` of a driver whose hash in Redis names the ride.
unfoldable pub handle_driver_location :
    LocationGates → ℕ → Option ℕ → ℕ → LocationGates × LocationEffects
unfolding fan_out
handle_driver_location g driver ride now =
    let (g1, first, shown) = fan_out g ride now in
    if has_passed (g1.geo driver) geo_throttle_ms now
    then (
      record g1 { geo = set_at g1.geo driver now },
      record { first_location = first; fan_out = shown; keep = true },
    )
    else (g1, record { first_location = first; fan_out = shown; keep = false })

-- ===== src/Realtime/Gate.antt =====
-- apps/web/src/lib/booking/ws.ts: the gate that orders what a client has been sent about the pool or the
-- ride that it follows. A version is none where it is missing or no finite number.
pub mod Delivery
pub mod Retries
use rcab.Base.{
  ℕ, leb, ltb, Bool, true, false, not, ◌||◌, Option, none, some, List, [], ◌∷◌, is_id,
  if◌then◌else◌,
}
use rcab.Store.{RideStatus}
use rcab.Realtime.{ride_status_version}

-- `applied` is none before any version, where the source has minus infinity.
pub record VersionGate : Type 0 where
  pub followed : Option ℕ
  pub applied : Option ℕ

abbrev pub create_version_gate : VersionGate
create_version_gate = record { followed = none; applied = none }

unfoldable pub follow : VersionGate → ℕ → VersionGate
follow g id = if is_id g.followed id then g else record { followed = some id; applied = none }

-- `version < applied` and `version <= applied`.
abbrev pub is_under : ℕ → Option ℕ → Bool
is_under v none = false
is_under v (some a) = ltb v a

abbrev pub is_at_most : ℕ → Option ℕ → Bool
is_at_most v none = false
is_at_most v (some a) = leb v a

unfoldable pub snapshot : VersionGate → ℕ → Option ℕ → VersionGate × Bool
snapshot g id none = (g, false)
snapshot g id (some v) =
    if not (is_id g.followed id) || is_under v g.applied
    then (g, false)
    else (record g { applied = some v }, true)

unfoldable pub event : VersionGate → ℕ → Option ℕ → VersionGate × Bool
event g id none = (g, is_id g.followed id)
event g id (some v) =
    if not (is_id g.followed id)
    then (g, false)
    else if is_at_most v g.applied
    then (g, false)
    else (record g { applied = some v }, true)

-- What the server sends: a snapshot or an event of an aggregate.
pub record Message {ℓ} (A : Type ℓ) : Type ℓ where
  pub is_snapshot : Bool
  pub id : ℕ
  pub version : Option ℕ
  pub payload : A

-- `ride_state_changed`: a server that sends no version is given the one of the status.
abbrev pub event_version : Option ℕ → RideStatus → Option ℕ
event_version (some v) s = some v
event_version none s = some (ride_status_version s)

-- A gate and the payload that its handlers were given last.
pub record Client {ℓ} (A : Type ℓ) : Type ℓ where
  pub gate : VersionGate
  pub shown : Option A

module _ {ℓ} {A : Type ℓ} where
  abbrev pub through : Client A → A → VersionGate × Bool → Client A
  through c payload (g, passed) = record {
    gate = g;
    shown = if passed then some payload else c.shown;
  }

  -- The listeners of `socket.on`.
  unfoldable pub receive : Client A → Message A → Client A
  unfolding snapshot event
  receive c m =
      if m.is_snapshot
      then through c m.payload (snapshot c.gate m.id m.version)
      else through c m.payload (event c.gate m.id m.version)

  -- All that came, the latest first.
  unfoldable pub receive_all : Client A → List (Message A) → Client A
  unfolding receive
  receive_all c [] = c
  receive_all c (m ∷ ms) = receive (receive_all c ms) m

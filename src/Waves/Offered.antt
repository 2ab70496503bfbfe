-- ===== src/Waves/Offered.antt =====
-- What a wave offers, and to whom.
use rcab.Base.{ℕ, ◌≤◌, ◌≡◌, ◌+◌, List, Memᴰ, length}
use rcab.Store.{TripRef, Offer, Db}
use rcab.Offers.{new_offer}
use rcab.Waves.{WaveNumber, wave_code, offer_ttl_ms}
use rcab.Waves.Candidates.{IsChosen}

module _ (ids clock : ℕ → ℕ) (others : ℕ → Db → Db) (t : TripRef) (g : ℕ) (w : WaveNumber) where
  -- The offer is the row that a transaction of the loop inserted for the driver.
  abbrev Made : ℕ → Offer → Type 0
  Made d o = (n : ℕ) × (new_offer (clock n) (ids d) t d g (wave_code w) offer_ttl_ms ≡ o)

-- The offers of a wave that was selected on `db`: not too many, each with its own instant and the
-- deadline that follows it, each to a driver whom the tables let drive the trip.
pub record IsWave (db : Db) (t : TripRef) (g seats k : ℕ) (clock : ℕ → ℕ) (offers : List Offer)
    : Type 0 where
  pub few : length offers ≤ k
  pub row :
      (o : Offer)
      → Memᴰ o offers
      → (o.trip ≡ t) × (o.generation ≡ g) × (o.expires_at ≡ o.offered_at + offer_ttl_ms)
  pub at : (o : Offer) → Memᴰ o offers → (n : ℕ) × (o.offered_at ≡ clock n)
  pub chosen : (o : Offer) → Memᴰ o offers → IsChosen db t g seats o.driver_id

-- ===== src/Realtime/Versions/Histories.antt =====
-- The versions of rides along the histories of the api.
use rcab.Base.{ℕ, ◌≤◌, ◌≡◌, sym, subst, some}
use rcab.Store.{Ride, Db}
use rcab.Trips.View.{find_ride, IsSound}
use rcab.Offers.{decline, expire_lapsed}
use rcab.Pools.Kept.{IsKept}
use rcab.Pools.Runs.{PoolStep-kept}
use rcab.Stops.Untouched.{confirm_stop-rides}
use rcab.System.{
  Step, accepted, offered, declined, lapsed, driven, cancelled, gave_up, claimed, created, woken,
  rearmed, hard_failed, History, start, then, then_pool, then_stop, History-IsSound,
}
use rcab.Realtime.{ride_status_version}
use rcab.Realtime.Versions.{IsForward, IsForward-refl, IsForward-trans}
use rcab.Realtime.Versions.Steps.{
  apply_event-IsForward, cancel-IsForward, mark_no_driver-IsForward, wake_scheduled-IsForward,
  rearm_scheduled-IsForward, hard_fail-IsForward, create_offer-rides, accept_offer-IsForward,
}
use rcab.Realtime.Versions.Starts.{create-IsForward, claim_solo-IsForward}

Step-IsForward : {db db' : Db} → Step db db' → IsSound db → IsForward db.rides db'.rides
unfolding decline expire_lapsed
Step-IsForward {db} (accepted now id driver) v = accept_offer-IsForward db now id driver v
Step-IsForward {db} (offered now id t driver g wave ttl new) v =
    subst (IsForward db.rides) (sym (create_offer-rides db now id t driver g wave ttl))
      (IsForward-refl db.rides)
Step-IsForward {db} (declined now id driver) v = IsForward-refl db.rides
Step-IsForward {db} (lapsed now) v = IsForward-refl db.rides
Step-IsForward {db} (driven now id driver e) v = apply_event-IsForward db now id driver e
Step-IsForward {db} (cancelled now c) v = cancel-IsForward db now c
Step-IsForward {db} (gave_up now id g) v = mark_no_driver-IsForward db now id g
Step-IsForward {db} (claimed now id driver) v = claim_solo-IsForward db now id driver
Step-IsForward {db} (created now id row n new timed) v = create-IsForward db now id row n new
Step-IsForward {db} (woken id g) v = wake_scheduled-IsForward db 0 id g
Step-IsForward {db} (rearmed now row id g) v = rearm_scheduled-IsForward db now row id g
Step-IsForward {db} (hard_failed now row t g) v = hard_fail-IsForward db now row t g

-- The transactions on pools leave the rides alone.
IsForward-IsKept : (db : Db) → IsKept (λ d. IsForward db.rides d.rides)
IsForward-IsKept db = record {
  outbox = λ d rows f. f;
  stops = λ d rows f. f;
  seats = λ d now n p f found o room free. f;
  opens = λ d now o f new. f;
  closes = λ d now id reason f fits. f;
  aborts = λ d now id f. f;
}

History-IsForward : {db db' : Db} → History db db' → IsSound db → IsForward db.rides db'.rides
History-IsForward {db} start v = IsForward-refl db.rides
History-IsForward {db} (then {mid} {last} h s) v =
    IsForward-trans db.rides mid.rides last.rides (History-IsForward h v)
      (Step-IsForward s (History-IsSound h v))
History-IsForward {db} (then_pool h s) v =
    PoolStep-kept (λ d. IsForward db.rides d.rides) (IsForward-IsKept db) s (History-IsForward h v)
History-IsForward {db} (then_stop {mid} now c h) v =
    subst (IsForward db.rides) (sym (confirm_stop-rides mid now c)) (History-IsForward h v)

-- whatever transactions run on sound tables, a ride that was there is still there, the version
-- that clients order its events by has not gone down, and where it is the same the status is the
-- same.
pub History-versions :
    {db db' : Db} (id : ℕ) (r : Ride)
    → History db db'
    → IsSound db
    → find_ride id db.rides ≡ some r
    → (r' : Ride) × (find_ride id db'.rides ≡ some r')
      × (ride_status_version r.status ≤ ride_status_version r'.status)
      × (ride_status_version r.status ≡ ride_status_version r'.status → r'.status ≡ r.status)
History-versions id r h v found =
    let (r', e, ahead) = History-IsForward h v id r found in (r', e, ahead.forward, ahead.still)

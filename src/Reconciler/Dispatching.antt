-- ===== src/Reconciler/Dispatching.antt =====
-- A pass over a dispatch in flight: it grows the work, and leaves work for the trip.
use rcab.Base.{
  ℕ, suc, ◌+◌, ◌≡◌, refl, ◌∙◌, ◌&&◌, not, leb, ltb, Bool, true, false, Option, none, some, List, [],
  ◌∷◌, Memᴰ, ◌⊎◌, inl, inr, Bool-cases, Option-cases, arith, find_by-key, if◌then◌else◌, is_some,
  select_where,
}
use rcab.Store.{TripRef, trip_id, Ride, Topic, OutboxRow, Db}
use rcab.Trips.View.{find_ride, ride_key}
use rcab.Offers.{revoke_live_for_trip}
use rcab.Outbox.{is_intent}
use rcab.Outbox.Intents.{PendingIntent}
use rcab.Timers.{rearmable, rearm_row, rearm_scheduled}
use rcab.Reconciler.{
  JobId, dispatch_start, hard_fail_of, wave2_of, legacy_hard_fail, legacy_wave2, has_live_job,
  remove_finished, Pass, Windows, topic_of, restore_hard_fail, restore_wave2, restart_dispatch,
  retry_scheduled, reconcile_offers, reconcile_dispatching, first_offered, is_offer_of,
}
use rcab.Reconciler.Growth.{
  Grows, Grows-refl, Grows-trans, remove_finished-live, add_job-live, restored-live, enqueue-keeps,
  enqueue-new, rearm_or_enqueue-pending, rearm_or_enqueue-keeps, rearm_or_enqueue-pools,
  enqueue-pools,
}
use rcab.Reconciler.Restores.{HasJob, HasWork, HasWork-Grows, live_job-HasJob}

module _ (new_id : Topic → ℕ → ℕ → ℕ) (now : ℕ) where
  hard_fail-Grows :
      (s : Pass) (trip : TripRef) (g due_at : ℕ) (held : Bool)
      → Grows s (restore_hard_fail new_id now s trip g due_at held)
  unfolding restore_hard_fail
  hard_fail-Grows s trip g due_at true = Grows-refl s
  hard_fail-Grows s trip g due_at false = record {
    live = λ id l.
        add_job-live (remove_finished s.queues (hard_fail_of (trip_id trip) g))
          (hard_fail_of (trip_id trip) g) id _
          (remove_finished-live s.queues (hard_fail_of (trip_id trip) g) id l);
    pending = λ t a g p. p;
    pools = refl;
  }

  wave2-Grows :
      (s : Pass) (trip : TripRef) (g ends_at : ℕ)
      → Grows s (restore_wave2 new_id now s trip g ends_at)
  unfolding restore_wave2
  wave2-Grows s trip g ends_at =
      elim (Bool-cases (
        ltb now ends_at
        && not (
            has_live_job s.queues
              (wave2_of (trip_id trip) g ∷ legacy_wave2 (trip_id trip) ∷ [])))) [
                | inr calm ↦ rw calm (Grows-refl s)
                | inl lost ↦ rw lost (record {
                  live = λ id l.
                      add_job-live (remove_finished s.queues (wave2_of (trip_id trip) g))
                        (wave2_of (trip_id trip) g) id _
                        (remove_finished-live s.queues (wave2_of (trip_id trip) g) id l);
                  pending = λ t a g p. p;
                  pools = refl;
                })
              ]

  restart-Grows :
      (s : Pass) (trip : TripRef) (g : ℕ) → Grows s (restart_dispatch new_id now s trip g)
  unfolding restart_dispatch
  restart-Grows s trip g = record {
    live = λ id l.
        remove_finished-live (remove_finished s.queues (dispatch_start (trip_id trip) g))
          (hard_fail_of (trip_id trip) g) id
          (remove_finished-live s.queues (dispatch_start (trip_id trip) g) id l);
    pending = λ t a g' p.
        rearm_or_enqueue-keeps new_id now s.db (topic_of trip) (trip_id trip) g none t a g' p;
    pools = rearm_or_enqueue-pools new_id now s.db (topic_of trip) (trip_id trip) g none;
  }

  -- A new window for a ride keeps what is pending.
  rearm_scheduled-keeps :
      (db : Db) (row id : ℕ) (expected : Option ℕ) (t : Topic) (a g : ℕ)
      → PendingIntent db t a g
      → PendingIntent (rearm_scheduled db now row id expected).0 t a g
  unfolding rearm_scheduled rearm_row revoke_live_for_trip
  rearm_scheduled-keeps db row id expected t a g p = elim (Option-cases (find_ride id db.rides)) [
    | inl gone ↦ rw (gone, rearm_scheduled) p
    | inr (r, found) ↦
        rw (found, rearm_scheduled)
          (elim (Bool-cases (rearmable expected r)) [
            | inr calm ↦ rw calm p
            | inl due ↦ rw due (
                enqueue-keeps _ now row Topic.ride_dispatch_requested r.id
                  (suc r.dispatch_generation) none t a g p)
          ])
  ]

  rearm_scheduled-pools :
      (db : Db) (row id : ℕ) (expected : Option ℕ)
      → (rearm_scheduled db now row id expected).0.pools ≡ db.pools
  unfolding rearm_scheduled rearm_row revoke_live_for_trip
  rearm_scheduled-pools db row id expected = elim (Option-cases (find_ride id db.rides)) [
    | inl gone ↦ rw (gone, rearm_scheduled) refl
    | inr (r, found) ↦
        rw (found, rearm_scheduled)
          (elim (Bool-cases (rearmable expected r)) [
            | inr calm ↦ rw calm refl
            | inl due ↦ rw due (
                enqueue-pools _ now row Topic.ride_dispatch_requested r.id
                  (suc r.dispatch_generation) none)
          ])
  ]

  retry-Grows : (s : Pass) (id g : ℕ) → Grows s (retry_scheduled new_id now s id g)
  unfolding retry_scheduled
  retry-Grows s id g =
      elim (Bool-cases (
        is_some
          (rearm_scheduled s.db now (new_id Topic.ride_dispatch_requested id (suc g)) id
            (some g)).1)) [
              | inr calm ↦ rw calm (Grows-refl s)
              | inl done ↦ rw done (record {
                live = λ k l. l;
                pending = λ t a h p. rearm_scheduled-keeps s.db _ id (some g) t a h p;
                pools = rearm_scheduled-pools s.db _ id (some g);
              })
            ]

  pub dispatching-Grows :
      (w : Windows) (s : Pass) (trip : TripRef) (g : ℕ) (planned : Bool) (idle : ℕ)
      → Grows s (reconcile_dispatching new_id now w s trip g planned idle)
  unfolding reconcile_dispatching reconcile_offers
  dispatching-Grows w s trip g planned idle =
      elim (Bool-cases (has_live_job s.queues (dispatch_start (trip_id trip) g ∷ []))) [
        | inl live ↦ rw live (Grows-refl s)
        | inr lost ↦ rw lost (
            offers-Grows (first_offered (select_where (is_offer_of trip g) s.db.offers)) (
              has_live_job s.queues
                (hard_fail_of (trip_id trip) g ∷ legacy_hard_fail (trip_id trip) ∷ [])))
      ]
    where
      offers-Grows :
          (first : Option ℕ) (held : Bool)
          → Grows s (reconcile_offers new_id now w s trip g planned idle first held)
      offers-Grows none held =
          elim (Bool-cases (
            planned
            && not held
            && leb (idle + (if planned then w.scheduled_hard_fail_ms else w.hard_fail_ms)) now)) [
              | inl over ↦ rw over (retry-Grows s (trip_id trip) g)
              | inr still ↦ rw still (elim (Bool-cases held) [
                | inl h ↦ rw h (Grows-refl s)
                | inr h ↦ rw h (restart-Grows s trip g)
              ])
            ]
      offers-Grows (some t) held =
          elim (Bool-cases (
            planned
            && not held
            && leb (t + (if planned then w.scheduled_hard_fail_ms else w.hard_fail_ms)) now)) [
              | inl over ↦ rw over (retry-Grows s (trip_id trip) g)
              | inr still ↦
                  rw still
                    (Grows-trans s _ _ (hard_fail-Grows s trip g _ held) (wave2-Grows _ trip g _))
            ]

-- The jobs that carry a dispatch on.
abbrev pub dispatch_jobs : TripRef → ℕ → List JobId
dispatch_jobs trip g =
    dispatch_start (trip_id trip) g
    ∷ hard_fail_of (trip_id trip) g
    ∷ legacy_hard_fail (trip_id trip)
    ∷ []

-- A scheduled ride that waits for a driver at the generation, and has no intent of the next.
pub record IsRetriable (db : Db) (id g : ℕ) : Type 0 where
  pub ride : Ride
  pub found : find_ride id db.rides ≡ some ride
  pub waits : rearmable (some g) ride ≡ true
  pub fresh :
      (r : OutboxRow)
      → Memᴰ r db.outbox
      → is_intent Topic.ride_dispatch_requested id (suc g) r ≡ false

-- The trip goes on at its generation, or at the next.
abbrev pub GoesOn : Pass → TripRef → ℕ → Type 0
GoesOn s trip g =
    HasWork s (dispatch_jobs trip g) (topic_of trip) (trip_id trip) g
    ⊎ PendingIntent s.db Topic.ride_dispatch_requested (trip_id trip) (suc g)

module _ (new_id : Topic → ℕ → ℕ → ℕ) (now : ℕ) where
  retry-pending :
      (s : Pass) (id g : ℕ)
      → IsRetriable s.db id g
      → PendingIntent
          (retry_scheduled new_id now s id g).db
          Topic.ride_dispatch_requested
          id
          (suc g)
  unfolding retry_scheduled rearm_scheduled rearm_row revoke_live_for_trip
  retry-pending s id g v =
      let key : v.ride.id ≡ id = find_by-key ride_key id s.db.rides v.ride v.found in
      let at : v.ride.dispatch_generation ≡ g = ground (arith, v.waits) in
      rw (v.found, v.waits, rearm_scheduled)
        (rw (key, at)
          (enqueue-new new_id now _ Topic.ride_dispatch_requested id (suc g) none v.fresh))

  pub dispatching-GoesOn :
      (w : Windows) (s : Pass) (trip : TripRef) (g : ℕ) (planned : Bool) (idle : ℕ)
      → (planned ≡ true → IsRetriable s.db (trip_id trip) g)
      → GoesOn (reconcile_dispatching new_id now w s trip g planned idle) trip g
  unfolding reconcile_dispatching reconcile_offers restart_dispatch restore_hard_fail
  dispatching-GoesOn w s trip g planned idle retriable =
      elim (Bool-cases (has_live_job s.queues (dispatch_start (trip_id trip) g ∷ []))) [
        | inl live ↦ rw live (inl (inl (first_of (live_job-HasJob s _ live))))
        | inr lost ↦ rw lost (
            offers-GoesOn (first_offered (select_where (is_offer_of trip g) s.db.offers))
              (has_live_job s.queues
                (hard_fail_of (trip_id trip) g ∷ legacy_hard_fail (trip_id trip) ∷ []))
              refl)
      ]
    where
      first_of : HasJob s (dispatch_start (trip_id trip) g ∷ []) → HasJob s (dispatch_jobs trip g)
      first_of j = record { id = j.id; here = widen j.here; live = j.live }
        where
          widen :
              Memᴰ j.id (dispatch_start (trip_id trip) g ∷ []) → Memᴰ j.id (dispatch_jobs trip g)
          widen (Memᴰ.head e) = Memᴰ.head e
          widen (Memᴰ.tail m) = elim m [ ]

      hard_fail_in :
          HasJob s (hard_fail_of (trip_id trip) g ∷ legacy_hard_fail (trip_id trip) ∷ [])
          → HasJob s (dispatch_jobs trip g)
      hard_fail_in j = record { id = j.id; here = Memᴰ.tail j.here; live = j.live }

      is_over : Option ℕ → Bool → Bool
      is_over first held =
          planned
          && not held
          && leb
              (elim first [ none ↦ idle | some t ↦ t ]
                + (if planned then w.scheduled_hard_fail_ms else w.hard_fail_ms))
              now

      retried :
          (first : Option ℕ) (held : Bool)
          → is_over first held ≡ true
          → GoesOn (retry_scheduled new_id now s (trip_id trip) g) trip g
      retried first held over =
          inr (retry-pending s (trip_id trip) g (retriable (ground (arith, over))))

      restored :
          (held : Bool)
          → has_live_job s.queues
              (hard_fail_of (trip_id trip) g ∷ legacy_hard_fail (trip_id trip) ∷ [])
            ≡ held
          → (due_at : ℕ)
          → HasJob (restore_hard_fail new_id now s trip g due_at held) (dispatch_jobs trip g)
      restored true e due_at = hard_fail_in (live_job-HasJob s _ e)
      restored false e due_at = record {
        id = hard_fail_of (trip_id trip) g;
        here = Memᴰ.tail (Memᴰ.head refl);
        live = restored-live s.queues (hard_fail_of (trip_id trip) g) _;
      }

      offers-GoesOn :
          (first : Option ℕ) (held : Bool)
          → has_live_job s.queues
              (hard_fail_of (trip_id trip) g ∷ legacy_hard_fail (trip_id trip) ∷ [])
            ≡ held
          → GoesOn (reconcile_offers new_id now w s trip g planned idle first held) trip g
      offers-GoesOn none held e = elim (Bool-cases (is_over none held)) [
        | inl over ↦ rw over (retried none held over)
        | inr still ↦ rw still (elim (Bool-cases held) [
          | inl h ↦ rw h (inl (inl (hard_fail_in (live_job-HasJob s _ (e ∙ h)))))
          | inr h ↦ rw h (
              inl (
                inr
                  (rearm_or_enqueue-pending new_id now s.db (topic_of trip) (trip_id trip) g none)))
        ])
      ]
      offers-GoesOn (some t) held e = elim (Bool-cases (is_over (some t) held)) [
        | inl over ↦ rw over (retried (some t) held over)
        | inr still ↦ rw still (
            inl (
              HasWork-Grows _ _ (dispatch_jobs trip g) (topic_of trip) (trip_id trip) g
                (wave2-Grows new_id now _ trip g _) (inl (restored held e _))))
      ]

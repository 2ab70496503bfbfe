-- ===== src/Booking/Replays.antt =====
-- A request that is repeated under its key gets its first answer.
use Prim.Native.String.{String}
use text.Mathlib.TextEquality.{eq_iff}
use rcab.Base.{
  subst, sum_cases, ℕ, ◌≡◌, refl, ap, ◌∙◌, not, ◌&&◌, Bool, true, false, Option, none, some, ◌⊎◌,
  inl, inr, Bool-cases, Option-cases,
}
use rcab.Store.{Point, RideType, Db}
use rcab.Guards.{commit}
use rcab.Rides.Create.{NewRide, create, Created}
use rcab.Rides.Replay.{create-known, create-created}
use rcab.Pools.Closing.{Outcome-cases}
use rcab.Booking.{
  CreateRide, QuoteCheck, SoloResponse, RequestError, required_key, fingerprint_matches,
  solo_response, replay_solo, Reply, or_replay, created_reply, book, verify_quote, new_ride,
  is_in_window, book_quoted, create_normal, book_scheduled, create_scheduled,
}

-- The request is replayed on these tables with this answer.
abbrev pub IsReplayed : Db → ℕ → RideType → String → String → SoloResponse → Type 0
IsReplayed db passenger type key fingerprint r =
    replay_solo db passenger type key fingerprint ≡ inr (some r)

replay_cases :
    (o : RequestError ⊎ Option SoloResponse)
    → ((e : RequestError) × (o ≡ inl e))
      ⊎ ((o ≡ inr none) ⊎ ((r : SoloResponse) × (o ≡ inr (some r))))
replay_cases (inl e) = inl (e, refl)
replay_cases (inr none) = inr (inl refl)
replay_cases (inr (some r)) = inr (inr (r, refl))

clash :
    {e : RequestError}
    → {r : SoloResponse} → ◌≡◌ {A = RequestError ⊎ SoloResponse} (inl e) (inr r)
    → ⊥
clash h = cc

given_answer :
    {r r' : SoloResponse} → ◌≡◌ {A = RequestError ⊎ SoloResponse} (inr r) (inr r') → r ≡ r'
given_answer h = cc

-- A replay of the row, by the answer that it got.
module _ (fingerprint : String) (r : SoloResponse) where
  told_row :
      (c : Created)
      → created_reply fingerprint c ≡ inr r
      → c.created ≡ false
      → fingerprint_matches c.row.request_fingerprint fingerprint ≡ true
  told_row c told old =
      elim (Bool-cases (fingerprint_matches c.row.request_fingerprint fingerprint)) [
        | inl same ↦ same
        | inr other ↦ absurd (clash (rw (old, other) at told))
      ]

  told_answer : (c : Created) → created_reply fingerprint c ≡ inr r → solo_response c.row ≡ r
  told_answer c told =
      elim (Bool-cases
        (not c.created && not (fingerprint_matches c.row.request_fingerprint fingerprint))) [
          | inl refused ↦ absurd (clash (rw refused at told))
          | inr given ↦ given_answer (rw given at told)
        ]

module _ (db db' : Db) (now id row : ℕ) (n : NewRide) (fingerprint : String) (r : SoloResponse)
    (stored : n.fingerprint ≡ some fingerprint) where
  created-IsReplayed :
      (c : Created)
      → create db now id row n ≡ commit db' c
      → created_reply fingerprint c ≡ inr r
      → IsReplayed db' n.passenger_id n.type n.key fingerprint r
  unfolding replay_solo
  created-IsReplayed c e told =
      let known = create-known db db' now id row n c e in
      let same : fingerprint_matches c.row.request_fingerprint fingerprint ≡ true =
        elim (Bool-cases c.created) [
          | inl made ↦
              let it = create-created db db' now id row n c e made in
              rw (it, stored) ((eq_iff fingerprint fingerprint).1 refl)
          | inr old ↦ told_row fingerprint r c told old
        ] in
      rw (known, replay_solo, same) (ap (λ a. inr (some a)) (told_answer fingerprint r c told))

  book-IsReplayed :
      (join : Option (ℕ × ℕ))
      → book db now id row n fingerprint ≡ (db', (join, inr r))
      → IsReplayed db' n.passenger_id n.type n.key fingerprint r
  unfolding book
  book-IsReplayed join e = elim (Outcome-cases (create db now id row n)) [
    | inl stopped ↦ absurd (clash (ap (λ p. p.1.1) (rw (book, stopped) at e)))
    | inr (d, c, done) ↦
        let e' = rw (book, done) at e in
        created-IsReplayed c (done ∙ ap (λ x. commit x c) (ap (λ p. p.0) e')) (ap (λ p. p.1.1) e')
  ]

module _ (digest : RideType → CreateRide → String) (verify : ℕ → String → QuoteCheck)
    (near : Point → Point → Bool) (read_date : String → Option ℕ) (db db' : Db) (passenger : ℕ)
    (dto : CreateRide) (join : Option (ℕ × ℕ)) (r : SoloResponse) where
  book_quoted-IsReplayed :
      (wall now id row : ℕ) (type : RideType) (key : String) (at : Option ℕ) (token : String)
      → book_quoted digest verify near read_date db wall now id row passenger dto type key at token
        ≡ (db', (join, inr r))
      → IsReplayed db' passenger type key (digest type dto) r
  unfolding book_quoted
  book_quoted-IsReplayed wall now id row type key at token e =
      elim (sum_cases (verify_quote digest verify near read_date wall dto token)) [
        | inl (_, refused) ↦ absurd (clash (ap (λ p. p.1.1) (rw (book_quoted, refused) at e)))
        | inr (claims, fine) ↦
            book-IsReplayed db db' now id row
              (new_ride digest verify near read_date passenger dto type key at
                claims.solo_fare_cents)
              (digest type dto) r refl join (rw (book_quoted, fine) at e)
      ]

  or_replay-IsReplayed :
      (type : RideType) (key : String) (o : RequestError ⊎ Option SoloResponse) (rest : Reply)
      → replay_solo db passenger type key (digest type dto) ≡ o
      → (rest ≡ (db', (join, inr r)) → IsReplayed db' passenger type key (digest type dto) r)
      → or_replay o db rest ≡ (db', (join, inr r))
      → IsReplayed db' passenger type key (digest type dto) r
  or_replay-IsReplayed type key (inl bad) rest looked fresh e = absurd (clash (ap (λ p. p.1.1) e))
  or_replay-IsReplayed type key (inr none) rest looked fresh e = fresh e
  or_replay-IsReplayed type key (inr (some old)) rest looked fresh e =
      subst (λ d. IsReplayed d passenger type key (digest type dto) r) (ap (λ p. p.0) e)
        (looked ∙ ap (λ a. inr (some a)) (given_answer (ap (λ p. p.1.1) e)))

  -- a request for a ride that was answered with the ride is answered with it again when it is
  -- repeated under its key, with no write, whatever its quote is worth by then, and whatever the
  -- tables became between the lookup of the replay and the end of the request.
  pub create_normal-replays :
      (wall now id row : ℕ) (raw : Option String)
      → create_normal digest verify near read_date db db wall now id row passenger dto raw
        ≡ (db', (join, inr r))
      → (later : Db) (wall' now' id' row' : ℕ)
      → create_normal digest verify near read_date db' later wall' now' id' row' passenger dto raw
        ≡ (later, (none, inr r))
  unfolding create_normal
  create_normal-replays wall now id row raw e later wall' now' id' row' =
      elim (sum_cases (required_key raw)) [
        | inl (_, refused) ↦ absurd (clash (ap (λ p. p.1.1) (rw (create_normal, refused) at e)))
        | inr (key, keyed) ↦ elim (Option-cases dto.quote_token) [
          | inl missing ↦ absurd (clash (ap (λ p. p.1.1) (rw (create_normal, keyed, missing) at e)))
          | inr (token, quoted) ↦
              let again =
                or_replay-IsReplayed RideType.normal key
                  (replay_solo db passenger RideType.normal key (digest RideType.normal dto))
                  (book_quoted digest verify near read_date db wall now id row passenger dto
                    RideType.normal key none token)
                  refl (book_quoted-IsReplayed wall now id row RideType.normal key none token)
                  (rw (create_normal, keyed, quoted) at e) in
              rw (create_normal, keyed, quoted)
                (ap
                  (λ o. or_replay o later (
                    book_quoted digest verify near read_date later wall' now' id' row' passenger dto
                      RideType.normal key none token))
                  again)
        ]
      ]

  book_scheduled-IsReplayed :
      (wall now id row : ℕ) (key token date : String)
      → book_scheduled digest verify near read_date db wall now id row passenger dto key token date
        ≡ (db', (join, inr r))
      → IsReplayed db' passenger RideType.scheduled key (digest RideType.scheduled dto) r
  unfolding book_scheduled
  book_scheduled-IsReplayed wall now id row key token date e =
      elim (Option-cases (read_date date)) [
        | inl no_date ↦ absurd (clash (ap (λ p. p.1.1) (rw (book_scheduled, no_date) at e)))
        | inr (at, dated) ↦ elim (Bool-cases (is_in_window wall at)) [
          | inl inside ↦
              book_quoted-IsReplayed wall now id row RideType.scheduled key (some at) token
                (rw (book_scheduled, dated, inside) at e)
          | inr outside ↦
              absurd (clash (ap (λ p. p.1.1) (rw (book_scheduled, dated, outside) at e)))
        ]
      ]

  -- The same of scheduled rides, whose window may have passed.
  pub create_scheduled-replays :
      (wall now id row : ℕ) (raw : Option String)
      → create_scheduled digest verify near read_date db db wall now id row passenger dto raw
        ≡ (db', (join, inr r))
      → (later : Db) (wall' now' id' row' : ℕ)
      → create_scheduled digest verify near read_date db' later wall' now' id' row' passenger dto
          raw
        ≡ (later, (none, inr r))
  unfolding create_scheduled
  create_scheduled-replays wall now id row raw e later wall' now' id' row' =
      elim (sum_cases (required_key raw)) [
        | inl (_, refused) ↦ absurd (clash (ap (λ p. p.1.1) (rw (create_scheduled, refused) at e)))
        | inr (key, keyed) ↦ elim (Option-cases dto.quote_token) [
          | inl missing ↦
              absurd (clash (ap (λ p. p.1.1) (rw (create_scheduled, keyed, missing) at e)))
          | inr (token, quoted) ↦ elim (Option-cases dto.scheduled_for) [
            | inl undated ↦
                absurd
                  (clash (ap (λ p. p.1.1) (rw (create_scheduled, keyed, quoted, undated) at e)))
            | inr (date, dated) ↦
                let again =
                  or_replay-IsReplayed RideType.scheduled key
                    (replay_solo db passenger RideType.scheduled key
                      (digest RideType.scheduled dto))
                    (book_scheduled digest verify near read_date db wall now id row passenger dto
                      key token date)
                    refl (book_scheduled-IsReplayed wall now id row key token date)
                    (rw (create_scheduled, keyed, quoted, dated) at e) in
                rw (create_scheduled, keyed, quoted, dated)
                  (ap
                    (λ o. or_replay o later (
                      book_scheduled digest verify near read_date later wall' now' id' row'
                        passenger dto key token date))
                    again)
          ]
        ]
      ]

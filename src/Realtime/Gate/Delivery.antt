-- ===== src/Realtime/Gate/Delivery.antt =====
-- What a client shows after any deliveries, repeated and out of order: the newest that it was sent of
-- the aggregate that it follows.
use mathlib.Core.Option
use rcab.Base.{
  ℕ, ◌≤◌, ◌≡◌, ◌≢◌, refl, sym, ap, ◌∙◌, true, Option, none, some, List, [], ◌∷◌, ◌==◌, Memᴰ,
  mem-cons_cases, inl, inr, Bool-cases, Option-cases, ==_iff, ==_refl, ltb, leb, arith,
  if◌then◌else◌, ◌⊎◌,
}
use rcab.Realtime.Gate.{
  create_version_gate, follow, is_at_most, snapshot, event, Message, Client, through, receive,
  receive_all,
}

module _ {ℓ} {A : Type ℓ} (content : ℕ → A) (id : ℕ) where
  -- Each message on the aggregate has a version, which fixes what it says.
  pub record IsStamped (m : Message A) : Type ℓ where
    pub version : ℕ
    pub stamp : m.version ≡ some version
    pub says : m.payload ≡ content version

  abbrev pub AreStamped : List (Message A) → Type ℓ
  AreStamped ms = (m : Message A) → Memᴰ m ms → m.id ≡ id → IsStamped m

  -- The client that shows the newest version `a`.
  abbrev pub showing : Option ℕ → Client A
  showing a = record {
    gate = record { followed = some id; applied = a };
    shown = Option.map content a;
  }

  -- `a` is the newest version of the aggregate among the messages.
  abbrev pub IsNewest : List (Message A) → Option ℕ → Type ℓ
  IsNewest ms a =
      ((v : ℕ) → a ≡ some v → (m : Message A) × Memᴰ m ms × (m.id ≡ id) × (m.version ≡ some v))
      × ((m : Message A)
          → Memᴰ m ms
          → m.id ≡ id
          → (w : ℕ) → m.version ≡ some w
          → (v : ℕ) × (a ≡ some v) × (w ≤ v))

  -- The version after one more message.
  abbrev later : Option ℕ → ℕ → Option ℕ
  later a w = if is_at_most w a then a else some w

  -- An event of version `w`, and a snapshot.
  event-later :
      (a : Option ℕ) (w : ℕ)
      → through (showing a) (content w) (event (showing a).gate id (some w)) ≡ showing (later a w)
  unfolding event
  event-later none w = rw (==_refl id) refl
  event-later (some k) w = elim (Bool-cases (leb w k)) [
    | inl old ↦ rw (==_refl id, old) refl
    | inr new ↦ rw (==_refl id, new) refl
  ]

  snapshot-later :
      (a : Option ℕ) (w : ℕ)
      → through (showing a) (content w) (snapshot (showing a).gate id (some w))
        ≡ showing (later a w)
  unfolding snapshot
  snapshot-later none w = rw (==_refl id) refl
  snapshot-later (some k) w = elim (Bool-cases (ltb w k)) [
    | inl old ↦ let under : leb w k ≡ true = ground arith in rw (==_refl id, old, under) refl
    | inr new ↦ elim (Bool-cases (leb w k)) [
      | inl again ↦
          let same : w ≡ k = ground arith in
          rw (==_refl id, new, again) (ap (λ v. showing (some v)) same)
      | inr newer ↦ rw (==_refl id, new, newer) refl
    ]
  ]

  receive-own :
      (a : Option ℕ) (m : Message A)
      → m.id ≡ id
      → (s : IsStamped m) → receive (showing a) m ≡ showing (later a s.version)
  unfolding receive
  receive-own a m same s =
      let e = s.stamp in
      let c = s.says in
      elim (Bool-cases m.is_snapshot) [
        | inl whole ↦ rw (whole, same, e, c) (snapshot-later a s.version)
        | inr part ↦ rw (part, same, e, c) (event-later a s.version)
      ]

  receive-foreign : (a : Option ℕ) (m : Message A) → m.id ≢ id → receive (showing a) m ≡ showing a
  unfolding receive snapshot event
  receive-foreign a m other = elim (Bool-cases (id == m.id)) [
    | inl same ↦ absurd (other (sym ((==_iff id m.id).0 same)))
    | inr miss ↦ elim (Option-cases m.version) [
      | inl bare ↦ elim (Bool-cases m.is_snapshot) [
        | inl b ↦ rw (b, bare) refl
        | inr b ↦ rw (b, bare, miss) refl
      ]
      | inr (w, e) ↦ elim (Bool-cases m.is_snapshot) [
        | inl b ↦ rw (b, e, miss) refl
        | inr b ↦ rw (b, e, miss) refl
      ]
    ]
  ]

  -- The newest version after one more message of version `w`.
  later-some : (a : Option ℕ) (w : ℕ) → (v : ℕ) × (later a w ≡ some v) × (w ≤ v)
  later-some none w = (w, refl, ground arith)
  later-some (some k) w = elim (Bool-cases (leb w k)) [
    | inl old ↦ (k, rw old refl, ground arith)
    | inr new ↦ (w, rw new refl, ground arith)
  ]

  later-above : (k w v : ℕ) → later (some k) w ≡ some v → k ≤ v
  later-above k w v e = ground arith

  later-cases : (a : Option ℕ) (w : ℕ) → (later a w ≡ a) ⊎ (later a w ≡ some w)
  later-cases none w = inr refl
  later-cases (some k) w = elim (Bool-cases (leb w k)) [
    | inl old ↦ inl (rw old refl)
    | inr new ↦ inr (rw new refl)
  ]

  IsNewest-own :
      (m : Message A) (ms : List (Message A)) (a : Option ℕ)
      → m.id ≡ id
      → (s : IsStamped m) → IsNewest ms a
      → IsNewest (m ∷ ms) (later a s.version)
  IsNewest-own m ms a same s (found, above) = (
    λ v e. elim (later-cases a s.version) [
      | inl kept ↦ let (n, mem, own, at) = found v (sym kept ∙ e) in (n, Memᴰ.tail mem, own, at)
      | inr new ↦ (m, Memᴰ.head refl, same, s.stamp ∙ sym new ∙ e)
    ],
    λ n mem own w at. bound_ n mem own w at,
  )
    where
      bound_ :
          (n : Message A)
          → Memᴰ n (m ∷ ms)
          → n.id ≡ id
          → (w : ℕ) → n.version ≡ some w
          → (v : ℕ) × (later a s.version ≡ some v) × (w ≤ v)
      bound_ n (Memᴰ.head e) own w at =
          let (v, is, le) = later-some a s.version in
          let stamped : m.version ≡ some w = ap (λ (x : Message A). x.version) (sym e) ∙ at in
          let here : some w ≡ some s.version = sym stamped ∙ s.stamp in
          (v, is, ground (arith, here, le))
      bound_ n (Memᴰ.tail mem) own w at =
          let (k, was, under) = above n mem own w at in
          let (v, is, le) = later-some a s.version in
          let k_le : k ≤ v =
            later-above k s.version v (ap (λ x. later x s.version) (sym was) ∙ is) in
          (v, is, ground arith)

  IsNewest-foreign :
      (m : Message A) (ms : List (Message A)) (a : Option ℕ)
      → m.id ≢ id
      → IsNewest ms a
      → IsNewest (m ∷ ms) a
  IsNewest-foreign m ms a other (found, above) = (
    λ v e. let (n, mem, own, at) = found v e in (n, Memᴰ.tail mem, own, at),
    λ n mem own w at. elim (mem-cons_cases mem) [
      | inl e ↦ absurd (other (sym (ap (λ (x : Message A). x.id) e) ∙ own))
      | inr old ↦ above n old own w at
    ],
  )

  -- The client before it is sent anything, which has just begun to follow.
  abbrev pub at_start : Client A
  at_start = record { gate = follow create_version_gate id; shown = none }

  -- whatever was delivered, in any order and any number of times, the client shows what the newest
  -- version that came says, and nothing if none came; messages on other trips change nothing.
  pub receive_all-IsNewest :
      (ms : List (Message A))
      → AreStamped ms
      → (a : Option ℕ) × (receive_all at_start ms ≡ showing a) × IsNewest ms a
  unfolding receive_all follow
  receive_all-IsNewest [] stamped = (none, refl, (λ v e. cc, λ m mem. elim mem [ ]))
  receive_all-IsNewest (m ∷ ms) stamped =
      let (a, shows, newest) = receive_all-IsNewest ms (λ n mem. stamped n (Memᴰ.tail mem)) in
      elim (Bool-cases (m.id == id)) [
        | inl own ↦
            let same = (==_iff m.id id).0 own in
            let s = stamped m (Memᴰ.head refl) same in
            (
              later a s.version,
              ap (λ c. receive c m) shows ∙ receive-own a m same s,
              IsNewest-own m ms a same s newest,
            )
        | inr miss ↦
            let other : m.id ≢ id = λ e. ground arith in
            (
              a,
              ap (λ c. receive c m) shows ∙ receive-foreign a m other,
              IsNewest-foreign m ms a other newest,
            )
      ]

  -- Each message on the aggregate in `ms` has its version in `ns` too.
  abbrev pub AreCovered : List (Message A) → List (Message A) → Type ℓ
  AreCovered ms ns =
      (m : Message A)
      → Memᴰ m ms
      → m.id ≡ id
      → (n : Message A) × Memᴰ n ns × (n.id ≡ id) × (n.version ≡ m.version)

  newest_under :
      (ms ns : List (Message A)) (a b : Option ℕ) (v : ℕ)
      → IsNewest ms a
      → IsNewest ns b
      → AreCovered ms ns
      → a ≡ some v
      → (w : ℕ) × (b ≡ some w) × (v ≤ w)
  newest_under ms ns a b v (found, above) (found', above') covers e =
      let (m, mem, own, at) = found v e in
      let (n, mem', own', same) = covers m mem own in above' n mem' own' v (same ∙ at)

  newest_unique :
      (ms ns : List (Message A)) (a b : Option ℕ)
      → IsNewest ms a
      → IsNewest ns b
      → AreCovered ms ns
      → AreCovered ns ms
      → a ≡ b
  newest_unique ms ns a b p q covers covered = elim (Option-cases a) [
    | inl bare ↦ elim (Option-cases b) [
      | inl bare' ↦ bare ∙ sym bare'
      | inr (w, e) ↦
          let (v, is, le) = newest_under ns ms b a w q p covered e in
          absurd (ground (arith, bare, is))
    ]
    | inr (v, e) ↦
        let (w, is, le) = newest_under ms ns a b v p q covers e in
        let (v', is', le') = newest_under ns ms b a w q p covered is in
        let back : some v' ≡ some v = sym is' ∙ e in
        let same : v ≡ w = ground arith in e ∙ ap some same ∙ sym is
  ]

  -- two clients that were sent the same versions of the trip that they follow, in whatever orders,
  -- by snapshots or by events and however often, show the same and gate the same from then on,
  -- where the version of a message fixes what it says.
  pub receive_all-same :
      (ms ns : List (Message A))
      → AreStamped ms
      → AreStamped ns
      → AreCovered ms ns
      → AreCovered ns ms
      → receive_all at_start ms ≡ receive_all at_start ns
  receive_all-same ms ns stamped stamped' covers covered =
      let (a, shows, p) = receive_all-IsNewest ms stamped in
      let (b, shows', q) = receive_all-IsNewest ns stamped' in
      shows ∙ ap showing (newest_unique ms ns a b p q covers covered) ∙ sym shows'

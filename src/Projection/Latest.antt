-- ===== src/Projection/Latest.antt =====
-- The writes of a pool's hash: a late one does not take it back to an older row.
use rcab.Base.{
  ℕ, ◌<◌, ◌≡◌, refl, ap, subst, true, false, Option, none, some, List, [], ◌∷◌, Memᴰ, inl, inr,
  Bool-cases, Option-cases, leb, ltb, arith, lt→ltb, ◌+◌, ◌++◌,
}
use rcab.Store.{Pool}
use rcab.Projection.{PoolHash, unexpired, project_pool_eval, pool_hash_ttl_ms}
use rcab.Projection.Behind.{
  IsHashOf, Shows, AreBehind, IsEarlier, unexpired-behind, hash_of-IsHashOf,
  project_pool_eval-AreBehind,
}

-- The writes of a pool's hash, the latest first, each with its instant.
unfoldable pub write_all : Option PoolHash → List (ℕ × Pool) → Option PoolHash
write_all o [] = o
write_all o (w ∷ ws) = (project_pool_eval (write_all o ws) w.0 w.1).0

abbrev pub AreEarlier : Pool → List (ℕ × Pool) → Type 0
AreEarlier p ws = (w : ℕ × Pool) → Memᴰ w ws → IsEarlier p w.1

write_all-AreBehind :
    (p : Pool) (ws : List (ℕ × Pool)) → AreEarlier p ws → AreBehind p (write_all none ws)
unfolding write_all
write_all-AreBehind p [] all = λ h e. cc
write_all-AreBehind p (w ∷ ws) all =
    project_pool_eval-AreBehind p w.1 (write_all none ws) w.0 (all w (Memᴰ.head refl))
      (write_all-AreBehind p ws (λ x m. all x (Memᴰ.tail m)))

-- While the hash of a row is held, the write of a state that the pool was in before, or of the row
-- once more, is skipped.
project_pool_eval-stale :
    (p q : Pool) (h : PoolHash) (now : ℕ)
    → IsHashOf p h
    → now < h.expires_at
    → IsEarlier p q
    → project_pool_eval (some h) now q ≡ (some h, false)
unfolding project_pool_eval
project_pool_eval-stale p q h now s held early =
    let live : ltb now h.expires_at ≡ true = lt→ltb now h.expires_at held in
    let old : leb q.state_version h.version ≡ true =
      let e = s.version in let le = early.older in ground arith in
    rw (live, project_pool_eval) (rw old refl)

abbrev pub AreOlder : Pool → List (ℕ × Pool) → Type 0
AreOlder p ws = (w : ℕ × Pool) → Memᴰ w ws → IsEarlier p w.1 × (w.1.state_version < p.state_version)

abbrev IsOld : Pool → Option PoolHash → Type 0
IsOld p o = (h : PoolHash) → o ≡ some h → h.version < p.state_version

unexpired-IsOld : (p : Pool) (o : Option PoolHash) (now : ℕ) → IsOld p o → IsOld p (unexpired now o)
unexpired-IsOld p none now old h e = cc
unexpired-IsOld p (some g) now old h e = elim (Bool-cases (ltb now g.expires_at)) [
  | inl live ↦ old h (rw live at e)
  | inr over ↦ absurd (ground (arith, over, e))
]

project_pool_eval-IsOld :
    (p q : Pool) (o : Option PoolHash) (now : ℕ)
    → q.state_version < p.state_version
    → IsOld p o
    → IsOld p (project_pool_eval o now q).0
unfolding project_pool_eval
project_pool_eval-IsOld p q o now older old = elim (Option-cases (unexpired now o)) [
  | inl gone ↦ rw (gone, project_pool_eval) (λ h e. subst IsOlder (stored e) older)
  | inr (g, live) ↦
      rw (live, project_pool_eval)
        (elim (Bool-cases (leb q.state_version g.version)) [
          | inl held ↦
              rw held (λ h e. subst IsOlder (stored e) (unexpired-IsOld p o now old g live))
          | inr newer ↦ rw newer (λ h e. subst IsOlder (stored e) older)
        ])
]
  where
    IsOlder : PoolHash → Type 0
    IsOlder h = h.version < p.state_version

    stored : {g h : PoolHash} → some g ≡ some h → g ≡ h
    stored e = cc

write_all-IsOld : (p : Pool) (ws : List (ℕ × Pool)) → AreOlder p ws → IsOld p (write_all none ws)
unfolding write_all
write_all-IsOld p [] all = λ h e. cc
write_all-IsOld p (w ∷ ws) all =
    project_pool_eval-IsOld p w.1 (write_all none ws) w.0 (all w (Memᴰ.head refl)).1
      (write_all-IsOld p ws (λ x m. all x (Memᴰ.tail m)))

-- The hash says what the row does, and is held until the deadline.
abbrev Holds : Pool → ℕ → Option PoolHash → Type 0
Holds p deadline o = (h : PoolHash) × (o ≡ some h) × IsHashOf p h × (h.expires_at ≡ deadline)

-- The write of a row that is newer than the hash.
project_pool_eval-Holds :
    (p : Pool) (o : Option PoolHash) (now : ℕ)
    → AreBehind p o
    → IsOld p o
    → Holds p (now + pool_hash_ttl_ms) (project_pool_eval o now p).0
unfolding project_pool_eval
project_pool_eval-Holds p o now b old = elim (Option-cases (unexpired now o)) [
  | inl gone ↦ rw (gone, project_pool_eval) (_, refl, hash_of-IsHashOf p none now (λ d e. cc), refl)
  | inr (h, e) ↦
      let s = unexpired-behind p o now b h e in
      let less = unexpired-IsOld p o now old h e in
      let newer : leb p.state_version h.version ≡ false = ground arith in
      rw (e, project_pool_eval)
        (rw newer (_, refl, hash_of-IsHashOf p h.claimed_by now s.claim, refl))
]

-- Late writes do not touch it.
write_all-Holds :
    (p : Pool) (deadline : ℕ) (o : Option PoolHash) (ws : List (ℕ × Pool))
    → AreEarlier p ws
    → ((w : ℕ × Pool) → Memᴰ w ws → w.0 < deadline)
    → Holds p deadline o
    → Holds p deadline (write_all o ws)
unfolding write_all
write_all-Holds p deadline o [] all soon held = held
write_all-Holds p deadline o (w ∷ ws) all soon held =
    let (h, e, same, at) =
      write_all-Holds p deadline o ws (λ x m. all x (Memᴰ.tail m)) (λ x m. soon x (Memᴰ.tail m))
        held in
    let before : w.0 < h.expires_at = let lt = soon w (Memᴰ.head refl) in omega arith in
    rw (e, write_all)
      (rw (project_pool_eval-stale p w.1 h w.0 same before (all w (Memᴰ.head refl)))
        (h, refl, same, at))

write_all-append :
    (o : Option PoolHash) (xs ys : List (ℕ × Pool))
    → write_all o (xs ++ ys) ≡ write_all (write_all o ys) xs
unfolding write_all
write_all-append o [] ys = refl
write_all-append o (x ∷ xs) ys =
    ap (λ last. (project_pool_eval last x.0 x.1).0) (write_all-append o xs ys)

-- the copy of a pool is not rolled back: after a row is written, following any writes of older
-- states in any order, the hash says what that row does, and still does so after any late writes
-- of older states or of the row itself that run before the hash of the row expires.
pub write_all-Shows :
    (p : Pool) (now : ℕ) (earlier later : List (ℕ × Pool))
    → AreOlder p earlier
    → AreEarlier p later
    → ((w : ℕ × Pool) → Memᴰ w later → w.0 < now + pool_hash_ttl_ms)
    → Shows p (write_all none (later ++ ((now, p) ∷ earlier)))
unfolding write_all
write_all-Shows p now earlier later older all soon =
    let held =
      project_pool_eval-Holds p (write_all none earlier) now
        (write_all-AreBehind p earlier (λ w m. (older w m).0)) (write_all-IsOld p earlier older) in
    let (h, e, same, at) =
      write_all-Holds p (now + pool_hash_ttl_ms) (write_all none ((now, p) ∷ earlier)) later all
        soon held in
    rw (write_all-append none later ((now, p) ∷ earlier)) (h, e, same)

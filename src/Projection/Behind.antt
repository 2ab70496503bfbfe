-- ===== src/Projection/Behind.antt =====
-- One write of the hash of a pool: the hash is of the row or of an older one, and stays so.
use rcab.Base.{
  ℕ, ◌≤◌, ◌≡◌, refl, sym, subst, ◌∙◌, Option, none, some, inl, inr, Bool-cases, Option-cases, leb,
  ltb, arith,
}
use rcab.Store.{Pool}
use rcab.Projection.{PoolHash, unexpired, set_claim, hash_of, project_pool_eval}

-- The hash says what the row does.
pub record IsHashOf (p : Pool) (h : PoolHash) : Type 0 where
  pub version : h.version ≡ p.state_version
  pub state : h.state ≡ p.pool_state
  pub seat_count : h.seat_count ≡ p.seat_count
  pub max_seats : h.max_seats ≡ p.max_seats
  pub claimed_by : h.claimed_by ≡ p.claimed_by_driver_id

abbrev pub Shows : Pool → Option PoolHash → Type 0
Shows p o = (h : PoolHash) × (o ≡ some h) × IsHashOf p h

-- The hash is of the row or of an older one, whose claim the row still has.
pub record IsBehind (p : Pool) (h : PoolHash) : Type 0 where
  pub older : h.version ≤ p.state_version
  pub current : h.version ≡ p.state_version → IsHashOf p h
  pub claim : (d : ℕ) → h.claimed_by ≡ some d → p.claimed_by_driver_id ≡ some d

abbrev pub AreBehind : Pool → Option PoolHash → Type 0
AreBehind p o = (h : PoolHash) → o ≡ some h → IsBehind p h

pub IsHashOf-IsBehind : (p : Pool) (h : PoolHash) → IsHashOf p h → IsBehind p h
IsHashOf-IsBehind p h s = record {
  older = let e = s.version in ground arith;
  current = λ e. s;
  claim = λ d e. sym s.claimed_by ∙ e;
}

pub unexpired-behind :
    (p : Pool) (o : Option PoolHash) (now : ℕ) → AreBehind p o → AreBehind p (unexpired now o)
unexpired-behind p none now b h e = cc
unexpired-behind p (some g) now b h e = elim (Bool-cases (ltb now g.expires_at)) [
  | inl live ↦ b h (rw live at e)
  | inr over ↦ absurd (ground (arith, over, e))
]

set_claim-kept :
    (p : Pool) (o : Option ℕ)
    → ((d : ℕ) → o ≡ some d → p.claimed_by_driver_id ≡ some d)
    → set_claim p.claimed_by_driver_id o ≡ p.claimed_by_driver_id
set_claim-kept p o old = elim (Option-cases p.claimed_by_driver_id) [
  | inr (d, e) ↦ rw e refl
  | inl free ↦
      rw free (elim (Option-cases o) [ inl bare ↦ bare | inr (d, e) ↦ e ∙ sym (old d e) ∙ free ])
]

-- A write of the row.
pub hash_of-IsHashOf :
    (p : Pool) (o : Option ℕ) (now : ℕ)
    → ((d : ℕ) → o ≡ some d → p.claimed_by_driver_id ≡ some d)
    → IsHashOf p (hash_of now p o)
hash_of-IsHashOf p o now old = record {
  version = refl;
  state = refl;
  seat_count = refl;
  max_seats = refl;
  claimed_by = set_claim-kept p o old;
}

pub project_pool_eval-Shows :
    (p : Pool) (o : Option PoolHash) (now : ℕ)
    → AreBehind p o
    → Shows p (project_pool_eval o now p).0
unfolding project_pool_eval
project_pool_eval-Shows p o now b = elim (Option-cases (unexpired now o)) [
  | inl gone ↦ rw (gone, project_pool_eval) (_, refl, hash_of-IsHashOf p none now (λ d e. cc))
  | inr (h, e) ↦
      let s = unexpired-behind p o now b h e in
      rw (e, project_pool_eval)
        (elim (Bool-cases (leb p.state_version h.version)) [
          | inl held ↦ rw held (h, refl, s.current (let le = s.older in ground arith))
          | inr older ↦ rw older (_, refl, hash_of-IsHashOf p h.claimed_by now s.claim)
        ])
]

-- Another committed state of the pool, no newer than the row.
pub record IsEarlier (p q : Pool) : Type 0 where
  pub older : q.state_version ≤ p.state_version
  pub current : q.state_version ≡ p.state_version → q ≡ p
  pub claim : (d : ℕ) → q.claimed_by_driver_id ≡ some d → p.claimed_by_driver_id ≡ some d

set_claim-from :
    (a b : Option ℕ) (d : ℕ) (G : Type 0)
    → set_claim a b ≡ some d
    → (a ≡ some d → G)
    → (b ≡ some d → G)
    → G
set_claim-from none b d G e f g = g e
set_claim-from (some c) b d G e f g = f e

hash_of-IsBehind :
    (p q : Pool) (o : Option ℕ) (now : ℕ)
    → IsEarlier p q
    → ((d : ℕ) → o ≡ some d → p.claimed_by_driver_id ≡ some d)
    → IsBehind p (hash_of now q o)
hash_of-IsBehind p q o now e old = record {
  older = e.older;
  current = λ same.
      subst (λ x. IsHashOf p (hash_of now x o)) (sym (e.current same))
        (hash_of-IsHashOf p o now old);
  claim = λ d held.
      set_claim-from q.claimed_by_driver_id o d (p.claimed_by_driver_id ≡ some d) held (e.claim d)
        (old d);
}

pub project_pool_eval-AreBehind :
    (p q : Pool) (o : Option PoolHash) (now : ℕ)
    → IsEarlier p q
    → AreBehind p o
    → AreBehind p (project_pool_eval o now q).0
unfolding project_pool_eval
project_pool_eval-AreBehind p q o now early b = elim (Option-cases (unexpired now o)) [
  | inl gone ↦
      rw (gone, project_pool_eval)
        (λ h e. subst (IsBehind p) (stored e) (hash_of-IsBehind p q none now early (λ d e. cc)))
  | inr (g, live) ↦
      let s = unexpired-behind p o now b g live in
      rw (live, project_pool_eval)
        (elim (Bool-cases (leb q.state_version g.version)) [
          | inl held ↦ rw held (λ h e. subst (IsBehind p) (stored e) s)
          | inr older ↦ rw older (λ h e.
              subst (IsBehind p) (stored e) (hash_of-IsBehind p q g.claimed_by now early s.claim))
        ])
]
  where
    stored : {g h : PoolHash} → some g ≡ some h → g ≡ h
    stored e = cc

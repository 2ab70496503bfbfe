-- ===== src/Sessions/Replay.antt =====
-- A token that is presented again: a race within the grace, a replay after it.
use Prim.Native.String.{String}
use text.Mathlib.TextEquality.{eq_iff}
use rcab.Base.{
  ℕ, ◌+◌, ◌≡◌, ◌≤◌, ◌<◌, refl, sym, ◌∙◌, Bool, true, false, none, some, ◌⊎◌, inl, inr, arith, Memᴰ,
  Bool-cases, Option-cases, find_where, update_where, find_where-mem, find_where-none,
  find_where-miss,
}
use rcab.Sessions.{
  RefreshToken, AuthDb, AuthError, Answer, refused, is_token, revoked, is_replayed, live_of_family,
  reuse_grace_ms, revoke_replayed, refresh,
}
use rcab.Sessions.Families.{IsEnded, still_live}
use rcab.Sessions.Reuse.{IsSpent, HasDigestKey, spent-unused}

-- What the presentation of a token does that was revoked at the time `at`.
pub record IsReuse (db : AuthDb) (now : ℕ) (r : RefreshToken) (at : ℕ) (o : AuthDb × Answer)
    : Type 0 where
  pub answer : o.1 ≡ refused AuthError.invalid_refresh_token
  pub late : at + reuse_grace_ms ≤ now → IsEnded r.family_id o.0.tokens
  pub early : now < at + reuse_grace_ms → o.0.tokens ≡ db.tokens

module _ (hash : String → String) where
  -- a token that was revoked is refused; presented a grace or longer after that it ends its
  -- family, with no live token left, and before that it changes no token.
  pub refresh-IsReuse :
      (db : AuthDb) (now wall : ℕ) (presented token : String) (r : RefreshToken) (at : ℕ)
      → HasDigestKey db.tokens
      → Memᴰ r db.tokens
      → r.token_hash ≡ hash presented
      → r.revoked_at ≡ some at
      → IsReuse db now r at (refresh hash db now wall presented token)
  unfolding revoke_replayed
  refresh-IsReuse db now wall presented token r at key m named gone =
      rw (spent-unused hash db now wall presented token spent) (record {
        answer = refl;
        late = λ old.
            elim (Option-cases (find_where (is_replayed (hash presented) now) db.tokens)) [
              | inl none_there ↦
                  absurd (clash (find_where-none _ db.tokens r none_there m) (replayed old))
              | inr (q, found) ↦
                  let (mq, hit) =
                    find_where-mem (is_replayed (hash presented) now) db.tokens q found in
                  let same : q ≡ r = the_row q mq (ground (arith, hit)) in
                  rw (found, revoke_replayed) (rw same (ends_family r.family_id))
            ];
        early = λ young.
            let calm : find_where (is_replayed (hash presented) now) db.tokens ≡ none =
              find_where-miss (is_replayed (hash presented) now) db.tokens
                (λ q mq. not_yet young q mq (Bool-cases (is_replayed (hash presented) now q))) in
            rw (calm, revoke_replayed) refl;
      })
    where
      clash : {b : Bool} → b ≡ false → b ≡ true → ⊥
      clash no_one one = cc

      the_row : (q : RefreshToken) → Memᴰ q db.tokens → is_token (hash presented) q ≡ true → q ≡ r
      the_row q mq hit = key q r mq m ((eq_iff q.token_hash (hash presented)).0 hit ∙ sym named)

      spent : IsSpent (hash presented) db.tokens
      spent = record {
        known = (r, m, named);
        dead = λ x mx e live.
            let same : x ≡ r = key x r mx m (e ∙ sym named) in ground (arith, same, live, gone);
      }

      replayed : at + reuse_grace_ms ≤ now → is_replayed (hash presented) now r ≡ true
      replayed old = rw ((eq_iff r.token_hash (hash presented)).1 named, gone) (ground (arith, old))

      not_yet :
          now < at + reuse_grace_ms
          → (q : RefreshToken) → Memᴰ q db.tokens
          → (is_replayed (hash presented) now q ≡ true)
            ⊎ (is_replayed (hash presented) now q ≡ false)
          → is_replayed (hash presented) now q ≡ false
      not_yet young q mq (inr calm) = calm
      not_yet young q mq (inl hit) =
          let same : q ≡ r = the_row q mq (ground (arith, hit)) in
          absurd (ground (arith, hit, same, gone, young))

      ends_family :
          (family : ℕ)
          → IsEnded family (update_where (live_of_family family) (revoked now) db.tokens)
      ends_family family x mx e live =
          let (old, miss) = still_live (live_of_family family) now db.tokens x mx live in
          ground (arith, miss, e, live)

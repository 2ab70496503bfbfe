-- ===== src/Sessions/Reuse.antt =====
-- A refresh token is used once.
use Prim.Native.String.{String}
use text.Mathlib.TextEquality.{eq_iff}
use rcab.Base.{
  ℕ, ◌≡◌, ◌≢◌, refl, sym, ap, ◌∙◌, Bool, true, false, none, List, ◌∷◌, ◌⊎◌, inl, inr, arith, Memᴰ,
  Bool-cases, Option-cases, if◌then◌else◌, find_where, exists_where, update_where, find_where-mem,
  find_where-miss, exists_where-false, mem-cons_cases, update_where-mem_if, update_where-mem,
}
use rcab.Sessions.{
  Account, RefreshToken, AuthDb, TokenResponse, new_token, AuthError, granted, refused, failed,
  is_token, revoked, is_consumable, revoke_replayed, is_account, is_blocked, issue_session, rotate,
  refresh,
}
use rcab.Sessions.Families.{
  IsSingle, still_live, TokenMove, revoke_where, add, TokenMoves, none_yet, TokenMoves-IsSingle,
  and_move,
}
use rcab.Sessions.Moves.{SessionRun, SessionRun-moves, refresh-moves}

-- A token that was issued, and is revoked.
pub record IsSpent (digest : String) (ts : List RefreshToken) : Type 0 where
  pub known : (r : RefreshToken) × Memᴰ r ts × (r.token_hash ≡ digest)
  pub dead : (r : RefreshToken) → Memᴰ r ts → r.token_hash ≡ digest → r.revoked_at ≢ none

revoke-IsSpent :
    (digest : String) (p : RefreshToken → Bool) (now : ℕ) (ts : List RefreshToken)
    → IsSpent digest ts
    → IsSpent digest (update_where p (revoked now) ts)
revoke-IsSpent digest p now ts s = record {
  known =
      let (r, m, e) = s.known in
      (
        (if p r then revoked now r else r),
        update_where-mem_if p (revoked now) ts m,
        kept r e (Bool-cases (p r)),
      );
  dead = λ r m e live. s.dead r (still_live p now ts r m live).0 e live;
}
  where
    kept :
        (r : RefreshToken)
        → r.token_hash ≡ digest
        → (p r ≡ true) ⊎ (p r ≡ false)
        → (if p r then revoked now r else r).token_hash ≡ digest
    kept r e (inl hit) = rw hit e
    kept r e (inr miss) = rw miss e

add-IsSpent :
    (digest : String) (n : RefreshToken) (ts : List RefreshToken)
    → exists_where (is_token n.token_hash) ts ≡ false
    → IsSpent digest ts
    → IsSpent digest (n ∷ ts)
add-IsSpent digest n ts new s =
    let (r, m, e) = s.known in
    record {
      known = (r, Memᴰ.tail m, e);
      dead = λ x mx ex live. elim (mem-cons_cases mx) [
        | inr old ↦ s.dead x old ex live
        | inl same ↦
            clash (exists_where-false (is_token n.token_hash) ts r new m)
              ((eq_iff r.token_hash n.token_hash).1 (e ∙ sym ex ∙ ap (λ z. z.token_hash) same))
      ];
    }
  where
    clash : {b : Bool} → b ≡ false → b ≡ true → ⊥
    clash no_one one = cc

TokenMove-IsSpent :
    {digest : String} {ts us : List RefreshToken}
    → TokenMove ts us
    → IsSpent digest ts
    → IsSpent digest us
TokenMove-IsSpent {digest} {ts} (revoke_where p now) s = revoke-IsSpent digest p now ts s
TokenMove-IsSpent {digest} {ts} (add n new over) s = add-IsSpent digest n ts new s

TokenMoves-IsSpent :
    {digest : String} {ts us : List RefreshToken}
    → TokenMoves ts us
    → IsSpent digest ts
    → IsSpent digest us
TokenMoves-IsSpent none_yet s = s
TokenMoves-IsSpent (and_move ms m) s = TokenMove-IsSpent m (TokenMoves-IsSpent ms s)

-- The primary key of the table.
abbrev pub HasDigestKey : List RefreshToken → Type 0
HasDigestKey ts = (r s : RefreshToken) → Memᴰ r ts → Memᴰ s ts → r.token_hash ≡ s.token_hash → r ≡ s

consumed-IsSpent :
    (digest : String) (now : ℕ) (ts : List RefreshToken) (r : RefreshToken)
    → HasDigestKey ts
    → Memᴰ r ts
    → is_consumable digest now r ≡ true
    → IsSpent digest (update_where (is_consumable digest now) (revoked now) ts)
consumed-IsSpent digest now ts r key m hit = record {
  known =
      (revoked now r, update_where-mem (is_consumable digest now) (revoked now) ts m hit, named);
  dead = λ s ms e live.
      let (old, miss) = still_live (is_consumable digest now) now ts s ms live in
      let same : s ≡ r = key s r old m (e ∙ sym named) in
      clash (sym miss ∙ ap (is_consumable digest now) same ∙ hit);
}
  where
    named : r.token_hash ≡ digest
    named = (eq_iff r.token_hash digest).0 (ground (arith, hit))

    clash : false ≡ true → ⊥
    clash e = cc

module _ (hash : String → String) where
  -- What is consumed is spent, whatever the answer, unless an error rolled it back.
  rotate-IsSpent :
      (db : AuthDb) (now wall : ℕ) (r : RefreshToken) (a : Account) (digest token : String)
      (t : TokenResponse)
      → HasDigestKey db.tokens
      → Memᴰ r db.tokens
      → is_consumable digest now r ≡ true
      → (rotate hash db now wall r a digest token).1 ≡ granted t
      → IsSpent digest (rotate hash db now wall r a digest token).0.tokens
  unfolding rotate issue_session
  rotate-IsSpent db now wall r a digest token t key m hit told =
      let spent = consumed-IsSpent digest now db.tokens r key m hit in
      let ts = update_where (is_consumable digest now) (revoked now) db.tokens in
      elim (Bool-cases (is_blocked a.status)) [
        | inl out ↦ absurd (other (rw out at told))
        | inr may ↦ elim (Bool-cases (exists_where (is_token (hash token)) ts)) [
          | inl old ↦ absurd (broken (rw (may, old) at told))
          | inr new ↦
              rw (may, new)
                (add-IsSpent digest (new_token hash wall a r.auth_method r.family_id token) ts new
                  spent)
        ]
      ]
    where
      other : refused AuthError.account_disabled ≡ granted t → ⊥
      other e = cc

      broken : failed ≡ granted t → ⊥
      broken e = cc

  refresh-IsSpent :
      (db : AuthDb) (now wall : ℕ) (presented token : String) (t : TokenResponse)
      → HasDigestKey db.tokens
      → (refresh hash db now wall presented token).1 ≡ granted t
      → IsSpent (hash presented) (refresh hash db now wall presented token).0.tokens
  unfolding refresh
  refresh-IsSpent db now wall presented token t key told =
      elim (Option-cases (find_where (is_consumable (hash presented) now) db.tokens)) [
        | inl gone ↦ absurd (unused (rw (gone, refresh) at told))
        | inr (r, found) ↦
            let (m, hit) = find_where-mem (is_consumable (hash presented) now) db.tokens r found in
            elim (Option-cases (find_where (is_account r.user_id) db.accounts)) [
              | inl lost ↦ absurd (unused (rw lost at (rw (found, refresh) at told)))
              | inr (a, there) ↦
                  let issued : (rotate hash db now wall r a (hash presented) token).1 ≡ granted t =
                    rw (there, refresh) at (rw (found, refresh) at told) in
                  rw (found, refresh)
                    (rw (there, refresh)
                      (rotate-IsSpent db now wall r a (hash presented) token t key m hit issued))
            ]
      ]
    where
      unused : refused AuthError.invalid_refresh_token ≡ granted t → ⊥
      unused e = cc

  -- A spent token consumes nothing.
  pub spent-unused :
      (db : AuthDb) (now wall : ℕ) (presented token : String)
      → IsSpent (hash presented) db.tokens
      → refresh hash db now wall presented token ≡ (
        record db { tokens = revoke_replayed db.tokens (hash presented) now },
        refused AuthError.invalid_refresh_token,
      )
  unfolding refresh
  spent-unused db now wall presented token s =
      let none_left : find_where (is_consumable (hash presented) now) db.tokens ≡ none =
        find_where-miss (is_consumable (hash presented) now) db.tokens
          (λ r m. miss r m (Bool-cases (is_consumable (hash presented) now r))) in
      rw (none_left, refresh) refl
    where
      miss :
          (r : RefreshToken)
          → Memᴰ r db.tokens
          → (is_consumable (hash presented) now r ≡ true)
            ⊎ (is_consumable (hash presented) now r ≡ false)
          → is_consumable (hash presented) now r ≡ false
      miss r m (inl hit) = absurd (
          s.dead r m ((eq_iff r.token_hash (hash presented)).0 (ground (arith, hit)))
            (ground (arith, hit)))
      miss r m (inr no_hit) = no_hit

  -- a refresh that was granted spends the token: whatever steps of sessions follow, the same token
  -- is refused, where tokens are known by their digest and a family has one live token at most.
  pub refresh-once :
      (db last : AuthDb) (now wall now' wall' : ℕ) (presented token token' : String)
      (t : TokenResponse)
      → HasDigestKey db.tokens
      → IsSingle db.tokens
      → (refresh hash db now wall presented token).1 ≡ granted t
      → SessionRun hash (refresh hash db now wall presented token).0 last
      → (refresh hash last now' wall' presented token').1 ≡ refused AuthError.invalid_refresh_token
  refresh-once db last now wall now' wall' presented token token' t key one told run =
      let single = TokenMoves-IsSingle (refresh-moves hash db now wall presented token one) one in
      let s =
        TokenMoves-IsSpent (SessionRun-moves run single)
          (refresh-IsSpent db now wall presented token t key told) in
      ap (λ x. x.1) (spent-unused last now' wall' presented token' s)

-- ===== src/Sessions/Families.antt =====
-- What happens to the tokens of sessions: some are revoked, and a new one is added to a family that has
-- no live token. So a family has one live token at most.
use Prim.Native.String.{String}
use rcab.Base.{
  ℕ, ◌≡◌, ◌≢◌, sym, ap, ◌∙◌, Bool, true, false, none, List, ◌∷◌, inl, inr, arith, Memᴰ, Bool-cases,
  exists_where, update_where, mem-update_where,
}
use rcab.Sessions.{RefreshToken, is_token, revoked, is_consumable}

-- Two live tokens of one family are one row.
abbrev pub IsSingle : List RefreshToken → Type 0
IsSingle ts =
    (r s : RefreshToken)
    → Memᴰ r ts
    → Memᴰ s ts
    → r.family_id ≡ s.family_id
    → r.revoked_at ≡ none
    → s.revoked_at ≡ none
    → r ≡ s

-- A family with no live token.
abbrev pub IsEnded : ℕ → List RefreshToken → Type 0
IsEnded family ts = (r : RefreshToken) → Memᴰ r ts → r.family_id ≡ family → r.revoked_at ≢ none

-- A live token after a revocation was there before, and was not hit.
pub still_live :
    (p : RefreshToken → Bool) (now : ℕ) (ts : List RefreshToken) (r : RefreshToken)
    → Memᴰ r (update_where p (revoked now) ts)
    → r.revoked_at ≡ none
    → Memᴰ r ts × (p r ≡ false)
still_live p now ts r m live =
    let (x, mx, e) = mem-update_where p (revoked now) ts m in
    elim (Bool-cases (p x)) [
      | inl hit ↦ absurd (gone x (rw hit at e))
      | inr miss ↦ let same : r ≡ x = rw miss at e in (rw same mx, rw same miss)
    ]
  where
    gone : (x : RefreshToken) → r ≡ revoked now x → ⊥
    gone x e = ground (arith, ap (λ z. z.revoked_at) e, live)

pub revoke-IsSingle :
    (p : RefreshToken → Bool) (now : ℕ) (ts : List RefreshToken)
    → IsSingle ts
    → IsSingle (update_where p (revoked now) ts)
revoke-IsSingle p now ts one r s mr ms same live live' =
    one r s (still_live p now ts r mr live).0 (still_live p now ts s ms live').0 same live live'

insert-IsSingle :
    (n : RefreshToken) (ts : List RefreshToken)
    → IsEnded n.family_id ts
    → IsSingle ts
    → IsSingle (n ∷ ts)
insert-IsSingle n ts over one r s (Memᴰ.head e) (Memᴰ.head h) same live live' = e ∙ sym h
insert-IsSingle n ts over one r s (Memᴰ.head e) (Memᴰ.tail m) same live live' =
    absurd (over s m (sym same ∙ ap (λ z. z.family_id) e) live')
insert-IsSingle n ts over one r s (Memᴰ.tail m) (Memᴰ.head h) same live live' =
    absurd (over r m (same ∙ ap (λ z. z.family_id) h) live)
insert-IsSingle n ts over one r s (Memᴰ.tail m) (Memᴰ.tail k) same live live' =
    one r s m k same live live'

-- After the row that a refresh consumes, its family has no live token.
pub consumed-IsEnded :
    (digest : String) (now : ℕ) (ts : List RefreshToken) (r : RefreshToken)
    → IsSingle ts
    → Memᴰ r ts
    → is_consumable digest now r ≡ true
    → IsEnded r.family_id (update_where (is_consumable digest now) (revoked now) ts)
consumed-IsEnded digest now ts r one m hit s ms same live =
    let (old, miss) = still_live (is_consumable digest now) now ts s ms live in
    let fresh : r.revoked_at ≡ none = ground (arith, hit) in
    let equal : s ≡ r = one s r old m same live fresh in
    clash (sym miss ∙ ap (is_consumable digest now) equal ∙ hit)
  where
    clash : false ≡ true → ⊥
    clash e = cc

-- One write to the table.
pub data TokenMove (ts : List RefreshToken) : List RefreshToken → Type 0 where
  revoke_where :
      (p : RefreshToken → Bool) (now : ℕ) → TokenMove ts (update_where p (revoked now) ts)
  add :
      (n : RefreshToken)
      → exists_where (is_token n.token_hash) ts ≡ false
      → IsEnded n.family_id ts
      → TokenMove ts (n ∷ ts)

pub data TokenMoves (ts : List RefreshToken) : List RefreshToken → Type 0 where
  none_yet : TokenMoves ts ts
  and_move :
      {mid last : List RefreshToken} → TokenMoves ts mid → TokenMove mid last → TokenMoves ts last

TokenMove-IsSingle : {ts us : List RefreshToken} → TokenMove ts us → IsSingle ts → IsSingle us
TokenMove-IsSingle {ts} (revoke_where p now) one = revoke-IsSingle p now ts one
TokenMove-IsSingle {ts} (add n new over) one = insert-IsSingle n ts over one

pub TokenMoves-IsSingle : {ts us : List RefreshToken} → TokenMoves ts us → IsSingle ts → IsSingle us
TokenMoves-IsSingle none_yet one = one
TokenMoves-IsSingle (and_move ms m) one = TokenMove-IsSingle m (TokenMoves-IsSingle ms one)

pub TokenMoves-trans :
    {ts us vs : List RefreshToken} → TokenMoves ts us → TokenMoves us vs → TokenMoves ts vs
TokenMoves-trans a none_yet = a
TokenMoves-trans a (and_move b m) = and_move (TokenMoves-trans a b) m

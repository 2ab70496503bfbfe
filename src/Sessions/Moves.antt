-- ===== src/Sessions/Moves.antt =====
-- Each operation on sessions is a sequence of writes that keep one live token for each family.
use Prim.Native.String.{String}
use rcab.Base.{
  ℕ, ◌||◌, ◌≡◌, ◌==◌, refl, subst, Bool, true, not, Option, none, some, List, inl, inr, Memᴰ,
  Bool-cases, Option-cases, find_where, exists_where, update_where, find_where-mem,
}
use rcab.Sessions.{
  Account, RefreshToken, AuthDb, AuthMethod, Answer, granted, refused, failed, is_token, revoked,
  is_consumable, is_replayed, live_of_family, live_of_user, revoke_replayed, is_account, is_blocked,
  is_e164, codes, new_token, issue_session, or_rollback, rotate, refresh, revoke_presented, revoke,
  login,
}
use rcab.Sessions.Families.{
  IsSingle, IsEnded, consumed-IsEnded, TokenMoves, none_yet, and_move, revoke_where, add,
  TokenMoves-IsSingle, TokenMoves-trans,
}
use rcab.Sessions.Logins.{
  FirebaseToken, find_or_create_user, is_uid, is_phone_of, has_google, is_too_old, session_for,
  exchange_firebase_token, login_with_google, link_google,
}

once :
    {ts : List RefreshToken} (p : RefreshToken → Bool) (now : ℕ)
    → TokenMoves ts (update_where p (revoked now) ts)
once p now = and_move none_yet (revoke_where p now)

revoke_replayed-moves :
    (ts : List RefreshToken) (digest : String) (now : ℕ)
    → TokenMoves ts (revoke_replayed ts digest now)
unfolding revoke_replayed
revoke_replayed-moves ts digest now = elim (Option-cases (find_where (is_replayed digest now) ts)) [
  | inl gone ↦ rw (gone, revoke_replayed) none_yet
  | inr (r, found) ↦ rw (found, revoke_replayed) (once (live_of_family r.family_id) now)
]

module _ (hash : String → String) where
  issue_session-moves :
      (ts : List RefreshToken) (db : AuthDb) (wall : ℕ) (a : Account) (method : AuthMethod)
      (family : ℕ) (token : String)
      → TokenMoves ts db.tokens
      → IsEnded family db.tokens
      → TokenMoves ts (issue_session hash db wall a method family token).0.tokens
  unfolding issue_session
  issue_session-moves ts db wall a method family token before over =
      elim (Bool-cases (exists_where (is_token (hash token)) db.tokens)) [
        | inl old ↦ rw old before
        | inr new ↦
            rw new (and_move before (add (new_token hash wall a method family token) new over))
      ]

  rotate-moves :
      (db : AuthDb) (now wall : ℕ) (r : RefreshToken) (a : Account) (digest token : String)
      → Memᴰ r db.tokens
      → is_consumable digest now r ≡ true
      → IsSingle db.tokens
      → TokenMoves db.tokens (rotate hash db now wall r a digest token).0.tokens
  unfolding rotate
  rotate-moves db now wall r a digest token m hit one =
      let spent = update_where (is_consumable digest now) (revoked now) db.tokens in
      let first : TokenMoves db.tokens spent = once (is_consumable digest now) now in
      let db1 : AuthDb = record db { tokens = spent } in
      elim (Bool-cases (is_blocked a.status)) [
        | inl out ↦ rw out (and_move first (revoke_where (live_of_user r.user_id) now))
        | inr may ↦ rw may (
            kept (issue_session hash db1 wall a r.auth_method r.family_id token) (
              issue_session-moves db.tokens db1 wall a r.auth_method r.family_id token first
                (consumed-IsEnded digest now db.tokens r one m hit)))
      ]
    where
      kept :
          (o : AuthDb × Answer)
          → TokenMoves db.tokens o.0.tokens
          → TokenMoves db.tokens (or_rollback db o).0.tokens
      kept (d, granted t) s = s
      kept (d, refused e) s = s
      kept (d, failed) s = none_yet

  pub refresh-moves :
      (db : AuthDb) (now wall : ℕ) (presented token : String)
      → IsSingle db.tokens
      → TokenMoves db.tokens (refresh hash db now wall presented token).0.tokens
  unfolding refresh
  refresh-moves db now wall presented token one =
      elim (Option-cases (find_where (is_consumable (hash presented) now) db.tokens)) [
        | inl gone ↦ rw (gone, refresh) (revoke_replayed-moves db.tokens (hash presented) now)
        | inr (r, found) ↦
            let (m, hit) = find_where-mem (is_consumable (hash presented) now) db.tokens r found in
            elim (Option-cases (find_where (is_account r.user_id) db.accounts)) [
              | inl lost ↦
                  rw (found, refresh)
                    (rw (lost, refresh) (revoke_replayed-moves db.tokens (hash presented) now))
              | inr (a, there) ↦
                  rw (found, refresh)
                    (rw (there, refresh)
                      (rotate-moves db now wall r a (hash presented) token m hit one))
            ]
      ]

  login-moves :
      (db : AuthDb) (wall : ℕ) (a : Account) (method : AuthMethod) (family : ℕ) (token : String)
      → IsEnded family db.tokens
      → TokenMoves db.tokens (login hash db wall a method family token).0.tokens
  unfolding login
  login-moves db wall a method family token over = elim (Bool-cases (is_blocked a.status)) [
    | inl out ↦ rw out none_yet
    | inr may ↦ rw may (issue_session-moves db.tokens db wall a method family token none_yet over)
  ]

  session_for-moves :
      (db : AuthDb) (wall family : ℕ) (token : String) (o : AuthDb × Option Account)
      → o.0.tokens ≡ db.tokens
      → IsEnded family db.tokens
      → TokenMoves db.tokens (session_for hash wall family token o).0.tokens
  unfolding session_for
  session_for-moves db wall family token (d, none) same over = rw same none_yet
  session_for-moves db wall family token (d, some a) same over =
      subst (λ ts. TokenMoves ts (login hash d wall a AuthMethod.phone family token).0.tokens) same
        (login-moves d wall a AuthMethod.phone family token (rw same over))

find_or_create_user-tokens :
    (db : AuthDb) (id : ℕ) (uid phone : String)
    → (find_or_create_user db id uid phone).0.tokens ≡ db.tokens
unfolding find_or_create_user
find_or_create_user-tokens db id uid phone =
    elim (Option-cases (find_where (is_uid uid) db.accounts)) [
      | inr (a, found) ↦ rw (found, find_or_create_user) refl
      | inl gone ↦
          elim (Bool-cases
            (exists_where (λ a. is_account id a || is_phone_of phone a) db.accounts)) [
              | inl taken ↦ rw (gone, find_or_create_user) (rw taken refl)
              | inr free ↦ rw (gone, find_or_create_user) (rw free refl)
            ]
    ]

exchange-moves :
    (hash : String → String) (db : AuthDb) (wall id : ℕ) (decoded : Option FirebaseToken)
    (family : ℕ) (token : String)
    → IsEnded family db.tokens
    → TokenMoves db.tokens (exchange_firebase_token hash db wall id decoded family token).0.tokens
unfolding exchange_firebase_token
exchange-moves hash db wall id none family token over = none_yet
exchange-moves hash db wall id (some decoded) family token over =
    elim (Option-cases decoded.phone_number) [
      | inl gone ↦ rw (gone, exchange_firebase_token) none_yet
      | inr (phone, given) ↦
          rw (given, exchange_firebase_token)
            (elim (Bool-cases (not (is_e164 (codes phone)) || is_too_old wall decoded.iat)) [
              | inl bad ↦ rw bad none_yet
              | inr good ↦ rw good (
                  session_for-moves hash db wall family token
                    (find_or_create_user db id decoded.uid phone)
                    (find_or_create_user-tokens db id decoded.uid phone) over)
            ])
    ]

google-moves :
    (hash : String → String) (db : AuthDb) (wall : ℕ) (sub : String) (family : ℕ) (token : String)
    → IsEnded family db.tokens
    → TokenMoves db.tokens (login_with_google hash db wall sub family token).0.tokens
unfolding login_with_google
google-moves hash db wall sub family token over =
    elim (Option-cases (find_where (has_google sub) db.accounts)) [
      | inl gone ↦ rw (gone, login_with_google) none_yet
      | inr (a, found) ↦
          rw (found, login_with_google)
            (login-moves hash db wall a AuthMethod.google family token over)
    ]

link_google-tokens :
    (db : AuthDb) (user : ℕ) (sub : String) (email : Option String)
    → (link_google db user sub email).0.tokens ≡ db.tokens
unfolding link_google
link_google-tokens db user sub email =
    elim (Option-cases (find_where (has_google sub) db.accounts)) [
      | inl gone ↦ rw (gone, link_google) refl
      | inr (a, found) ↦ elim (Bool-cases (a.id == user)) [
        | inl mine ↦ rw (found, link_google) (rw mine refl)
        | inr other ↦ rw (found, link_google) (rw other refl)
      ]
    ]

-- What clients may do. A login starts a family of its own.
pub data SessionStep (hash : String → String) (db : AuthDb) : AuthDb → Type 0 where
  exchanged :
      (wall id : ℕ) (decoded : Option FirebaseToken) (family : ℕ) (token : String)
      → IsEnded family db.tokens
      → SessionStep hash db (exchange_firebase_token hash db wall id decoded family token).0
  google :
      (wall : ℕ) (sub : String) (family : ℕ) (token : String)
      → IsEnded family db.tokens
      → SessionStep hash db (login_with_google hash db wall sub family token).0
  refreshed :
      (now wall : ℕ) (presented token : String)
      → SessionStep hash db (refresh hash db now wall presented token).0
  logged_out :
      (now : ℕ) (presented : String) → SessionStep hash db (revoke_presented hash db now presented)
  left :
      (now : ℕ) (presented : String) (user : ℕ)
      → SessionStep hash db (revoke hash db now presented user)
  linked :
      (user : ℕ) (sub : String) (email : Option String)
      → SessionStep hash db (link_google db user sub email).0

pub data SessionRun (hash : String → String) (db : AuthDb) : AuthDb → Type 0 where
  no_step : SessionRun hash db db
  and_then :
      {mid last : AuthDb}
      → SessionRun hash db mid
      → SessionStep hash mid last
      → SessionRun hash db last

module _ {hash : String → String} where
  SessionStep-moves :
      {db db' : AuthDb}
      → SessionStep hash db db'
      → IsSingle db.tokens
      → TokenMoves db.tokens db'.tokens
  SessionStep-moves {db} (exchanged wall id decoded family token over) one =
      exchange-moves hash db wall id decoded family token over
  SessionStep-moves {db} (google wall sub family token over) one =
      google-moves hash db wall sub family token over
  SessionStep-moves {db} (refreshed now wall presented token) one =
      refresh-moves hash db now wall presented token one
  SessionStep-moves {db} (logged_out now presented) one = unfold revoke_presented in once _ now
  SessionStep-moves {db} (left now presented user) one = unfold revoke in once _ now
  SessionStep-moves {db} (linked user sub email) one =
      rw (link_google-tokens db user sub email) none_yet

  pub SessionRun-moves :
      {db db' : AuthDb}
      → SessionRun hash db db'
      → IsSingle db.tokens
      → TokenMoves db.tokens db'.tokens
  SessionRun-moves no_step one = none_yet
  SessionRun-moves (and_then run step) one =
      let before = SessionRun-moves run one in
      TokenMoves-trans before (SessionStep-moves step (TokenMoves-IsSingle before one))

  -- after any sequence of logins, refreshes, revocations and links that starts with one live token
  -- a family at most, two live tokens of one family are the same row.
  pub SessionRun-IsSingle :
      {db db' : AuthDb} → SessionRun hash db db' → IsSingle db.tokens → IsSingle db'.tokens
  SessionRun-IsSingle run one = TokenMoves-IsSingle (SessionRun-moves run one) one

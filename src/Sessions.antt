-- ===== src/Sessions.antt =====
-- apps/api/src/modules/auth/auth.service.ts: accounts, and the refresh tokens of their sessions. A token
-- is stored by its digest; the digest is a function of the token. The verifiers of Firebase and Google
-- are other parties: each function takes what they found out, or that they refused. `now` is the clock
-- of the database and `wall` the one of the process.
pub mod Logins
pub mod Families
pub mod Moves
pub mod Reuse
pub mod Replay
use Prim.Native.String.{String}
use Prim.Native.Char.{code}
use text.Mathlib.Text.{◌==◌ as str_eq}
use rcab.Base.{
  ℕ, ◌+◌, ◌/◌, ◌==◌, ◌&&◌, ◌||◌, not, leb, ltb, Bool, true, false, Option, none, some, List, [],
  ◌∷◌, is_some, if◌then◌else◌, length, find_where, exists_where, update_where,
}

pub data AuthMethod : Type 0 where
  phone google : AuthMethod

pub data Role : Type 0 where
  client driver : Role

pub data AccountStatus : Type 0 where
  active suspended deleted : AccountStatus

-- A row of `app_user`, with the columns that sessions use.
pub record Account : Type 0 where
  pub id : ℕ
  pub firebase_uid : String
  pub phone_e164 : String
  pub google_sub : Option String
  pub email : Option String
  pub role : Role
  pub status : AccountStatus

-- A row of `auth_refresh_token`; its primary key is the digest.
pub record RefreshToken : Type 0 where
  pub token_hash : String
  pub family_id : ℕ
  pub user_id : ℕ
  pub auth_method : AuthMethod
  pub expires_at : ℕ
  pub revoked_at : Option ℕ

pub record AuthDb : Type 0 where
  pub accounts : List Account
  pub clients : List ℕ
  pub tokens : List RefreshToken

pub data AuthError : Type 0 where
  invalid_firebase_token invalid_refresh_token account_disabled not_found google_already_linked :
      AuthError

-- The claims that `signAccessToken` signs.
pub record AccessTokenClaims : Type 0 where
  pub sub : ℕ
  pub role : Role
  pub auth_method : AuthMethod

pub record TokenResponse : Type 0 where
  pub access_token : AccessTokenClaims
  pub refresh_token : String
  pub user : Account

-- A session, a typed refusal, or an error of the database that a constraint raised.
pub data Answer : Type 0 where
  granted : TokenResponse → Answer
  refused : AuthError → Answer
  failed : Answer

abbrev pub refresh_ttl_ms : ℕ
refresh_ttl_ms = 2592000000

abbrev pub reuse_grace_ms : ℕ
reuse_grace_ms = 10000

abbrev pub is_blocked : AccountStatus → Bool
is_blocked active = false
is_blocked suspended = true
is_blocked deleted = true

-- `PHONE_E164_RE`, on the characters of the text.
abbrev pub codes : String → List ℕ
codes String.[] = []
codes (String.◌∷◌ c s) = code c ∷ codes s

abbrev pub is_digit : ℕ → Bool
is_digit c = leb b'0' c && leb c b'9'

unfoldable pub all_digits : List ℕ → Bool
all_digits [] = true
all_digits (c ∷ cs) = is_digit c && all_digits cs

unfoldable pub is_e164 : List ℕ → Bool
unfolding all_digits
is_e164 (plus ∷ first ∷ rest) =
    plus == b'+'
    && leb b'1' first
    && leb first b'9'
    && all_digits rest
    && leb 7 (length rest)
    && leb (length rest) 14
is_e164 _ = false

abbrev pub is_token : String → RefreshToken → Bool
is_token digest r = str_eq r.token_hash digest

abbrev pub revoked : ℕ → RefreshToken → RefreshToken
revoked now r = record r { revoked_at = some now }

-- A row that `refresh` may consume.
abbrev pub is_consumable : String → ℕ → RefreshToken → Bool
is_consumable digest now r = is_token digest r && not (is_some r.revoked_at) && ltb now r.expires_at

-- A token that was consumed or revoked longer ago than the grace.
abbrev pub revoked_before : ℕ → Option ℕ → Bool
revoked_before now none = false
revoked_before now (some t) = leb (t + reuse_grace_ms) now

abbrev pub is_replayed : String → ℕ → RefreshToken → Bool
is_replayed digest now r = is_token digest r && revoked_before now r.revoked_at

abbrev pub live_of_family : ℕ → RefreshToken → Bool
live_of_family family r = not (is_some r.revoked_at) && r.family_id == family

abbrev pub live_of_user : ℕ → RefreshToken → Bool
live_of_user user r = r.user_id == user && not (is_some r.revoked_at)

-- The update of a refresh that consumed nothing: a replay ends the family.
unfoldable pub revoke_replayed : List RefreshToken → String → ℕ → List RefreshToken
revoke_replayed ts digest now = elim (find_where (is_replayed digest now) ts) [
  | none ↦ ts
  | some r ↦ update_where (live_of_family r.family_id) (revoked now) ts
]

abbrev pub is_account : ℕ → Account → Bool
is_account id a = a.id == id

-- `ROLLBACK` after an error.
abbrev pub or_rollback : AuthDb → AuthDb × Answer → AuthDb × Answer
or_rollback start (db, granted t) = (db, granted t)
or_rollback start (db, refused e) = (db, refused e)
or_rollback start (db, failed) = (start, failed)

abbrev pub token_response : Account → AuthMethod → String → TokenResponse
token_response a method token = record {
  access_token = record { sub = a.id; role = a.role; auth_method = method };
  refresh_token = token;
  user = a;
}

module _ (hash : String → String) where
  abbrev pub new_token : ℕ → Account → AuthMethod → ℕ → String → RefreshToken
  new_token wall a method family token = record {
    token_hash = hash token;
    family_id = family;
    user_id = a.id;
    auth_method = method;
    expires_at = wall + refresh_ttl_ms;
    revoked_at = none;
  }

  -- `issueSession`; `token` is the random value.
  unfoldable pub issue_session : AuthDb → ℕ → Account → AuthMethod → ℕ → String → AuthDb × Answer
  issue_session db wall a method family token =
      if exists_where (is_token (hash token)) db.tokens then (db, failed) else (
        record db { tokens = new_token wall a method family token ∷ db.tokens },
        granted (token_response a method token),
      )

  -- The transaction of `refresh` with the row that it consumed; a failure rolls it back.
  unfoldable pub rotate :
      AuthDb → ℕ → ℕ → RefreshToken → Account → String → String → AuthDb × Answer
  unfolding issue_session
  rotate db now wall r a digest token =
      let db1 = record db {
        tokens = update_where (is_consumable digest now) (revoked now) db.tokens;
      } in
      if is_blocked a.status
      then (
        record db1 { tokens = update_where (live_of_user r.user_id) (revoked now) db1.tokens },
        refused account_disabled,
      )
      else or_rollback db (issue_session db1 wall a r.auth_method r.family_id token)

  -- `refresh`. Every token has its account, by the foreign key; without one it would not be consumed.
  unfoldable pub refresh : AuthDb → ℕ → ℕ → String → String → AuthDb × Answer
  unfolding rotate revoke_replayed
  refresh db now wall presented token =
      let digest = hash presented in
      let unused : AuthDb × Answer = (
        record db { tokens = revoke_replayed db.tokens digest now },
        refused invalid_refresh_token,
      ) in
      elim (find_where (is_consumable digest now) db.tokens) [
        | none ↦ unused
        | some r ↦ elim (find_where (is_account r.user_id) db.accounts) [
          | none ↦ unused
          | some a ↦ rotate db now wall r a digest token
        ]
      ]

  -- `revokePresented`.
  unfoldable pub revoke_presented : AuthDb → ℕ → String → AuthDb
  revoke_presented db now presented = record db {
    tokens =
        update_where (λ r. is_token (hash presented) r && not (is_some r.revoked_at)) (revoked now)
          db.tokens;
  }

  -- `revoke`.
  unfoldable pub revoke : AuthDb → ℕ → String → ℕ → AuthDb
  revoke db now presented user = record db {
    tokens =
        update_where
          (λ r. is_token (hash presented) r && r.user_id == user && not (is_some r.revoked_at))
          (revoked now) db.tokens;
  }

  -- A login: a session in a family of its own.
  unfoldable pub login : AuthDb → ℕ → Account → AuthMethod → ℕ → String → AuthDb × Answer
  unfolding issue_session
  login db wall a method family token =
      if is_blocked a.status
      then (db, refused account_disabled)
      else issue_session db wall a method family token

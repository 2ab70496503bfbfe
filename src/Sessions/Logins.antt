-- ===== src/Sessions/Logins.antt =====
-- The ways into a session: the exchange of a Firebase token, and Google (`linkGoogle`,
-- `loginWithGoogle`) of auth.service.ts.
use Prim.Native.String.{String}
use text.Mathlib.Text.{◌==◌ as str_eq}
use rcab.Base.{
  ℕ, ◌+◌, ◌/◌, ◌==◌, ◌||◌, not, ltb, Bool, false, Option, none, some, ◌∷◌, if◌then◌else◌,
  find_where, exists_where, update_where,
}
use rcab.Sessions.{
  Account, AccountStatus, AuthDb, AuthError, AuthMethod, Role, Answer, refused, failed, codes,
  is_account, is_e164, login,
}

-- A verified Firebase token; `iat` is in seconds.
pub record FirebaseToken : Type 0 where
  pub uid : String
  pub phone_number : Option String
  pub iat : Option ℕ

abbrev pub is_uid : String → Account → Bool
is_uid uid a = str_eq a.firebase_uid uid

abbrev pub is_phone_of : String → Account → Bool
is_phone_of phone a = str_eq a.phone_e164 phone

abbrev pub has_google : String → Account → Bool
has_google sub a = elim a.google_sub [ none ↦ false | some s ↦ str_eq s sub ]

abbrev pub new_account : ℕ → String → String → Account
new_account id uid phone = record {
  id = id;
  firebase_uid = uid;
  phone_e164 = phone;
  google_sub = none;
  email = none;
  role = Role.client;
  status = AccountStatus.active;
}

-- `findOrCreateUser`; none is an error of the unique constraints, with nothing kept.
unfoldable pub find_or_create_user : AuthDb → ℕ → String → String → AuthDb × Option Account
find_or_create_user db id uid phone = elim (find_where (is_uid uid) db.accounts) [
  | some a ↦ (db, some a)
  | none ↦
      if exists_where (λ a. is_account id a || is_phone_of phone a) db.accounts
      then (db, none)
      else (
        record db { accounts = new_account id uid phone ∷ db.accounts; clients = id ∷ db.clients },
        some (new_account id uid phone),
      )
]

abbrev pub max_age_s : ℕ
max_age_s = 3600

abbrev pub is_too_old : ℕ → Option ℕ → Bool
is_too_old wall none = false
is_too_old wall (some iat) = ltb (iat + max_age_s) (wall / 1000)

module _ (hash : String → String) where
  unfoldable pub session_for : ℕ → ℕ → String → AuthDb × Option Account → AuthDb × Answer
  unfolding login
  session_for wall family token (db, none) = (db, failed)
  session_for wall family token (db, some a) = login hash db wall a AuthMethod.phone family token

  -- `exchangeFirebaseToken`; none is a token that Firebase did not verify.
  unfoldable pub exchange_firebase_token :
      AuthDb → ℕ → ℕ → Option FirebaseToken → ℕ → String → AuthDb × Answer
  unfolding find_or_create_user session_for is_e164
  exchange_firebase_token db wall id none family token =
      (db, refused AuthError.invalid_firebase_token)
  exchange_firebase_token db wall id (some decoded) family token = elim decoded.phone_number [
    | none ↦ (db, refused AuthError.invalid_firebase_token)
    | some phone ↦
        if not (is_e164 (codes phone)) || is_too_old wall decoded.iat
        then (db, refused AuthError.invalid_firebase_token)
        else session_for wall family token (find_or_create_user db id decoded.uid phone)
  ]

  -- `loginWithGoogle`, with the verified identity.
  unfoldable pub login_with_google : AuthDb → ℕ → String → ℕ → String → AuthDb × Answer
  unfolding login
  login_with_google db wall sub family token = elim (find_where (has_google sub) db.accounts) [
    | none ↦ (db, refused AuthError.not_found)
    | some a ↦ login hash db wall a AuthMethod.google family token
  ]

-- `linkGoogle`, with the verified identity; none is success.
unfoldable pub link_google : AuthDb → ℕ → String → Option String → AuthDb × Option AuthError
link_google db user sub email =
    let linked : AuthDb = record db {
      accounts =
          update_where (is_account user) (λ a. record a { google_sub = some sub; email = email })
            db.accounts;
    } in
    elim (find_where (has_google sub) db.accounts) [
      | none ↦ (linked, none)
      | some a ↦ if a.id == user then (linked, none) else (db, some AuthError.google_already_linked)
    ]

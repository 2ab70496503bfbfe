-- ===== src/Tests/Sessions.antt =====
-- A login, its refresh, and a second use of the first token.
use Prim.Native.String.{String}
use rcab.Base.{ℕ, ◌≡◌, refl, none, some, [], ◌∷◌, Memᴰ, arith}
use rcab.Sessions.{
  Account, AccountStatus, Role, AuthMethod, AuthDb, AuthError, RefreshToken, granted, refused,
  token_response, new_token, revoked, refresh,
}
use rcab.Sessions.Families.{IsSingle}
use rcab.Sessions.Logins.{FirebaseToken, exchange_firebase_token}
use rcab.Sessions.Moves.{SessionRun, no_step, and_then, exchanged, refreshed, SessionRun-IsSingle}
use rcab.Sessions.Reuse.{HasDigestKey, refresh-once}
use rcab.Sessions.Replay.{IsReuse, refresh-IsReuse}

abbrev digest : String → String
digest t = t

abbrev rider : Account
rider = record {
  id = 100;
  firebase_uid = "u1";
  phone_e164 = "+911234567890";
  google_sub = none;
  email = none;
  role = Role.client;
  status = AccountStatus.active;
}

abbrev nobody : AuthDb
nobody = record { accounts = rider ∷ []; clients = 100 ∷ []; tokens = [] }

abbrev verified : FirebaseToken
verified = record { uid = "u1"; phone_number = some "+911234567890"; iat = some 1000 }

abbrev logged_in : AuthDb
logged_in = (exchange_firebase_token digest nobody 1000000 0 (some verified) 1 "t1").0

abbrev rotated : AuthDb
rotated = (refresh digest logged_in 1001000 1001000 "t1" "t2").0

session_run : SessionRun digest nobody rotated
session_run =
    and_then (and_then no_step (exchanged 1000000 0 (some verified) 1 "t1" (λ r m. elim m [ ])))
      (refreshed 1001000 1001000 "t1" "t2")

SessionRun-IsSingle_example : IsSingle rotated.tokens
SessionRun-IsSingle_example = SessionRun-IsSingle session_run (λ r s m k. elim m [ ])

abbrev first_token : RefreshToken
first_token = new_token digest 1000000 rider AuthMethod.phone 1 "t1"

abbrev one_session : AuthDb
one_session = record nobody { tokens = first_token ∷ [] }

one_key : HasDigestKey one_session.tokens
one_key r s (Memᴰ.head a) (Memᴰ.head b) e = cc
one_key r s (Memᴰ.head a) (Memᴰ.tail m) e = elim m [ ]
one_key r s (Memᴰ.tail m) k e = elim m [ ]

one-IsSingle : IsSingle one_session.tokens
one-IsSingle r s (Memᴰ.head a) (Memᴰ.head b) e live live' = cc
one-IsSingle r s (Memᴰ.head a) (Memᴰ.tail m) e live live' = elim m [ ]
one-IsSingle r s (Memᴰ.tail m) k e live live' = elim m [ ]

refreshed_once :
    (refresh digest one_session 1001000 1001000 "t1" "t2").1
    ≡ granted (token_response rider AuthMethod.phone "t2")
unfolding refresh rcab.Base.find_where rcab.Base.exists_where rcab.Base.update_where
refreshed_once = refl

refresh-once_example :
    (refresh digest
      (refresh digest one_session 1001000 1001000 "t1" "t2").0
      1002000
      1002000
      "t1"
      "t3").1
    ≡ refused AuthError.invalid_refresh_token
refresh-once_example =
    refresh-once digest one_session (refresh digest one_session 1001000 1001000 "t1" "t2").0 1001000
      1001000 1002000 1002000 "t1" "t2" "t3" (token_response rider AuthMethod.phone "t2") one_key
      one-IsSingle refreshed_once no_step

abbrev stolen : RefreshToken
stolen = revoked 1001000 first_token

abbrev after_theft : AuthDb
after_theft = record nobody { tokens = stolen ∷ [] }

theft_key : HasDigestKey after_theft.tokens
theft_key r s (Memᴰ.head a) (Memᴰ.head b) e = cc
theft_key r s (Memᴰ.head a) (Memᴰ.tail m) e = elim m [ ]
theft_key r s (Memᴰ.tail m) k e = elim m [ ]

refresh-IsReuse_example :
    IsReuse after_theft 2000000 stolen 1001000
      (refresh digest after_theft 2000000 2000000 "t1" "t3")
refresh-IsReuse_example =
    refresh-IsReuse digest after_theft 2000000 2000000 "t1" "t3" stolen 1001000 theft_key
      (Memᴰ.head refl) refl refl

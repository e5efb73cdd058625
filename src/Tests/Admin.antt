-- ===== src/Tests/Admin.antt =====
-- Runs of what admins do, and of the router.
use kalki_chat.Base.{
  drop, take, ◌%◌, ◌≡◌, refl, true, none, some, Option, [], ◌∷◌, ◌++◌, arith, Text, lit, eq_text,
  length,
}
use kalki_chat.Env.{Env}
use kalki_chat.Db.{World, done, refused, Metadata, text, flag}
use kalki_chat.Audit.{AuditEvent, admin_event, audit_row}
use kalki_chat.Audit.Sanitize.{meta_at, audit_row-redacted}
use kalki_chat.Crypto.Jwt.{Claims, Json, compact, sign, verify, split_on, stamp}
use kalki_chat.Crypto.Seal.{take-exact, drop-exact, totp_open_sealed, aes_gcm_open}
use kalki_chat.Crypto.Jwt.Laws.{IsLawful}
use kalki_chat.Auth.Refresh.{refresh_issue}
use kalki_chat.Api.Http.{http, Code, invalid_session}
use kalki_chat.Api.Session.{
  device_claims, LoginRequest, LoginResponse, auth_login, authenticate, enrol,
}
use kalki_chat.Api.Middleware.{auth_middleware, admin_auth_middleware, bearer, split_space}
use kalki_chat.Api.AdminAuth.{
  AdminLoginRequest, admin_login, admin_totp, pre_signer, pre_claims, session_claims,
}
use kalki_chat.Api.AdminAuth.TwoStep.{
  FirstStep, SecondStep, IsReadable, two_step_same_admin, pre2fa_opens_user_routes,
}
use kalki_chat.Api.AdminUsers.{
  admin_suspend_user, CreateRequest, CreateResponse, create_account, is_login, admin_create_user,
  generate_password, alphabet,
}
use kalki_chat.Api.AdminUsers.Suspension.{log_in, IsOfOther, suspended-IsOfOther}
use kalki_chat.Api.AdminUsers.Create.{
  Created, admin_create_user-Created, IsUniform, IsSpoken, generate_password_total,
}
use kalki_chat.Api.AdminUsers.Audited.{perform, suspend}
use kalki_chat.Api.Router.{admin_route, post_suspend, Credentials, serve}
use kalki_chat.Api.Router.Guards.{IsAdmitted, serve_guarded}
use kalki_chat.Api.Router.Trail.{serve-Grows}
use kalki_chat.Api.Router.Growth.{Grows}
use kalki_chat.Tests.{env, alice, boss, key, fill, user, tables, world, boss_claims, signer}
use kalki_chat.Tests.Tokens.{env-IsLawful, same}

-- Claims are written as their subject, behind its length, and their identifier.
abbrev read_claims : Text → Option Claims
read_claims [] = none
read_claims (n ∷ s) = some (stamp env (pre_signer signer) (drop n s) (pre_claims (take n s)))

abbrev json : Json
json = record {
  encode_header = λ kid. kid;
  encode_claims = λ c. length c.sub ∷ (c.sub ++ c.jti);
  decode_claims = read_claims;
}

json-IsReadable : IsReadable env json signer
json-IsReadable id jti =
    rw (take-exact (length id) id jti refl, drop-exact (length id) id jti refl) refl

-- One admin, whose sealed secret opens, and a second user.
abbrev open_env : Env
open_env = record env { totp_enc_key_hex = key; gcm_open = λ k n c a. some (lit "secret") }

abbrev office : World
office = record world {
  tables = record tables {
    users = user ∷ record user { id = lit "bob"; login = lit "bob" } ∷ [];
    admins =
        record {
          id = boss;
          email = lit "boss@x";
          password_hash = lit "password-1";
          totp_secret_enc = fill 40 1;
          role = lit "owner";
          last_login_at = none;
        }
        ∷ [];
  };
}

abbrev credentials : AdminLoginRequest
credentials = record { email = lit "boss@x"; password = lit "password-1" }

abbrev jti : Text
jti = env.url_encode (7 ∷ [])

abbrev cookie : Text
cookie = compact env json (pre_signer signer) (stamp env (pre_signer signer) jti (pre_claims boss))

abbrev session : Text
session = compact env json signer (stamp env signer jti (session_claims boss))

first_step : admin_login env json (some signer) (some credentials) office ≡ (done cookie, office)
unfolding admin_login sign eq_text
first_step = refl

abbrev entered : World
entered = (admin_totp open_env json (some signer) (some cookie) (some (lit "123456")) office).1

second_step :
    admin_totp open_env json (some signer) (some cookie) (some (lit "123456")) office
    ≡ (done session, entered)
unfolding admin_totp sign verify split_on eq_text totp_open_sealed aes_gcm_open
second_step = refl

open_env-IsLawful : IsLawful open_env signer
open_env-IsLawful = record {
  no_dot = env-IsLawful.no_dot;
  decodes = env-IsLawful.decodes;
  verifies = env-IsLawful.verifies;
}

two_step_same_admin_example :
    (first : FirstStep env json signer credentials office cookie) × (c : Claims)
    × (second : SecondStep open_env json signer cookie (lit "123456") office session c) × (c.sub
        ≡ first.admin.id)
    × (sign open_env json signer (session_claims first.admin.id) ≡ some session)
two_step_same_admin_example =
    two_step_same_admin env open_env json signer credentials cookie (lit "123456") session office
      office office entered (record { url_encode = refl; ed25519_sign = refl }) open_env-IsLawful
      json-IsReadable first_step second_step

pre2fa_opens_user_routes_example :
    (c : Claims) × (c.owner ≡ lit "admin-pre2fa")
    × ((auth_middleware env json (some signer) (lit "Bearer " ++ cookie) office).0 ≡ done c)
    × ((admin_auth_middleware env json (some signer) (some cookie) [] office).0
        ≡ refused (http 401 invalid_session))
pre2fa_opens_user_routes_example =
    pre2fa_opens_user_routes env env json signer credentials cookie [] office office office same
      env-IsLawful json-IsReadable first_step (omega arith) (omega arith)

abbrev suspended : World
suspended = (admin_suspend_user env boss_claims (lit "bob") office).1

suspends : admin_suspend_user env boss_claims (lit "bob") office ≡ (done tt, suspended)
unfolding admin_suspend_user
suspends = refl

abbrev login : LoginRequest
login = record {
  user_id = alice;
  password = lit "password-1";
  device = record {
    name = lit "tablet";
    platform = lit "ios";
    identity_ed25519 = key;
    identity_x25519 = key;
    fcm_token = [];
    apns_token = lit "a";
  };
}

abbrev access : Text
access = compact env json signer (
    stamp env signer jti
      (device_claims (lit "dev_" ++ 0 ∷ []) alice (lit "user") (lit "kalki.user")))

abbrev response : LoginResponse
response = record {
  access_token = access;
  refresh_token = 2 ∷ b'.' ∷ 54 ∷ [];
  device_id = lit "dev_" ++ 0 ∷ [];
  expires_in = 86400;
  must_change_password = true;
}

logged :
    auth_login env json signer (some login) suspended
    ≡ (done response, (auth_login env json signer (some login) suspended).1)
unfolding auth_login authenticate enrol refresh_issue sign eq_text admin_suspend_user
logged = refl

suspended-IsOfOther_example : IsOfOther env (lit "bob") suspended (log_in login) response
suspended-IsOfOther_example =
    suspended-IsOfOther env env boss_claims (lit "bob") json signer office suspended
      (auth_login env json signer (some login) suspended).1 (log_in login) response suspends refl
      logged

abbrev performed : World
performed = (perform env boss_claims (suspend alice) office).1

abbrev anybody : Credentials
anybody = record { authorization = lit "Bearer nothing"; session = none }

anybody-refused : ¬ (IsAdmitted env json signer anybody (admin_route (post_suspend alice)))
unfolding verify split_on bearer split_space eq_text
anybody-refused (c, e, o) = cc

serve_guarded_example :
    (code : Code) × (serve env json signer anybody (admin_route (post_suspend alice)) office
      ≡ (refused (http 401 code), office))
serve_guarded_example =
    serve_guarded env json signer anybody (admin_route (post_suspend alice)) office anybody-refused

serve-Grows_example :
    Grows env office (serve env json signer anybody (admin_route (post_suspend alice)) office).1
serve-Grows_example = serve-Grows env json signer anybody (admin_route (post_suspend alice)) office

abbrev request : CreateRequest
request = record { login = lit "carol"; initial_password = lit "password-12" }

abbrev created : World
created = (admin_create_user env boss_claims (some request) office).1

abbrev carol : CreateResponse
carol = record { id = lit "usr_" ++ env.uuid 0; login = lit "carol"; initial_password = none }

added : admin_create_user env boss_claims (some request) office ≡ (done carol, created)
unfolding eq_text admin_create_user create_account is_login
added = refl

admin_create_user-Created_example : Created env request office created carol
admin_create_user-Created_example =
    admin_create_user-Created env boss_claims request office created carol added

remainder-IsUniform : IsUniform env
remainder-IsUniform = record { below = λ i m k some_m h. ground (arith, h, some_m) }

generate_password_total_example :
    (p : Text) × (generate_password env 16 ≡ some p) × (length p ≡ 16) × IsSpoken p
generate_password_total_example =
    generate_password_total env 16 remainder-IsUniform (λ i. (i % length alphabet, refl))

abbrev metadata : Metadata
metadata = (lit "password", text (lit "x")) ∷ (lit "ok", flag true) ∷ []

abbrev event : AuditEvent
event = admin_event boss (lit "user.create") (lit "user") alice metadata

audit_row-redacted_example :
    meta_at (lit "password") (audit_row env event).metadata ≡ some (text (lit "<redacted>"))
unfolding eq_text
audit_row-redacted_example = audit_row-redacted env event (lit "password")

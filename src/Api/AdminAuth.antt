-- ===== src/Api/AdminAuth.antt =====
-- The two steps of an admin's login (adminLogin and adminTOTP of backend/internal/api/admin.go), and
-- the registration of an admin's device (backend/internal/api/admin_device_register.go).
use kalki_chat.Base.{
  ℕ, ◌*◌, Bool, true, false, not, ◌&&◌, ◌||◌, Option, none, some, List, [], ◌∷◌, ◌++◌, ◌==◌,
  if◌then◌else◌, is_empty, length, Text, lit, eq_text, find_row, update_rows,
}
use kalki_chat.Env.{Env, second}
use kalki_chat.Db.{
  Tables, Admin, text, World, M, Outcome, done, refused, pure, refuse, ◌>>=◌, ◌>>◌, require, need,
  query, exec, try_exec, on_error,
}
use kalki_chat.Auth.Refresh.{refresh_issue}
use kalki_chat.Audit.{record_event, admin_event}
use kalki_chat.Crypto.Jwt.{Claims, Signer, Json, sign, verify}
use kalki_chat.Crypto.Seal.{Opened, ok, err, totp_open_sealed}
use kalki_chat.Api.Http.{
  H, HttpError, http, db_500, bad_json, bad_credentials, sign_error, pre2fa_required, pre2fa_bad,
  admin_missing, totp_key, totp_decrypt, bad_totp, missing_fields, bad_platform, bad_key,
  refresh_error, panicked,
}
use kalki_chat.Api.Middleware.{verified_or}
use kalki_chat.Api.Session.{
  DeviceRequest, valid_platform, password_matches, key_32, new_device, insert_device, device_claims,
  expires_in,
}
pub mod TwoStep
pub mod Register

pub record AdminLoginRequest : Type 0 where
  pub email : Text
  pub password : Text

-- The signer that is made for the first step: tokens are good for 5 minutes.
abbrev pub pre_signer : Signer → Signer
pre_signer s = record s { ttl = 5 * 60 * second }

abbrev pub has_email : Text → Admin → Bool
has_email email a = eq_text a.email email

abbrev pub is_admin_row : Text → Admin → Bool
is_admin_row id a = eq_text a.id id

abbrev pub set_admin_login : ℕ → Admin → Admin
set_admin_login t a = record a { last_login_at = some t }

-- The claims of either step's token: the first is no admin's yet.
abbrev pub pre_claims : Text → Claims
pre_claims id = device_claims id id (lit "admin-pre2fa") (lit "kalki.admin-pre2fa")

abbrev pub session_claims : Text → Claims
session_claims id = device_claims id id (lit "admin") (lit "kalki.admin")

-- `adminLogin`: call 0. The outcome is the cookie `admin_pre2fa`. Without a signing key the code
-- dereferences nil, which the router's Recoverer turns into a 500.
unfoldable pub admin_login : Env → Json → Option Signer → Option AdminLoginRequest → H Text
admin_login v j signer body = do
  r ← need body (http 400 bad_json)
  found ← query v 0 db_500 (λ t. find_row (has_email (v.to_lower r.email)) t.admins)
  a ← need found (http 401 bad_credentials)
  require (password_matches v r.password a.password_hash) (http 401 bad_credentials)
  s ← need signer (http 500 panicked)
  need (sign v j (pre_signer s) (pre_claims a.id)) (http 500 sign_error)

-- `hex.DecodeString` of the configured key, and its length.
abbrev pub totp_enc_key : Env → Option Text
totp_enc_key v = elim (v.hex_decode v.totp_enc_key_hex) [
  | none ↦ none
  | some k ↦ if length k == 32 then some k else none
]

abbrev pub opened : Opened → Option Text
opened (ok s) = some s
opened (err e) = none

-- The check of a TOTP code (`TOTPVerify`) against the sealed secret of an admin.
abbrev pub check_totp : Env → Admin → Text → H (Unit {0})
check_totp v a code = do
  key ← need (totp_enc_key v) (http 500 totp_key)
  secret ← need (opened (totp_open_sealed v key a.totp_secret_enc)) (http 500 totp_decrypt)
  require (v.totp_valid code secret v.now) (http 401 bad_totp)

abbrev pub touch_admin : Env → ℕ → Text → H (Unit {0})
touch_admin v n id = try_exec v n (λ t.
    some (record t { admins = update_rows (is_admin_row id) (set_admin_login v.now) t.admins }))

-- `adminTOTP`: calls 0 and 1. The outcome is the cookie `admin_session`.
unfoldable pub admin_totp :
    Env → Json → Option Signer → (cookie : Option Text) → (code : Option Text) → H Text
admin_totp v j signer cookie code = do
  token ← need cookie (http 401 pre2fa_required)
  s ← need signer (http 500 panicked)
  c ← verified_or (verify v j (pre_signer s) token) (http 401 pre2fa_bad)
  require (eq_text c.owner (lit "admin-pre2fa")) (http 401 pre2fa_bad)
  n ← need code (http 400 bad_json)
  found ← query v 0 (http 401 admin_missing) (λ t. find_row (is_admin_row c.sub) t.admins)
  a ← need found (http 401 admin_missing)
  check_totp v a n
  session ← need (sign v j s (session_claims c.sub)) (http 500 sign_error)
  touch_admin v 1 c.sub
  pure session

pub record RegisterRequest : Type 0 where
  pub email : Text
  pub password : Text
  pub totp_code : Text
  pub device : DeviceRequest

pub record RegisterResponse : Type 0 where
  pub access_token : Text
  pub refresh_token : Text
  pub device_id : Text
  pub admin_id : Text
  pub expires_in : ℕ

-- The first half of `adminDeviceRegister`: the three factors, with call 0.
unfoldable pub identify_admin : Env → RegisterRequest → H Admin
identify_admin v r = do
  let email = v.to_lower (v.trim_space r.email)
  require (not (is_empty email) && (not (is_empty r.password) && not (is_empty r.totp_code)))
      (http 400 missing_fields)
  require (valid_platform r.device.platform) (http 400 bad_platform)
  found ← query v 0 db_500 (λ t. find_row (has_email email) t.admins)
  a ← need found (http 401 bad_credentials)
  require (password_matches v r.password a.password_hash) (http 401 bad_credentials)
  check_totp v a r.totp_code
  pure a

-- The second half: the device and its tokens, with calls 1 to 3.
unfoldable pub enrol_admin : Env → Json → Signer → RegisterRequest → Admin → H RegisterResponse
enrol_admin v j s r a = do
  ed ← need (key_32 v r.device.identity_ed25519) (http 400 bad_key)
  x ← need (key_32 v r.device.identity_x25519) (http 400 bad_key)
  let id = lit "dev_" ++ v.uuid 0
  exec v 1 db_500 (insert_device (new_device v id (lit "admin") a.id r.device ed x))
  access ←
      need (sign v j s (device_claims id a.id (lit "admin") (lit "kalki.admin")))
        (http 500 sign_error)
  refresh ← on_error (λ e. http 500 refresh_error) (refresh_issue v 2 1 id [] v.refresh_ttl)
  touch_admin v 3 a.id
  record_event v (
      admin_event a.id (lit "admin_device.register") (lit "device") id
        ((lit "platform", text r.device.platform) ∷ (lit "name", text r.device.name) ∷ []))
  pure (record {
    access_token = access;
    refresh_token = refresh;
    device_id = id;
    admin_id = a.id;
    expires_in = expires_in v;
  })

-- `adminDeviceRegister`
unfoldable pub admin_device_register :
    Env → Json → Signer → Option RegisterRequest → H RegisterResponse
unfolding identify_admin enrol_admin
admin_device_register v j s body = do
  r ← need body (http 400 bad_json)
  a ← identify_admin v r
  enrol_admin v j s r a

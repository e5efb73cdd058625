-- ===== src/Api/Session.antt =====
-- backend/internal/api/auth.go: login, refresh and logout of a user's device.
use kalki_chat.Base.{
  ℕ, suc, ◌+◌, ◌/◌, Bool, true, false, not, ◌&&◌, ◌||◌, Option, none, some, List, [], ◌∷◌, ◌++◌,
  leb, ◌==◌, if◌then◌else◌, is_none, is_some, is_empty, length, Text, lit, eq_text, find_row,
  exists_row, update_rows,
}
use mathlib.Core.Option
use kalki_chat.Env.{Env, second}
use kalki_chat.Db.{
  Tables, User, Device, Conversation, LoginFailure, has_device, has_user, has_conversation, World,
  M, Outcome, done, refused, pure, refuse, ◌>>=◌, ◌>>◌, require, need, query, exec, try_exec,
  on_error,
}
use kalki_chat.Messages.{is_device, is_live_device}
use kalki_chat.Auth.Refresh.{
  RefreshError, Rotated, refresh_issue, refresh_rotate, refresh_revoke_device,
}
use kalki_chat.Crypto.Jwt.{Claims, Signer, Json, sign}
use kalki_chat.Api.Http.{
  H, HttpError, http, db_500, nullable, bad_json, missing_fields, bad_platform, bad_credentials,
  account_not_active, bad_key, sign_error, refresh_error, invalid_refresh, device_gone,
  missing_token,
}
pub mod Login
pub mod Ending

-- The part of `loginRequest` that describes the device.
pub record DeviceRequest : Type 0 where
  pub name : Text
  pub platform : Text
  pub identity_ed25519 : Text
  pub identity_x25519 : Text
  pub fcm_token : Text
  pub apns_token : Text

pub record LoginRequest : Type 0 where
  pub user_id : Text
  pub password : Text
  pub device : DeviceRequest

pub record LoginResponse : Type 0 where
  pub access_token : Text
  pub refresh_token : Text
  pub device_id : Text
  pub expires_in : ℕ
  pub must_change_password : Bool

-- `validPlatform`
abbrev pub valid_platform : Text → Bool
valid_platform p = eq_text p (lit "android") || (eq_text p (lit "ios") || eq_text p (lit "web"))

-- `auth.Verify` of backend/internal/auth/password.go: an error counts as a wrong password.
abbrev pub password_matches : Env → Text → Text → Bool
password_matches v password hash = elim (v.argon2_compare password hash) [
  | none ↦ false
  | some b ↦ b
]

-- A base64 key of 32 bytes.
abbrev pub key_32 : Env → Text → Option Text
key_32 v s = elim (v.base64_decode s) [
  | none ↦ none
  | some k ↦ if length k == 32 then some k else none
]

abbrev pub new_device :
    Env → (id owner_kind owner_id : Text) → DeviceRequest → (ed x : Text) → Device
new_device v id kind owner r ed x = record {
  id = id;
  owner_kind = kind;
  owner_id = owner;
  name = r.name;
  platform = r.platform;
  identity_ed25519 = ed;
  identity_x25519 = x;
  fcm_token = nullable r.fcm_token;
  apns_token = nullable r.apns_token;
  created_at = v.now;
  last_seen_at = v.now;
  revoked_at = none;
}

-- `INSERT INTO devices`
abbrev pub insert_device : Device → Tables → Option Tables
insert_device d t =
    if has_device d.id t then none else some (record t { devices = t.devices ++ d ∷ [] })

abbrev pub is_conversation_of : Text → Conversation → Bool
is_conversation_of user c = eq_text c.user_id user

-- `INSERT INTO conversations ... ON CONFLICT (user_id) DO NOTHING`
abbrev pub insert_conversation : Conversation → Tables → Option Tables
insert_conversation c t =
    if exists_row (is_conversation_of c.user_id) t.conversations
    then some t
    else if has_conversation c.id t
    then none
    else if has_user c.user_id t
    then some (record t { conversations = t.conversations ++ c ∷ [] })
    else none

-- `INSERT INTO login_failures`
abbrev pub insert_failure : LoginFailure → Tables → Option Tables
insert_failure f t = some (record t { login_failures = t.login_failures ++ f ∷ [] })

abbrev pub has_login : Env → Text → User → Bool
has_login v login u = eq_text (v.to_lower u.login) (v.to_lower login)

abbrev pub set_last_login : ℕ → User → User
set_last_login t u = record u { last_login_at = some t }

-- The claims of a device of the user's: the issuer fills in the rest.
abbrev pub device_claims : (device_id owner_id owner audience : Text) → Claims
device_claims d o k a = record {
  sub = d;
  owner_id = o;
  owner = k;
  iat = 0;
  exp = 0;
  jti = [];
  audience = a;
}

abbrev pub expires_in : Env → ℕ
expires_in v = v.access_ttl / second

-- The user that logs in, or the refusal: calls 0 and 1.
unfoldable pub authenticate : Env → LoginRequest → H User
authenticate v r = do
  let login = v.trim_space r.user_id
  require (not (is_empty login) && not (is_empty r.password)) (http 400 missing_fields)
  require (valid_platform r.device.platform) (http 400 bad_platform)
  found ← query v 0 db_500 (λ t. find_row (has_login v login) t.users)
  u ← need found (http 401 bad_credentials)
  require (eq_text u.status (lit "active")) (http 403 account_not_active)
  if password_matches v r.password u.password_hash
      then pure tt
      else (try_exec v 1 (insert_failure (record { login = login; attempted_at = v.now }))
          >> refuse (http 401 bad_credentials))
  pure u

-- The rest of the login: calls 2 to 5, identifiers 0 to 3.
unfoldable pub enrol : Env → Json → Signer → LoginRequest → User → H LoginResponse
enrol v j s r u = do
  ed ← need (key_32 v r.device.identity_ed25519) (http 400 bad_key)
  x ← need (key_32 v r.device.identity_x25519) (http 400 bad_key)
  let id = lit "dev_" ++ v.uuid 0
  exec v 2 db_500 (insert_device (new_device v id (lit "user") u.id r.device ed x))
  exec v 3 db_500 (insert_conversation (record { id = lit "cnv_" ++ v.uuid 1; user_id = u.id }))
  access ←
      need (sign v j s (device_claims id u.id (lit "user") (lit "kalki.user")))
        (http 500 sign_error)
  refresh ← on_error (λ e. http 500 refresh_error) (refresh_issue v 4 2 id [] v.refresh_ttl)
  try_exec v 5 (λ t.
      some
        (record t { users = update_rows (λ x. eq_text x.id u.id) (set_last_login v.now) t.users }))
  pure (record {
    access_token = access;
    refresh_token = refresh;
    device_id = id;
    expires_in = expires_in v;
    must_change_password = u.must_change_password;
  })

-- `authLogin`; `none` is a body that is no JSON.
unfoldable pub auth_login : Env → Json → Signer → Option LoginRequest → H LoginResponse
unfolding authenticate enrol
auth_login v j s body = do r ← need body (http 400 bad_json); u ← authenticate v r; enrol v j s r u

-- `authRefresh`: the rotation, then call 6.
unfoldable pub auth_refresh : Env → Json → Signer → Option Text → H LoginResponse
auth_refresh v j s body = do
  presented ← need body (http 400 bad_json)
  rotated ← on_error (λ e. http 401 invalid_refresh) (refresh_rotate v presented v.refresh_ttl)
  found ←
      query v 6 (http 401 device_gone) (λ t. find_row (is_live_device rotated.device_id) t.devices)
  d ← need found (http 401 device_gone)
  access ←
      need
        (sign v j s
          (device_claims rotated.device_id d.owner_id d.owner_kind (lit "kalki." ++ d.owner_kind)))
        (http 500 sign_error)
  pure (record {
    access_token = access;
    refresh_token = rotated.token;
    device_id = rotated.device_id;
    expires_in = expires_in v;
    must_change_password = false;
  })

abbrev pub revoke_device : ℕ → Device → Device
revoke_device t d = record d { revoked_at = some t }

-- `UPDATE devices SET revoked_at = NOW() WHERE id = $1`, call 0, whose error is dropped.
abbrev pub mark_revoked : Env → Text → World → World
mark_revoked v id w = if v.fails 0 then w else record w {
  tables = record (w.tables) {
    devices = update_rows (is_device id) (revoke_device v.now) w.tables.devices;
  };
}

-- `authLogout`: that, and call 1, whose error is dropped too.
unfoldable pub auth_logout : Env → Option Claims → H (Unit {0})
auth_logout v claims = do
  c ← need claims (http 401 missing_token)
  λ w. (done tt, (refresh_revoke_device v 1 c.sub (mark_revoked v c.sub w)).1)

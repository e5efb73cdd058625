-- ===== src/Api/AdminUsers.antt =====
-- What admins do to users and devices: backend/internal/api/admin_users.go, and the handlers of
-- backend/internal/api/admin.go that change something.
use kalki_chat.Base.{
  ℕ, zero, suc, Bool, true, false, not, ◌&&◌, ◌||◌, Option, none, some, List, [], ◌∷◌, ◌++◌, leb,
  ltb, ◌==◌, if◌then◌else◌, is_none, is_empty, length, Text, lit, eq_text, find_row, exists_row,
  update_rows,
}
use kalki_chat.Env.{Env}
use kalki_chat.Ws.Hub.{device_channel, revocation_event}
use kalki_chat.Db.{
  Tables, User, Device, RefreshToken, text, flag, has_user, World, M, Outcome, done, refused, pure,
  refuse, ◌>>=◌, ◌>>◌, require, need, query, exec, try_exec, on_error, publish,
}
use kalki_chat.Auth.Refresh.{update_tokens, set_revoked}
use kalki_chat.Audit.{record_event, admin_event}
use kalki_chat.Messages.{SendInput, send_message, is_device}
use kalki_chat.Crypto.Jwt.{Claims}
use kalki_chat.Api.Http.{
  H, HttpError, http, db_500, map_err, nullable, bad_json, bad_login, rng_error, weak_password,
  user_exists, bad_envelope, bad_sig, no_conversation, missing_admin_device,
}
use kalki_chat.Api.Session.{revoke_device, is_conversation_of}
use kalki_chat.Api.Password.{hash_password, is_user}
use kalki_chat.Api.Chat.{SendRequest, send_input}
pub mod Suspension
pub mod Create
pub mod Audited

abbrev pub set_status : Text → User → User
set_status s u = record u { status = s }

-- `UPDATE users SET status = ... WHERE id = $1`
abbrev pub update_status : Text → Text → Tables → Option Tables
update_status id s t = some (record t { users = update_rows (is_user id) (set_status s) t.users })

abbrev pub is_owned_by : Text → Device → Bool
is_owned_by user d = eq_text d.owner_kind (lit "user") && eq_text d.owner_id user

-- `WHERE owner_kind = 'user' AND owner_id = $1 AND revoked_at IS NULL`
abbrev pub is_live_of : Text → Device → Bool
is_live_of user d = is_owned_by user d && is_none d.revoked_at

abbrev pub revoke_devices : Env → Text → Tables → Option Tables
revoke_devices v user t =
    some (record t { devices = update_rows (is_live_of user) (revoke_device v.now) t.devices })

-- `adminSuspendUser`: calls 0 and 1.
unfoldable pub admin_suspend_user : Env → Claims → Text → H (Unit {0})
admin_suspend_user v c id = do
  exec v 0 db_500 (update_status id (lit "suspended"))
  try_exec v 1 (revoke_devices v id)
  record_event v (admin_event c.sub (lit "user.suspend") (lit "user") id [])

-- `adminUnsuspendUser`: call 0.
unfoldable pub admin_unsuspend_user : Env → Claims → Text → H (Unit {0})
admin_unsuspend_user v c id = do
  exec v 0 db_500 (update_status id (lit "active"))
  record_event v (admin_event c.sub (lit "user.unsuspend") (lit "user") id [])

-- `device_id IN (SELECT id FROM devices WHERE owner_kind = 'user' AND owner_id = $1)`
abbrev pub is_token_of : Text → List Device → RefreshToken → Bool
is_token_of user ds r = exists_row (λ d. is_owned_by user d && eq_text d.id r.device_id) ds

-- `adminRevokeSessions`: calls 0 and 1, whose errors are dropped.
unfoldable pub admin_revoke_sessions : Env → Claims → Text → H (Unit {0})
admin_revoke_sessions v c id = do
  try_exec v 0 (revoke_devices v id)
  try_exec v 1 (λ t. some (update_tokens (is_token_of id t.devices) (set_revoked v.now) t))
  record_event v (admin_event c.sub (lit "user.revoke_sessions") (lit "user") id [])

abbrev pub is_token_on : Text → RefreshToken → Bool
is_token_on d r = eq_text r.device_id d

-- `_ = d.Hub.Publish(...)`
abbrev pub publish_revoked : Env → Text → H (Unit {0})
publish_revoked v id w = (done tt, (publish v 2 db_500 (device_channel id) revocation_event w).1)

-- `adminRevokeDevice`: calls 0 to 2, whose errors are dropped.
unfoldable pub admin_revoke_device : Env → Claims → Text → H (Unit {0})
admin_revoke_device v c id = do
  try_exec v 0 (λ t.
      some (record t { devices = update_rows (is_device id) (revoke_device v.now) t.devices }))
  try_exec v 1 (λ t. some (update_tokens (is_token_on id) (set_revoked v.now) t))
  publish_revoked v id
  record_event v (admin_event c.sub (lit "device.revoke") (lit "device") id [])

-- `loginPattern`: ^[a-z0-9][a-z0-9._-]{2,31}$
abbrev pub is_login_start : ℕ → Bool
is_login_start c = (leb b'a' c && leb c b'z') || (leb b'0' c && leb c b'9')

abbrev pub is_login_byte : ℕ → Bool
is_login_byte c = is_login_start c || (c == b'.' || (c == b'_' || c == b'-'))

unfoldable pub all_bytes : (ℕ → Bool) → Text → Bool
all_bytes p [] = true
all_bytes p (c ∷ s) = p c && all_bytes p s

unfoldable pub is_login : Text → Bool
unfolding all_bytes
is_login [] = false
is_login (c ∷ s) =
    is_login_start c && (all_bytes is_login_byte s && (leb 2 (length s) && leb (length s) 31))

abbrev pub alphabet : Text
alphabet = lit "ABCDEFGHJKLMNPQRSTUVWXYZabcdefghijkmnpqrstuvwxyz23456789"

-- `alphabet[i]`; an index out of range would panic.
unfoldable pub byte_at : Text → ℕ → Option ℕ
byte_at [] i = none
byte_at (c ∷ s) zero = some c
byte_at (c ∷ s) (suc i) = byte_at s i

abbrev pub pick : Env → ℕ → Option ℕ
pick v i = elim (v.random_below i (length alphabet)) [ none ↦ none | some k ↦ byte_at alphabet k ]

abbrev pub put_byte : Option ℕ → Option Text → Option Text
put_byte (some c) (some s) = some (c ∷ s)
put_byte (some c) none = none
put_byte none s = none

-- The loop of `generatePassword`: n rounds, from round i on.
unfoldable pub generate_from : Env → ℕ → ℕ → Option Text
unfolding byte_at
generate_from v i zero = some []
generate_from v i (suc n) = put_byte (pick v i) (generate_from v (suc i) n)

unfoldable pub generate_password : Env → ℕ → Option Text
unfolding generate_from
generate_password v n = generate_from v 0 n

pub record CreateRequest : Type 0 where
  pub login : Text
  pub initial_password : Text

-- The password of the new account: what the admin gave, if it is not too short, or a new one.
abbrev pub initial_password : Env → Text → H Text
initial_password v given =
    if is_empty given
    then need (generate_password v 16) (http 500 rng_error)
    else (require (leb 10 (length given)) (http 400 weak_password) >> pure given)

abbrev pub new_user : Env → Text → Text → User
new_user v login hash = record {
  id = lit "usr_" ++ v.uuid 0;
  login = login;
  password_hash = hash;
  status = lit "active";
  must_change_password = true;
  last_login_at = none;
  created_at = v.now;
}

abbrev pub has_exact_login : Text → User → Bool
has_exact_login login u = eq_text u.login login

-- The constraints of the table: the identifier is its key, and the login is unique.
abbrev pub insert_user : User → Tables → Option Tables
insert_user u t =
    if has_user u.id t || exists_row (has_exact_login u.login) t.users
    then none
    else some (record t { users = t.users ++ u ∷ [] })

-- The insert, call 0: a violated constraint is a unique one (23505).
abbrev pub add_user : Env → User → H (Unit {0})
add_user v u w = if v.fails 0 then (refused db_500, w) else elim (insert_user u w.tables) [
  | none ↦ (refused (http 409 user_exists), w)
  | some t ↦ (done tt, record w { tables = t })
]

pub record CreateResponse : Type 0 where
  pub id : Text
  pub login : Text
  pub initial_password : Option Text

-- The account with a login and a password that were accepted so far.
unfoldable pub create_account :
    Env → Claims → CreateRequest → (login password : Text) → H CreateResponse
create_account v c r login password = do
  hash ← need (hash_password v password) (http 400 weak_password)
  add_user v (new_user v login hash)
  record_event v (
      admin_event c.sub (lit "user.create") (lit "user") (lit "usr_" ++ v.uuid 0) (
        (lit "login", text login)
        ∷ (lit "password_generated", flag (is_empty r.initial_password))
        ∷ []))
  pure (record {
    id = lit "usr_" ++ v.uuid 0;
    login = login;
    initial_password = if is_empty r.initial_password then some password else none;
  })

-- `adminCreateUser`
unfoldable pub admin_create_user : Env → Claims → Option CreateRequest → H CreateResponse
admin_create_user v c body = do
  r ← need body (http 400 bad_json)
  let login = v.to_lower (v.trim_space r.login)
  require (is_login login) (http 400 bad_login)
  password ← initial_password v r.initial_password
  create_account v c r login password

-- `adminSendMessage`: call 0, then those of `Send`. The device is that of the header
-- X-Admin-Device-Id, empty if there is none.
unfoldable pub admin_send_message :
    Env → Claims → (user device : Text) → Option SendRequest → H Text
admin_send_message v c user device body = do
  r ← need body (http 400 bad_json)
  env ← need (v.base64_decode r.envelope) (http 400 bad_envelope)
  sig ← need (v.base64_decode r.signature) (http 400 bad_sig)
  found ←
      query v 0 (http 404 no_conversation) (λ t. find_row (is_conversation_of user) t.conversations)
  conversation ← need found (http 404 no_conversation)
  require (not (is_empty device)) (http 400 missing_admin_device)
  id ←
      on_error (λ e. http 400 (map_err e))
        (send_message v (send_input device conversation.id r env sig))
  record_event v
      (admin_event c.sub (lit "message.reply") (lit "user") user ((lit "server_id", text id) ∷ []))
  pure id

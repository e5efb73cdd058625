-- ===== src/Api/AdminUsers/Suspension.antt =====
-- What suspension takes away (adminSuspendUser of backend/internal/api/admin.go).
use kalki_chat.Base.{
  ℕ, ◌≡◌, ◌≢◌, true, false, none, some, List, [], ◌∷◌, arith, Text, lit, eq_text, eq_text_iff,
  find_row, update_rows, sym, ap, ◌∙◌,
}
use kalki_chat.Env.{Env}
use kalki_chat.Api.Http.{HttpError}
use kalki_chat.Db.{M, World, done, User, Device}
use kalki_chat.Crypto.Jwt.{Claims, Signer, Json}
use kalki_chat.Messages.{SendInput, SendError, send_message, is_device, is_live_device}
use kalki_chat.Messages.Send.{send_message-IsChecked}
use kalki_chat.Api.Session.{
  LoginRequest, LoginResponse, auth_login, auth_refresh, has_login, revoke_device,
}
use kalki_chat.Api.Session.Login.{auth_login-Enrolled}
use kalki_chat.Api.Session.Ending.{auth_refresh-live}
use kalki_chat.Api.Password.{is_user}
use kalki_chat.Api.AdminUsers.{admin_suspend_user, set_status, is_owned_by, is_live_of}

suspend-users :
    (v : Env) (c : Claims) (id : Text) (w w' : World)
    → admin_suspend_user v c id w ≡ (done tt, w')
    → w'.tables.users ≡ update_rows (is_user id) (set_status (lit "suspended")) w.tables.users
unfolding admin_suspend_user
suspend-users v c id w w' h = ground arith

suspend-devices :
    (v : Env) (c : Claims) (id : Text) (w w' : World)
    → admin_suspend_user v c id w ≡ (done tt, w')
    → v.fails 1 ≡ false
    → w'.tables.devices ≡ update_rows (is_live_of id) (revoke_device v.now) w.tables.devices
unfolding admin_suspend_user
suspend-devices v c id w w' h up = ground arith

find-suspended :
    (v : Env) (login id : Text) (us : List User) (u : User)
    → find_row (has_login v login) (update_rows (is_user id) (set_status (lit "suspended")) us)
      ≡ some u
    → eq_text u.status (lit "active") ≡ true
    → eq_text u.id id ≡ false
unfolding eq_text
find-suspended v login id [] u h a = cc
find-suspended v login id (x ∷ us) u h a = ground (arith, find-suspended v login id us u)

-- After it, a login is answered for no such user.
suspended_cannot_log_in :
    (v v' : Env) (c : Claims) (id : Text) (j : Json) (s : Signer) (r : LoginRequest)
    (w w' w'' : World) (a : LoginResponse)
    → admin_suspend_user v c id w ≡ (done tt, w')
    → auth_login v' j s (some r) w' ≡ (done a, w'')
    → (u : User) × (find_row (has_login v' (v'.trim_space r.user_id)) w'.tables.users ≡ some u)
      × (u.id ≢ id)
suspended_cannot_log_in v v' c id j s r w w' w'' a h g =
    let (u, found, status, word, enrolled) = auth_login-Enrolled v' j s r w' w'' a g in
    let off =
      find-suspended v' (v'.trim_space r.user_id) id w.tables.users u
        (sym (ap (find_row (has_login v' (v'.trim_space r.user_id))) (suspend-users v c id w w' h))
          ∙ found)
        (ground (arith, status, eq_text_iff u.status (lit "active"))) in
    (u, found, λ e. ground (arith, off, e, eq_text_iff u.id id))

find-live :
    (id d : Text) (t : ℕ) (ds : List Device) (x : Device)
    → find_row (is_live_device d) (update_rows (is_live_of id) (revoke_device t) ds) ≡ some x
    → is_owned_by id x ≡ false
find-live id d t [] x h = cc
find-live id d t (y ∷ ds) x h = ground (arith, find-live id d t ds x)

find-sender :
    (id d : Text) (t : ℕ) (ds : List Device) (x : Device)
    → find_row (is_device d) (update_rows (is_live_of id) (revoke_device t) ds) ≡ some x
    → x.revoked_at ≡ none
    → is_owned_by id x ≡ false
find-sender id d t [] x h n = cc
find-sender id d t (y ∷ ds) x h n = ground (arith, find-sender id d t ds x)

-- If the update of the devices does not fail, a device of the user sends nothing.
suspended_cannot_send :
    (v v' : Env) (c : Claims) (id : Text) (i : SendInput) (w w' w'' : World) (m : Text)
    → admin_suspend_user v c id w ≡ (done tt, w')
    → v.fails 1 ≡ false
    → send_message v' i w' ≡ (done m, w'')
    → (d : Device) × (find_row (is_device i.sender_device_id) w'.tables.devices ≡ some d)
      × (is_owned_by id d ≡ false)
suspended_cannot_send v v' c id i w w' w'' m h up g =
    let (d, k) = send_message-IsChecked v' i w' w'' m g in
    (
      d,
      k.known,
      find-sender id i.sender_device_id v.now w.tables.devices d
          (sym (ap (find_row (is_device i.sender_device_id)) (suspend-devices v c id w w' h up))
            ∙ k.known)
          k.live,
    )

-- After the same, a refresh is answered for no device of the user's.
suspended_cannot_refresh :
    (v v' : Env) (c : Claims) (id : Text) (j : Json) (s : Signer) (presented : Text)
    (w w' w'' : World) (a : LoginResponse)
    → admin_suspend_user v c id w ≡ (done tt, w')
    → v.fails 1 ≡ false
    → auth_refresh v' j s (some presented) w' ≡ (done a, w'')
    → (d : Device) × (find_row (is_live_device a.device_id) w'.tables.devices ≡ some d)
      × (is_owned_by id d ≡ false)
suspended_cannot_refresh v v' c id j s presented w w' w'' a h up g =
    let (d, found, signed) = auth_refresh-live v' j s presented w' w'' a g in
    (
      d,
      found,
      find-live id a.device_id v.now w.tables.devices d (
          sym (ap (find_row (is_live_device a.device_id)) (suspend-devices v c id w w' h up))
          ∙ found),
    )

-- What a user's devices and passwords are good for.
pub data Attempt : Type 0 where
  log_in : LoginRequest → Attempt
  refresh : Text → Attempt
  send : SendInput → Attempt

abbrev pub Answer : Attempt → Type 0
Answer (log_in r) = LoginResponse
Answer (refresh presented) = LoginResponse
Answer (send i) = Text

abbrev pub Refusal : Attempt → Type 0
Refusal (log_in r) = HttpError
Refusal (refresh presented) = HttpError
Refusal (send i) = SendError

abbrev pub attempt : Env → Json → Signer → (t : Attempt) → M (Refusal t) (Answer t)
attempt v j s (log_in r) = auth_login v j s (some r)
attempt v j s (refresh presented) = auth_refresh v j s (some presented)
attempt v j s (send i) = send_message v i

-- The attempt is that of another user, or of a device that is not this user's.
abbrev pub IsOfOther : Env → Text → World → (t : Attempt) → Answer t → Type 0
IsOfOther v id w (log_in r) a =
    (u : User) × (find_row (has_login v (v.trim_space r.user_id)) w.tables.users ≡ some u)
    × (u.id ≢ id)
IsOfOther v id w (refresh presented) a =
    (d : Device) × (find_row (is_live_device a.device_id) w.tables.devices ≡ some d)
    × (is_owned_by id d ≡ false)
IsOfOther v id w (send i) m =
    (d : Device) × (find_row (is_device i.sender_device_id) w.tables.devices ≡ some d)
    × (is_owned_by id d ≡ false)

-- Once an admin has suspended a user, and the update of the devices did not fail, the next login
-- that succeeds is another user's, and the next refresh that is answered, or the next message
-- that is accepted, is of a device that is not this user's.
pub suspended-IsOfOther :
    (v v' : Env) (c : Claims) (id : Text) (j : Json) (s : Signer) (w w' w'' : World) (t : Attempt)
    (a : Answer t)
    → admin_suspend_user v c id w ≡ (done tt, w')
    → v.fails 1 ≡ false
    → attempt v' j s t w' ≡ (done a, w'')
    → IsOfOther v' id w' t a
suspended-IsOfOther v v' c id j s w w' w'' (log_in r) a h up g =
    suspended_cannot_log_in v v' c id j s r w w' w'' a h g
suspended-IsOfOther v v' c id j s w w' w'' (refresh presented) a h up g =
    suspended_cannot_refresh v v' c id j s presented w w' w'' a h up g
suspended-IsOfOther v v' c id j s w w' w'' (send i) a h up g =
    suspended_cannot_send v v' c id i w w' w'' a h up g

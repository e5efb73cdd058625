-- ===== src/Api/Router/Keeps.antt =====
-- What every request without an admin's cookie keeps (backend/internal/api).
use kalki_chat.Base.{ℕ, Option, List, Text}
use kalki_chat.Env.{Env}
use kalki_chat.Db.{Tables, User, Admin, Keeps, keeps_rules, Keeps-exec, Keeps-try_exec}
use kalki_chat.Crypto.Jwt.{Claims, Signer, Json}
use kalki_chat.Api.Router.Stable.{Stable}
use kalki_chat.Api.Router.Statements.{
  verified_or-Keeps, password-Keeps, login_time-Keeps, record_event-Keeps, touch_admin-Keeps,
  refresh_issue-Keeps, refresh_rotate-Keeps, send_message-Keeps, upload_opks-Keeps,
  insert_keys-Keeps, consume-Keeps,
}
use kalki_chat.Api.Session.{auth_login, auth_refresh, LoginRequest, authenticate, enrol}
use kalki_chat.Api.WhatsApp.{onboarding_link}
use kalki_chat.Api.AdminAuth.{
  admin_login, admin_totp, admin_device_register, AdminLoginRequest, RegisterRequest,
  identify_admin, enrol_admin,
}
use kalki_chat.Api.Password.{auth_change_password, PasswordRequest}
use kalki_chat.Api.Prekeys.{prekeys_fetch, prekeys_upload, UploadRequest, fetch_body}
use kalki_chat.Api.Chat.{conversation_get, message_send, SendRequest}
use kalki_chat.Api.Media.{
  media_upload_url, media_download_url, media_finalize, UploadUrlRequest, WrappedKey,
}

module _ {I : Tables → Type 0} (s : Stable I) where
  authenticate-Keeps : (v : Env) (r : LoginRequest) → Keeps I (authenticate v r)
  unfolding authenticate
  authenticate-Keeps v r = search (keeps_rules, Keeps-try_exec, s.failure) depth 16

  enrol-Keeps :
      (v : Env) (j : Json) (k : Signer) (r : LoginRequest) (u : User) → Keeps I (enrol v j k r u)
  unfolding enrol
  enrol-Keeps v j k r u =
      search
        (
          keeps_rules,
          Keeps-exec,
          s.new_device,
          s.new_conversation,
          refresh_issue-Keeps s,
          login_time-Keeps s,
        )
        depth 16

  identify_admin-Keeps : (v : Env) (r : RegisterRequest) → Keeps I (identify_admin v r)
  unfolding identify_admin
  identify_admin-Keeps v r = search keeps_rules depth 16

  enrol_admin-Keeps :
      (v : Env) (j : Json) (k : Signer) (r : RegisterRequest) (a : Admin)
      → Keeps I (enrol_admin v j k r a)
  unfolding enrol_admin
  enrol_admin-Keeps v j k r a =
      search
        (
          keeps_rules,
          Keeps-exec,
          s.new_device,
          refresh_issue-Keeps s,
          touch_admin-Keeps s,
          record_event-Keeps s,
        )
        depth 16

  fetch_body-Keeps : (v : Env) (d : Text) → Keeps I (fetch_body v d)
  unfolding fetch_body
  fetch_body-Keeps v d = search (keeps_rules, consume-Keeps s) depth 16

  pub auth_login-Keeps :
      (v : Env) (j : Json) (k : Signer) (r : Option LoginRequest) → Keeps I (auth_login v j k r)
  unfolding auth_login
  auth_login-Keeps v j k r = search (keeps_rules, authenticate-Keeps, enrol-Keeps) depth 16

  pub auth_refresh-Keeps :
      (v : Env) (j : Json) (k : Signer) (r : Option Text) → Keeps I (auth_refresh v j k r)
  unfolding auth_refresh
  auth_refresh-Keeps v j k r = search (keeps_rules, refresh_rotate-Keeps s) depth 16

  pub onboarding_link-Keeps : (v : Env) → Keeps I (onboarding_link v)
  unfolding onboarding_link
  onboarding_link-Keeps v = search keeps_rules depth 16

  pub admin_login-Keeps :
      (v : Env) (j : Json) (k : Option Signer) (r : Option AdminLoginRequest)
      → Keeps I (admin_login v j k r)
  unfolding admin_login
  admin_login-Keeps v j k r = search keeps_rules depth 16

  pub admin_totp-Keeps :
      (v : Env) (j : Json) (k : Option Signer) (cookie code : Option Text)
      → Keeps I (admin_totp v j k cookie code)
  unfolding admin_totp
  admin_totp-Keeps v j k cookie code =
      search (keeps_rules, verified_or-Keeps s, touch_admin-Keeps s) depth 16

  pub auth_change_password-Keeps :
      (v : Env) (c : Option Claims) (r : Option PasswordRequest)
      → Keeps I (auth_change_password v c r)
  unfolding auth_change_password
  auth_change_password-Keeps v c r = search (keeps_rules, password-Keeps s) depth 16

  pub prekeys_fetch-Keeps : (v : Env) (d : Text) → Keeps I (prekeys_fetch v d)
  unfolding prekeys_fetch
  prekeys_fetch-Keeps v d = search (keeps_rules, fetch_body-Keeps) depth 16

  pub conversation_get-Keeps :
      (v : Env) (c : Claims) (n : Option ℕ) → Keeps I (conversation_get v c n)
  unfolding conversation_get
  conversation_get-Keeps v c n = search keeps_rules depth 16

  pub message_send-Keeps :
      (v : Env) (c : Claims) (r : Option SendRequest) → Keeps I (message_send v c r)
  unfolding message_send
  message_send-Keeps v c r = search (keeps_rules, send_message-Keeps s) depth 16

  pub media_upload_url-Keeps :
      (v : Env) (c : Claims) (r : Option UploadUrlRequest) → Keeps I (media_upload_url v c r)
  unfolding media_upload_url
  media_upload_url-Keeps v c r = search (keeps_rules, Keeps-exec, s.new_blob) depth 16

  pub media_download_url-Keeps :
      (v : Env) (c : Claims) (id : Text) → Keeps I (media_download_url v c id)
  unfolding media_download_url
  media_download_url-Keeps v c id = search keeps_rules depth 16

  pub admin_device_register-Keeps :
      (v : Env) (j : Json) (k : Signer) (r : Option RegisterRequest)
      → Keeps I (admin_device_register v j k r)
  unfolding admin_device_register
  admin_device_register-Keeps v j k r =
      search (keeps_rules, identify_admin-Keeps, enrol_admin-Keeps) depth 16

  pub prekeys_upload-Keeps :
      (v : Env) (c : Claims) (r : Option UploadRequest) → Keeps I (prekeys_upload v c r)
  unfolding prekeys_upload
  prekeys_upload-Keeps v c r =
      search (keeps_rules, Keeps-exec, s.new_signed, upload_opks-Keeps s) depth 16

  pub media_finalize-Keeps :
      (v : Env) (c : Claims) (id : Text) (r : Option (List WrappedKey))
      → Keeps I (media_finalize v c id r)
  unfolding media_finalize
  media_finalize-Keeps v c id r = search (keeps_rules, insert_keys-Keeps s) depth 16

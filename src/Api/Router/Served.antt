-- ===== src/Api/Router/Served.antt =====
-- The requests of the router (backend/internal/api/router.go): what all the statements keep, each
-- request keeps.
use kalki_chat.Base.{Option, some, Text}
use kalki_chat.Env.{Env}
use kalki_chat.Db.{Tables, Keeps, keeps_rules, Keeps-bind}
use kalki_chat.Crypto.Jwt.{Claims, Signer, Json}
use kalki_chat.Api.Middleware.{auth_middleware, admin_auth_middleware}
use kalki_chat.Api.Router.{
  OpenRoute, BearerRoute, AdminRoute, Route, open_route, bearer_route, admin_route, Credentials,
  get_active_devices, get_analytics, get_audit, get_conversation, get_conversations, get_devices,
  get_download_url, get_my_conversation, get_pending, get_prekeys, get_user, get_users,
  get_whatsapp, get_whatsapp_link, post_admin_login, post_admin_totp, post_finalize, post_inbound,
  post_login, post_logout, post_message, post_my_message, post_outbound, post_password,
  post_prekeys, post_refresh, post_register, post_revoke_device, post_revoke_sessions, post_sent,
  post_suspend, post_unsuspend, post_upload_url, post_user, put_whatsapp, handle_open,
  handle_bearer, handle_admin, serve,
}
use kalki_chat.Api.Router.Stable.{Stable}
use kalki_chat.Api.Router.Statements.{touch-Keeps, verified_or-Keeps, auth_logout-Keeps}
use kalki_chat.Api.Router.Keeps.{
  auth_login-Keeps, auth_refresh-Keeps, onboarding_link-Keeps, admin_login-Keeps, admin_totp-Keeps,
  auth_change_password-Keeps, prekeys_fetch-Keeps, conversation_get-Keeps, message_send-Keeps,
  media_upload_url-Keeps, media_download_url-Keeps, admin_device_register-Keeps,
  prekeys_upload-Keeps, media_finalize-Keeps,
}
use kalki_chat.Api.Router.AdminKeeps.{
  admin_devices_active-Keeps, admin_sync_inbound-Keeps, admin_sync_enqueue-Keeps,
  admin_sync_pending-Keeps, admin_sync_ack-Keeps, admin_list_users-Keeps, admin_get_user-Keeps,
  admin_get_conversation-Keeps, admin_list_conversations-Keeps, admin_list_devices-Keeps,
  admin_audit_list-Keeps, admin_analytics-Keeps, admin_get_whatsapp-Keeps, admin_suspend_user-Keeps,
  admin_unsuspend_user-Keeps, admin_revoke_sessions-Keeps, admin_revoke_device-Keeps,
  admin_create_user-Keeps, admin_send_message-Keeps, admin_put_whatsapp-Keeps,
}

module _ {I : Tables → Type 0} (s : Stable I) where
  open-Keeps : (v : Env) (j : Json) (k : Signer) (r : OpenRoute) → Keeps I (handle_open v j k r)
  unfolding handle_open
  open-Keeps v j k (post_login r) = search (keeps_rules, auth_login-Keeps s)
  open-Keeps v j k (post_refresh r) = search (keeps_rules, auth_refresh-Keeps s)
  open-Keeps v j k get_whatsapp_link = search (keeps_rules, onboarding_link-Keeps s)
  open-Keeps v j k (post_admin_login r) = search (keeps_rules, admin_login-Keeps s)
  open-Keeps v j k (post_admin_totp cookie code) = search (keeps_rules, admin_totp-Keeps s)
  open-Keeps v j k (post_register r) = search (keeps_rules, admin_device_register-Keeps s)

  bearer-Keeps : (v : Env) (c : Claims) (r : BearerRoute) → Keeps I (handle_bearer v c r)
  unfolding handle_bearer
  bearer-Keeps v c post_logout = search (keeps_rules, auth_logout-Keeps s)
  bearer-Keeps v c (post_password r) = search (keeps_rules, auth_change_password-Keeps s)
  bearer-Keeps v c get_active_devices = search (keeps_rules, admin_devices_active-Keeps s)
  bearer-Keeps v c (post_prekeys r) = search (keeps_rules, prekeys_upload-Keeps s)
  bearer-Keeps v c (get_prekeys d) = search (keeps_rules, prekeys_fetch-Keeps s)
  bearer-Keeps v c (get_my_conversation n) = search (keeps_rules, conversation_get-Keeps s)
  bearer-Keeps v c (post_my_message r) = search (keeps_rules, message_send-Keeps s)
  bearer-Keeps v c (post_upload_url r) = search (keeps_rules, media_upload_url-Keeps s)
  bearer-Keeps v c (post_finalize id r) = search (keeps_rules, media_finalize-Keeps s)
  bearer-Keeps v c (get_download_url id) = search (keeps_rules, media_download_url-Keeps s)

  admin-Keeps : (v : Env) (c : Claims) (r : AdminRoute) → Keeps I (handle_admin v c r)
  unfolding handle_admin
  admin-Keeps v c (post_inbound r) = search (keeps_rules, admin_sync_inbound-Keeps s)
  admin-Keeps v c (post_outbound r) = search (keeps_rules, admin_sync_enqueue-Keeps s)
  admin-Keeps v c get_pending = search (keeps_rules, admin_sync_pending-Keeps s)
  admin-Keeps v c (post_sent id r) = search (keeps_rules, admin_sync_ack-Keeps s)
  admin-Keeps v c (get_users q) = search (keeps_rules, admin_list_users-Keeps s)
  admin-Keeps v c (post_user r) = search (keeps_rules, admin_create_user-Keeps s)
  admin-Keeps v c (get_user id) = search (keeps_rules, admin_get_user-Keeps s)
  admin-Keeps v c (post_suspend id) = search (keeps_rules, admin_suspend_user-Keeps s)
  admin-Keeps v c (post_unsuspend id) = search (keeps_rules, admin_unsuspend_user-Keeps s)
  admin-Keeps v c (post_revoke_sessions id) = search (keeps_rules, admin_revoke_sessions-Keeps s)
  admin-Keeps v c (get_conversation id) = search (keeps_rules, admin_get_conversation-Keeps s)
  admin-Keeps v c (post_message user device r) = search (keeps_rules, admin_send_message-Keeps s)
  admin-Keeps v c (get_conversations q) = search (keeps_rules, admin_list_conversations-Keeps s)
  admin-Keeps v c get_devices = search (keeps_rules, admin_list_devices-Keeps s)
  admin-Keeps v c (post_revoke_device id) = search (keeps_rules, admin_revoke_device-Keeps s)
  admin-Keeps v c get_whatsapp = search (keeps_rules, admin_get_whatsapp-Keeps s)
  admin-Keeps v c (put_whatsapp r) = search (keeps_rules, admin_put_whatsapp-Keeps s)
  admin-Keeps v c get_audit = search (keeps_rules, admin_audit_list-Keeps s)
  admin-Keeps v c get_analytics = search (keeps_rules, admin_analytics-Keeps s)

  auth_middleware-Keeps :
      (v : Env) (j : Json) (k : Option Signer) (a : Text) → Keeps I (auth_middleware v j k a)
  unfolding auth_middleware
  auth_middleware-Keeps v j k a = search (keeps_rules, verified_or-Keeps s, touch-Keeps s) depth 12

  admin_auth_middleware-Keeps :
      (v : Env) (j : Json) (k : Option Signer) (cookie : Option Text) (a : Text)
      → Keeps I (admin_auth_middleware v j k cookie a)
  unfolding admin_auth_middleware
  admin_auth_middleware-Keeps v j k cookie a =
      search (keeps_rules, verified_or-Keeps s, touch-Keeps s) depth 12

  -- A request keeps what its statements keep.
  pub serve-Keeps :
      (v : Env) (j : Json) (k : Signer) (cr : Credentials) (r : Route) → Keeps I (serve v j k cr r)
  unfolding serve
  serve-Keeps v j k cr (open_route r) = open-Keeps v j k r
  serve-Keeps v j k cr (bearer_route r) =
      Keeps-bind (auth_middleware-Keeps v j (some k) cr.authorization) (λ c. bearer-Keeps v c r)
  serve-Keeps v j k cr (admin_route r) =
      Keeps-bind (admin_auth_middleware-Keeps v j (some k) cr.session cr.authorization)
        (λ c. admin-Keeps v c r)

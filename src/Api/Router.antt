-- ===== src/Api/Router.antt =====
-- backend/internal/api/router.go: which routes stand behind which middleware, and what serving a
-- request is, with a signing key configured. Rate limits, CORS, /healthz, the key set, audit.csv and
-- the upgrade of /ws are left out.
use kalki_chat.Base.{ℕ, Option, none, some, List, Text}
use kalki_chat.Env.{Env}
use kalki_chat.Db.{World, M, Outcome, done, refused, pure, ◌>>=◌}
use kalki_chat.Crypto.Jwt.{Claims, Signer, Json}
use kalki_chat.Api.Http.{H}
use kalki_chat.Api.Middleware.{auth_middleware, admin_auth_middleware}
use kalki_chat.Api.Session.{LoginRequest, auth_login, auth_refresh, auth_logout}
use kalki_chat.Api.Password.{PasswordRequest, auth_change_password}
use kalki_chat.Api.Prekeys.{UploadRequest, prekeys_upload, prekeys_fetch}
use kalki_chat.Api.Chat.{SendRequest, message_send, conversation_get}
use kalki_chat.Api.Media.{
  UploadUrlRequest, WrappedKey, media_upload_url, media_finalize, media_download_url,
}
use kalki_chat.Api.AdminSync.{
  InboundRequest, OutboundRequest, AckRequest, admin_sync_inbound, admin_sync_enqueue,
  admin_sync_pending, admin_sync_ack,
}
use kalki_chat.Api.AdminAuth.{
  AdminLoginRequest, RegisterRequest, admin_login, admin_totp, admin_device_register,
}
use kalki_chat.Api.AdminUsers.{
  CreateRequest, admin_create_user, admin_suspend_user, admin_unsuspend_user, admin_revoke_sessions,
  admin_revoke_device, admin_send_message,
}
use kalki_chat.Api.AdminViews.{
  admin_list_users, admin_get_user, admin_get_conversation, admin_list_conversations,
  admin_list_devices, admin_devices_active, admin_audit_list, admin_analytics,
}
use kalki_chat.Api.WhatsApp.{
  WhatsAppRequest, onboarding_link, admin_get_whatsapp, admin_put_whatsapp,
}
pub mod Guards
pub mod Quiet
pub mod Loops
pub mod Recorded
pub mod Growth
pub mod Trail
pub mod Stable
pub mod Statements
pub mod Keeps
pub mod AdminKeeps
pub mod Socket
pub mod SessionTables
pub mod MessageTables
pub mod KeyTables
pub mod Served

-- The routes that ask for no token.
pub data OpenRoute : Type 0 where
  post_login : Option LoginRequest → OpenRoute
  post_refresh : Option Text → OpenRoute
  get_whatsapp_link : OpenRoute
  post_admin_login : Option AdminLoginRequest → OpenRoute
  post_admin_totp : (cookie code : Option Text) → OpenRoute
  post_register : Option RegisterRequest → OpenRoute

-- The group behind authMiddleware.
pub data BearerRoute : Type 0 where
  post_logout : BearerRoute
  post_password : Option PasswordRequest → BearerRoute
  get_active_devices : BearerRoute
  post_prekeys : Option UploadRequest → BearerRoute
  get_prekeys : Text → BearerRoute
  get_my_conversation : Option ℕ → BearerRoute
  post_my_message : Option SendRequest → BearerRoute
  post_upload_url : Option UploadUrlRequest → BearerRoute
  post_finalize : Text → Option (List WrappedKey) → BearerRoute
  get_download_url : Text → BearerRoute

-- The routes behind adminAuthMiddleware: /v1/admin-sync, and the group in /v1/admin.
pub data AdminRoute : Type 0 where
  post_inbound : Option InboundRequest → AdminRoute
  post_outbound : Option OutboundRequest → AdminRoute
  get_pending : AdminRoute
  post_sent : Text → Option AckRequest → AdminRoute
  get_users : Text → AdminRoute
  post_user : Option CreateRequest → AdminRoute
  get_user : Text → AdminRoute
  post_suspend : Text → AdminRoute
  post_unsuspend : Text → AdminRoute
  post_revoke_sessions : Text → AdminRoute
  get_conversation : Text → AdminRoute
  post_message : (user device : Text) → Option SendRequest → AdminRoute
  get_conversations : Text → AdminRoute
  get_devices : AdminRoute
  post_revoke_device : Text → AdminRoute
  get_whatsapp : AdminRoute
  put_whatsapp : Option WhatsAppRequest → AdminRoute
  get_audit : AdminRoute
  get_analytics : AdminRoute

pub data Route : Type 0 where
  open_route : OpenRoute → Route
  bearer_route : BearerRoute → Route
  admin_route : AdminRoute → Route

-- The body of the answer is left out.
abbrev pub answered : {A : Type 0} → H A → H (Unit {0})
answered m = m >>= λ _. pure tt

unfoldable pub handle_open : Env → Json → Signer → OpenRoute → H (Unit {0})
handle_open v j s (post_login r) = answered (auth_login v j s r)
handle_open v j s (post_refresh r) = answered (auth_refresh v j s r)
handle_open v j s get_whatsapp_link = answered (onboarding_link v)
handle_open v j s (post_admin_login r) = answered (admin_login v j (some s) r)
handle_open v j s (post_admin_totp cookie code) = answered (admin_totp v j (some s) cookie code)
handle_open v j s (post_register r) = answered (admin_device_register v j s r)

unfoldable pub handle_bearer : Env → Claims → BearerRoute → H (Unit {0})
handle_bearer v c post_logout = auth_logout v (some c)
handle_bearer v c (post_password r) = auth_change_password v (some c) r
handle_bearer v c get_active_devices = answered (admin_devices_active v)
handle_bearer v c (post_prekeys r) = prekeys_upload v c r
handle_bearer v c (get_prekeys d) = answered (prekeys_fetch v d)
handle_bearer v c (get_my_conversation n) = answered (conversation_get v c n)
handle_bearer v c (post_my_message r) = answered (message_send v c r)
handle_bearer v c (post_upload_url r) = answered (media_upload_url v c r)
handle_bearer v c (post_finalize id r) = media_finalize v c id r
handle_bearer v c (get_download_url id) = answered (media_download_url v c id)

unfoldable pub handle_admin : Env → Claims → AdminRoute → H (Unit {0})
handle_admin v c (post_inbound r) = answered (admin_sync_inbound v c r)
handle_admin v c (post_outbound r) = answered (admin_sync_enqueue v c r)
handle_admin v c get_pending = answered (admin_sync_pending v)
handle_admin v c (post_sent id r) = answered (admin_sync_ack v id r)
handle_admin v c (get_users q) = answered (admin_list_users v q)
handle_admin v c (post_user r) = answered (admin_create_user v c r)
handle_admin v c (get_user id) = answered (admin_get_user v id)
handle_admin v c (post_suspend id) = admin_suspend_user v c id
handle_admin v c (post_unsuspend id) = admin_unsuspend_user v c id
handle_admin v c (post_revoke_sessions id) = admin_revoke_sessions v c id
handle_admin v c (get_conversation id) = answered (admin_get_conversation v c id)
handle_admin v c (post_message user device r) = answered (admin_send_message v c user device r)
handle_admin v c (get_conversations q) = answered (admin_list_conversations v q)
handle_admin v c get_devices = answered (admin_list_devices v)
handle_admin v c (post_revoke_device id) = admin_revoke_device v c id
handle_admin v c get_whatsapp = answered (admin_get_whatsapp v)
handle_admin v c (put_whatsapp r) = admin_put_whatsapp v c r
handle_admin v c get_audit = answered (admin_audit_list v)
handle_admin v c get_analytics = answered (admin_analytics v)

-- The Authorization header, empty if there is none, and the cookie `admin_session`.
pub record Credentials : Type 0 where
  pub authorization : Text
  pub session : Option Text

unfoldable pub serve : Env → Json → Signer → Credentials → Route → H (Unit {0})
serve v j s k (open_route r) = handle_open v j s r
serve v j s k (bearer_route r) =
    auth_middleware v j (some s) k.authorization >>= λ c. handle_bearer v c r
serve v j s k (admin_route r) =
    admin_auth_middleware v j (some s) k.session k.authorization >>= λ c. handle_admin v c r

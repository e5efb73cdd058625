-- ===== src/Api/Router/Quiet.antt =====
-- The requests that leave the audit log alone (the handlers of backend/internal/api).
use kalki_chat.Base.{ℕ, ◌≡◌, Option, none, some, List, arith, Text}
use kalki_chat.Env.{Env}
use kalki_chat.Db.{World, AuditLog}
use kalki_chat.Crypto.Jwt.{Claims, Signer, Json}
use kalki_chat.Auth.Refresh.{refresh_revoke_device, refresh_issue, refresh_rotate}
use kalki_chat.Messages.{send_message}
use kalki_chat.Api.Session.{auth_login, auth_refresh, auth_logout, LoginRequest}
use kalki_chat.Api.WhatsApp.{onboarding_link, admin_get_whatsapp}
use kalki_chat.Api.AdminAuth.{admin_login, admin_totp, AdminLoginRequest}
use kalki_chat.Api.Password.{auth_change_password, PasswordRequest}
use kalki_chat.Api.AdminViews.{
  admin_devices_active, admin_list_users, admin_get_user, admin_get_conversation,
  admin_list_conversations, admin_list_devices, admin_audit_list, admin_analytics,
}
use kalki_chat.Api.Prekeys.{prekeys_fetch}
use kalki_chat.Api.Chat.{conversation_get, message_send, SendRequest}
use kalki_chat.Api.Media.{media_upload_url, media_download_url, UploadUrlRequest}
use kalki_chat.Api.AdminSync.{
  admin_sync_inbound, admin_sync_enqueue, admin_sync_pending, admin_sync_ack, InboundRequest,
  OutboundRequest, AckRequest,
}

-- The records of the audit log, oldest first.
abbrev pub log : World → List AuditLog
log w = w.tables.audit_logs

pub log-auth_login :
    (v : Env) (j : Json) (s : Signer) (r : Option LoginRequest) (w : World)
    → log (auth_login v j s r w).1 ≡ log w
unfolding auth_login refresh_issue
log-auth_login v j s r w = ground arith

pub log-auth_refresh :
    (v : Env) (j : Json) (s : Signer) (r : Option Text) (w : World)
    → log (auth_refresh v j s r w).1 ≡ log w
unfolding auth_refresh refresh_rotate
log-auth_refresh v j s r w = ground arith

pub log-onboarding_link : (v : Env) (w : World) → log (onboarding_link v w).1 ≡ log w
unfolding onboarding_link
log-onboarding_link v w = ground arith

pub log-admin_login :
    (v : Env) (j : Json) (s : Option Signer) (r : Option AdminLoginRequest) (w : World)
    → log (admin_login v j s r w).1 ≡ log w
unfolding admin_login
log-admin_login v j s r w = ground arith

pub log-admin_totp :
    (v : Env) (j : Json) (s : Option Signer) (cookie code : Option Text) (w : World)
    → log (admin_totp v j s cookie code w).1 ≡ log w
unfolding admin_totp
log-admin_totp v j s cookie code w = ground arith

pub log-auth_logout : (v : Env) (c : Option Claims) (w : World) → log (auth_logout v c w).1 ≡ log w
unfolding auth_logout refresh_revoke_device
log-auth_logout v none w = ground arith
log-auth_logout v (some c) w = ground arith

pub log-auth_change_password :
    (v : Env) (c : Option Claims) (r : Option PasswordRequest) (w : World)
    → log (auth_change_password v c r w).1 ≡ log w
unfolding auth_change_password
log-auth_change_password v c r w = ground arith

pub log-admin_devices_active : (v : Env) (w : World) → log (admin_devices_active v w).1 ≡ log w
unfolding admin_devices_active
log-admin_devices_active v w = ground arith

pub log-prekeys_fetch : (v : Env) (d : Text) (w : World) → log (prekeys_fetch v d w).1 ≡ log w
unfolding prekeys_fetch
log-prekeys_fetch v d w = ground arith

pub log-conversation_get :
    (v : Env) (c : Claims) (n : Option ℕ) (w : World) → log (conversation_get v c n w).1 ≡ log w
unfolding conversation_get
log-conversation_get v c n w = ground arith

pub log-message_send :
    (v : Env) (c : Claims) (r : Option SendRequest) (w : World)
    → log (message_send v c r w).1 ≡ log w
unfolding message_send send_message
log-message_send v c r w = ground arith

pub log-media_upload_url :
    (v : Env) (c : Claims) (r : Option UploadUrlRequest) (w : World)
    → log (media_upload_url v c r w).1 ≡ log w
unfolding media_upload_url
log-media_upload_url v c r w = ground arith

pub log-media_download_url :
    (v : Env) (c : Claims) (id : Text) (w : World) → log (media_download_url v c id w).1 ≡ log w
unfolding media_download_url
log-media_download_url v c id w = ground arith

pub log-admin_sync_inbound :
    (v : Env) (c : Claims) (r : Option InboundRequest) (w : World)
    → log (admin_sync_inbound v c r w).1 ≡ log w
unfolding admin_sync_inbound
log-admin_sync_inbound v c r w = ground arith

pub log-admin_sync_enqueue :
    (v : Env) (c : Claims) (r : Option OutboundRequest) (w : World)
    → log (admin_sync_enqueue v c r w).1 ≡ log w
unfolding admin_sync_enqueue
log-admin_sync_enqueue v c r w = ground arith

pub log-admin_sync_pending : (v : Env) (w : World) → log (admin_sync_pending v w).1 ≡ log w
unfolding admin_sync_pending
log-admin_sync_pending v w = ground arith

pub log-admin_sync_ack :
    (v : Env) (id : Text) (r : Option AckRequest) (w : World)
    → log (admin_sync_ack v id r w).1 ≡ log w
unfolding admin_sync_ack
log-admin_sync_ack v id r w = ground arith

pub log-admin_list_users : (v : Env) (q : Text) (w : World) → log (admin_list_users v q w).1 ≡ log w
unfolding admin_list_users
log-admin_list_users v q w = ground arith

pub log-admin_get_user : (v : Env) (q : Text) (w : World) → log (admin_get_user v q w).1 ≡ log w
unfolding admin_get_user
log-admin_get_user v q w = ground arith

pub log-admin_get_conversation :
    (v : Env) (c : Claims) (q : Text) (w : World) → log (admin_get_conversation v c q w).1 ≡ log w
unfolding admin_get_conversation
log-admin_get_conversation v c q w = ground arith

pub log-admin_list_conversations :
    (v : Env) (q : Text) (w : World) → log (admin_list_conversations v q w).1 ≡ log w
unfolding admin_list_conversations
log-admin_list_conversations v q w = ground arith

pub log-admin_list_devices : (v : Env) (w : World) → log (admin_list_devices v w).1 ≡ log w
unfolding admin_list_devices
log-admin_list_devices v w = ground arith

pub log-admin_audit_list : (v : Env) (w : World) → log (admin_audit_list v w).1 ≡ log w
unfolding admin_audit_list
log-admin_audit_list v w = ground arith

pub log-admin_analytics : (v : Env) (w : World) → log (admin_analytics v w).1 ≡ log w
unfolding admin_analytics
log-admin_analytics v w = ground arith

pub log-admin_get_whatsapp : (v : Env) (w : World) → log (admin_get_whatsapp v w).1 ≡ log w
unfolding admin_get_whatsapp
log-admin_get_whatsapp v w = ground arith

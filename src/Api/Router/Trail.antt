-- ===== src/Api/Router/Trail.antt =====
-- Whatever is served, the audit log only grows (backend/internal/api/router.go).
use kalki_chat.Base.{refl, Option, none, some, Text, inl}
use kalki_chat.Env.{Env}
use kalki_chat.Db.{World}
use kalki_chat.Crypto.Jwt.{Claims, Signer, Json}
use kalki_chat.Api.Middleware.{auth_middleware, admin_auth_middleware}
use kalki_chat.Api.AdminAuth.{RegisterRequest, identify_admin, enrol_admin, admin_device_register}
use kalki_chat.Api.Session.{auth_login, auth_refresh}
use kalki_chat.Api.Prekeys.{prekeys_fetch}
use kalki_chat.Api.Chat.{SendRequest, message_send, conversation_get}
use kalki_chat.Api.Media.{media_upload_url, media_download_url}
use kalki_chat.Api.AdminSync.{
  admin_sync_inbound, admin_sync_enqueue, admin_sync_pending, admin_sync_ack,
}
use kalki_chat.Api.AdminUsers.{
  CreateRequest, admin_create_user, admin_suspend_user, admin_unsuspend_user, admin_revoke_sessions,
  admin_revoke_device, admin_send_message,
}
use kalki_chat.Api.AdminViews.{
  admin_list_users, admin_get_user, admin_get_conversation, admin_list_conversations,
  admin_list_devices, admin_devices_active, admin_audit_list, admin_analytics,
}
use kalki_chat.Api.WhatsApp.{
  WhatsAppRequest, onboarding_link, admin_get_whatsapp, admin_put_whatsapp,
}
use kalki_chat.Api.AdminAuth.{admin_login, admin_totp}
use kalki_chat.Api.AdminUsers.Audited.{
  record_of, suspend, unsuspend, revoke_sessions, revoke_device, create, send,
}
use kalki_chat.Api.AdminUsers.Audited
use kalki_chat.Api.Router.{
  get_active_devices, get_analytics, get_audit, get_conversation, get_conversations, get_devices,
  get_download_url, get_my_conversation, get_pending, get_prekeys, get_user, get_users,
  get_whatsapp, get_whatsapp_link, post_admin_login, post_admin_totp, post_finalize, post_inbound,
  post_login, post_logout, post_message, post_my_message, post_outbound, post_password,
  post_prekeys, post_refresh, post_register, post_revoke_device, post_revoke_sessions, post_sent,
  post_suspend, post_unsuspend, post_upload_url, post_user, put_whatsapp, OpenRoute, BearerRoute,
  AdminRoute, Route, open_route, bearer_route, admin_route, handle_open, handle_bearer,
  handle_admin, Credentials, serve,
}
use kalki_chat.Api.Router.Quiet
use kalki_chat.Api.Router.Quiet.{log}
use kalki_chat.Api.Router.Recorded
use kalki_chat.Api.Router.Recorded.{Logged, register_event}
use kalki_chat.Api.Router.Growth.{Grows, Grows-bind, Grows-answered, recorded}
use kalki_chat.Api.Router.Loops

admin_create_user-Grows :
    (v : Env) (c : Claims) (r : Option CreateRequest) (w : World)
    → Grows v w (admin_create_user v c r w).1
unfolding admin_create_user
admin_create_user-Grows v c none w = inl refl
admin_create_user-Grows v c (some r) w =
    recorded v (admin_create_user v c (some r)) w (record_of v c (create r))
      (Recorded.admin_create_user-Logged v c r w)

admin_send_message-Grows :
    (v : Env) (c : Claims) (user device : Text) (r : Option SendRequest) (w : World)
    → Grows v w (admin_send_message v c user device r w).1
unfolding admin_send_message
admin_send_message-Grows v c user device none w = inl refl
admin_send_message-Grows v c user device (some r) w =
    recorded v (admin_send_message v c user device (some r)) w (record_of v c (send user device r))
      (Recorded.admin_send_message-Logged v c user device r w)

admin_put_whatsapp-Grows :
    (v : Env) (c : Claims) (r : Option WhatsAppRequest) (w : World)
    → Grows v w (admin_put_whatsapp v c r w).1
unfolding admin_put_whatsapp
admin_put_whatsapp-Grows v c none w = inl refl
admin_put_whatsapp-Grows v c (some r) w =
    recorded v (admin_put_whatsapp v c (some r)) w (record_of v c (Audited.put_whatsapp r))
      (Recorded.admin_put_whatsapp-Logged v c r w)

admin_device_register-Grows :
    (v : Env) (j : Json) (s : Signer) (r : Option RegisterRequest) (w : World)
    → Grows v w (admin_device_register v j s r w).1
unfolding admin_device_register
admin_device_register-Grows v j s none w = inl refl
admin_device_register-Grows v j s (some r) w =
    Grows-bind v (identify_admin v r) (enrol_admin v j s r) w (Loops.log-identify_admin v r w)
      (λ a x.
        recorded v (enrol_admin v j s r a) x (register_event v a r)
          (Recorded.enrol_admin-Logged v j s r a x))

handle_open-Grows :
    (v : Env) (j : Json) (s : Signer) (r : OpenRoute) (w : World)
    → Grows v w (handle_open v j s r w).1
unfolding handle_open
handle_open-Grows v j s (post_login r) w =
    Grows-answered v (auth_login v j s r) w (inl (Quiet.log-auth_login v j s r w))
handle_open-Grows v j s (post_refresh r) w =
    Grows-answered v (auth_refresh v j s r) w (inl (Quiet.log-auth_refresh v j s r w))
handle_open-Grows v j s get_whatsapp_link w =
    Grows-answered v (onboarding_link v) w (inl (Quiet.log-onboarding_link v w))
handle_open-Grows v j s (post_admin_login r) w =
    Grows-answered v (admin_login v j (some s) r) w (inl (Quiet.log-admin_login v j (some s) r w))
handle_open-Grows v j s (post_admin_totp cookie code) w =
    Grows-answered v (admin_totp v j (some s) cookie code) w
      (inl (Quiet.log-admin_totp v j (some s) cookie code w))
handle_open-Grows v j s (post_register r) w =
    Grows-answered v (admin_device_register v j s r) w (admin_device_register-Grows v j s r w)

handle_bearer-Grows :
    (v : Env) (c : Claims) (r : BearerRoute) (w : World) → Grows v w (handle_bearer v c r w).1
unfolding handle_bearer
handle_bearer-Grows v c post_logout w = inl (Quiet.log-auth_logout v (some c) w)
handle_bearer-Grows v c (post_password r) w = inl (Quiet.log-auth_change_password v (some c) r w)
handle_bearer-Grows v c get_active_devices w =
    Grows-answered v (admin_devices_active v) w (inl (Quiet.log-admin_devices_active v w))
handle_bearer-Grows v c (post_prekeys r) w = inl (Loops.log-prekeys_upload v c r w)
handle_bearer-Grows v c (get_prekeys d) w =
    Grows-answered v (prekeys_fetch v d) w (inl (Quiet.log-prekeys_fetch v d w))
handle_bearer-Grows v c (get_my_conversation n) w =
    Grows-answered v (conversation_get v c n) w (inl (Quiet.log-conversation_get v c n w))
handle_bearer-Grows v c (post_my_message r) w =
    Grows-answered v (message_send v c r) w (inl (Quiet.log-message_send v c r w))
handle_bearer-Grows v c (post_upload_url r) w =
    Grows-answered v (media_upload_url v c r) w (inl (Quiet.log-media_upload_url v c r w))
handle_bearer-Grows v c (post_finalize id r) w = inl (Loops.log-media_finalize v c id r w)
handle_bearer-Grows v c (get_download_url id) w =
    Grows-answered v (media_download_url v c id) w (inl (Quiet.log-media_download_url v c id w))

handle_admin-Grows :
    (v : Env) (c : Claims) (r : AdminRoute) (w : World) → Grows v w (handle_admin v c r w).1
unfolding handle_admin
handle_admin-Grows v c (post_inbound r) w =
    Grows-answered v (admin_sync_inbound v c r) w (inl (Quiet.log-admin_sync_inbound v c r w))
handle_admin-Grows v c (post_outbound r) w =
    Grows-answered v (admin_sync_enqueue v c r) w (inl (Quiet.log-admin_sync_enqueue v c r w))
handle_admin-Grows v c get_pending w =
    Grows-answered v (admin_sync_pending v) w (inl (Quiet.log-admin_sync_pending v w))
handle_admin-Grows v c (post_sent id r) w =
    Grows-answered v (admin_sync_ack v id r) w (inl (Quiet.log-admin_sync_ack v id r w))
handle_admin-Grows v c (get_users q) w =
    Grows-answered v (admin_list_users v q) w (inl (Quiet.log-admin_list_users v q w))
handle_admin-Grows v c (post_user r) w =
    Grows-answered v (admin_create_user v c r) w (admin_create_user-Grows v c r w)
handle_admin-Grows v c (get_user id) w =
    Grows-answered v (admin_get_user v id) w (inl (Quiet.log-admin_get_user v id w))
handle_admin-Grows v c (post_suspend id) w =
    recorded v (admin_suspend_user v c id) w (record_of v c (suspend id))
      (Recorded.admin_suspend_user-Logged v c id w)
handle_admin-Grows v c (post_unsuspend id) w =
    recorded v (admin_unsuspend_user v c id) w (record_of v c (unsuspend id))
      (Recorded.admin_unsuspend_user-Logged v c id w)
handle_admin-Grows v c (post_revoke_sessions id) w =
    recorded v (admin_revoke_sessions v c id) w (record_of v c (revoke_sessions id))
      (Recorded.admin_revoke_sessions-Logged v c id w)
handle_admin-Grows v c (get_conversation id) w =
    Grows-answered v (admin_get_conversation v c id) w
      (inl (Quiet.log-admin_get_conversation v c id w))
handle_admin-Grows v c (post_message user device r) w =
    Grows-answered v (admin_send_message v c user device r) w
      (admin_send_message-Grows v c user device r w)
handle_admin-Grows v c (get_conversations q) w =
    Grows-answered v (admin_list_conversations v q) w
      (inl (Quiet.log-admin_list_conversations v q w))
handle_admin-Grows v c get_devices w =
    Grows-answered v (admin_list_devices v) w (inl (Quiet.log-admin_list_devices v w))
handle_admin-Grows v c (post_revoke_device id) w =
    recorded v (admin_revoke_device v c id) w (record_of v c (revoke_device id))
      (Recorded.admin_revoke_device-Logged v c id w)
handle_admin-Grows v c get_whatsapp w =
    Grows-answered v (admin_get_whatsapp v) w (inl (Quiet.log-admin_get_whatsapp v w))
handle_admin-Grows v c (put_whatsapp r) w = admin_put_whatsapp-Grows v c r w
handle_admin-Grows v c get_audit w =
    Grows-answered v (admin_audit_list v) w (inl (Quiet.log-admin_audit_list v w))
handle_admin-Grows v c get_analytics w =
    Grows-answered v (admin_analytics v) w (inl (Quiet.log-admin_analytics v w))

-- Whatever request is served, with whatever credentials, failures and outcome, no record of the
-- audit log is changed or taken out, and one record at most is added, behind the others.
pub serve-Grows :
    (v : Env) (j : Json) (s : Signer) (k : Credentials) (r : Route) (w : World)
    → Grows v w (serve v j s k r w).1
unfolding serve
serve-Grows v j s k (open_route r) w = handle_open-Grows v j s r w
serve-Grows v j s k (bearer_route r) w =
    Grows-bind v (auth_middleware v j (some s) k.authorization) (λ c. handle_bearer v c r) w
      (Loops.log-auth_middleware v j (some s) k.authorization w)
      (λ c x. handle_bearer-Grows v c r x)
serve-Grows v j s k (admin_route r) w =
    Grows-bind v (admin_auth_middleware v j (some s) k.session k.authorization)
      (λ c. handle_admin v c r) w
      (Loops.log-admin_auth_middleware v j (some s) k.session k.authorization w)
      (λ c x. handle_admin-Grows v c r x)

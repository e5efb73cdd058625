-- ===== src/Api/Router/AdminKeeps.antt =====
-- What every request of an admin keeps (backend/internal/api/admin*.go).
use kalki_chat.Base.{Option, Text}
use kalki_chat.Env.{Env}
use kalki_chat.Db.{Tables, Keeps, keeps_rules, Keeps-exec}
use kalki_chat.Crypto.Jwt.{Claims}
use kalki_chat.Api.Router.Stable.{Stable}
use kalki_chat.Api.Router.Statements.{
  status-Keeps, record_event-Keeps, revoke_devices-Keeps, revoke_device-Keeps, tokens_of-Keeps,
  tokens_on-Keeps, send_message-Keeps, ack_failed-Keeps, ack_body-Keeps, publish_revoked-Keeps,
  add_user-Keeps,
}
use kalki_chat.Api.WhatsApp.{admin_get_whatsapp, admin_put_whatsapp, WhatsAppRequest}
use kalki_chat.Api.AdminViews.{
  admin_devices_active, admin_list_users, admin_get_user, admin_get_conversation,
  admin_list_conversations, admin_list_devices, admin_audit_list, admin_analytics,
}
use kalki_chat.Api.Chat.{SendRequest}
use kalki_chat.Api.AdminSync.{
  admin_sync_inbound, admin_sync_enqueue, admin_sync_pending, admin_sync_ack, InboundRequest,
  OutboundRequest, AckRequest,
}
use kalki_chat.Api.AdminUsers.{
  admin_suspend_user, admin_unsuspend_user, admin_revoke_sessions, admin_revoke_device,
  admin_create_user, admin_send_message, CreateRequest, create_account,
}

module _ {I : Tables → Type 0} (s : Stable I) where
  create_account-Keeps :
      (v : Env) (c : Claims) (r : CreateRequest) (login password : Text)
      → Keeps I (create_account v c r login password)
  unfolding create_account
  create_account-Keeps v c r login password =
      search (keeps_rules, add_user-Keeps s, record_event-Keeps s) depth 16

  pub admin_devices_active-Keeps : (v : Env) → Keeps I (admin_devices_active v)
  unfolding admin_devices_active
  admin_devices_active-Keeps v = search keeps_rules depth 16

  pub admin_sync_inbound-Keeps :
      (v : Env) (c : Claims) (r : Option InboundRequest) → Keeps I (admin_sync_inbound v c r)
  unfolding admin_sync_inbound
  admin_sync_inbound-Keeps v c r = search (keeps_rules, Keeps-exec, s.new_mirror) depth 16

  pub admin_sync_enqueue-Keeps :
      (v : Env) (c : Claims) (r : Option OutboundRequest) → Keeps I (admin_sync_enqueue v c r)
  unfolding admin_sync_enqueue
  admin_sync_enqueue-Keeps v c r = search (keeps_rules, Keeps-exec, s.new_queued) depth 16

  pub admin_sync_pending-Keeps : (v : Env) → Keeps I (admin_sync_pending v)
  unfolding admin_sync_pending
  admin_sync_pending-Keeps v = search keeps_rules depth 16

  pub admin_sync_ack-Keeps :
      (v : Env) (id : Text) (r : Option AckRequest) → Keeps I (admin_sync_ack v id r)
  unfolding admin_sync_ack
  admin_sync_ack-Keeps v id r = search (keeps_rules, ack_failed-Keeps s, ack_body-Keeps s) depth 16

  pub admin_list_users-Keeps : (v : Env) (q : Text) → Keeps I (admin_list_users v q)
  unfolding admin_list_users
  admin_list_users-Keeps v q = search keeps_rules depth 16

  pub admin_get_user-Keeps : (v : Env) (q : Text) → Keeps I (admin_get_user v q)
  unfolding admin_get_user
  admin_get_user-Keeps v q = search keeps_rules depth 16

  pub admin_get_conversation-Keeps :
      (v : Env) (c : Claims) (q : Text) → Keeps I (admin_get_conversation v c q)
  unfolding admin_get_conversation
  admin_get_conversation-Keeps v c q = search keeps_rules depth 16

  pub admin_list_conversations-Keeps : (v : Env) (q : Text) → Keeps I (admin_list_conversations v q)
  unfolding admin_list_conversations
  admin_list_conversations-Keeps v q = search keeps_rules depth 16

  pub admin_list_devices-Keeps : (v : Env) → Keeps I (admin_list_devices v)
  unfolding admin_list_devices
  admin_list_devices-Keeps v = search keeps_rules depth 16

  pub admin_audit_list-Keeps : (v : Env) → Keeps I (admin_audit_list v)
  unfolding admin_audit_list
  admin_audit_list-Keeps v = search keeps_rules depth 16

  pub admin_analytics-Keeps : (v : Env) → Keeps I (admin_analytics v)
  unfolding admin_analytics
  admin_analytics-Keeps v = search keeps_rules depth 16

  pub admin_get_whatsapp-Keeps : (v : Env) → Keeps I (admin_get_whatsapp v)
  unfolding admin_get_whatsapp
  admin_get_whatsapp-Keeps v = search keeps_rules depth 16

  pub admin_suspend_user-Keeps :
      (v : Env) (c : Claims) (id : Text) → Keeps I (admin_suspend_user v c id)
  unfolding admin_suspend_user
  admin_suspend_user-Keeps v c id =
      search (keeps_rules, status-Keeps s, revoke_devices-Keeps s, record_event-Keeps s) depth 16

  pub admin_unsuspend_user-Keeps :
      (v : Env) (c : Claims) (id : Text) → Keeps I (admin_unsuspend_user v c id)
  unfolding admin_unsuspend_user
  admin_unsuspend_user-Keeps v c id =
      search (keeps_rules, status-Keeps s, record_event-Keeps s) depth 16

  pub admin_revoke_sessions-Keeps :
      (v : Env) (c : Claims) (id : Text) → Keeps I (admin_revoke_sessions v c id)
  unfolding admin_revoke_sessions
  admin_revoke_sessions-Keeps v c id =
      search (keeps_rules, revoke_devices-Keeps s, tokens_of-Keeps s, record_event-Keeps s) depth 16

  pub admin_revoke_device-Keeps :
      (v : Env) (c : Claims) (id : Text) → Keeps I (admin_revoke_device v c id)
  unfolding admin_revoke_device
  admin_revoke_device-Keeps v c id =
      search
        (
          keeps_rules,
          revoke_device-Keeps s,
          tokens_on-Keeps s,
          publish_revoked-Keeps s,
          record_event-Keeps s,
        )
        depth 16

  pub admin_create_user-Keeps :
      (v : Env) (c : Claims) (r : Option CreateRequest) → Keeps I (admin_create_user v c r)
  unfolding admin_create_user
  admin_create_user-Keeps v c r = search (keeps_rules, create_account-Keeps) depth 16

  pub admin_send_message-Keeps :
      (v : Env) (c : Claims) (user device : Text) (r : Option SendRequest)
      → Keeps I (admin_send_message v c user device r)
  unfolding admin_send_message
  admin_send_message-Keeps v c user device r =
      search (keeps_rules, send_message-Keeps s, record_event-Keeps s) depth 16

  pub admin_put_whatsapp-Keeps :
      (v : Env) (c : Claims) (r : Option WhatsAppRequest) → Keeps I (admin_put_whatsapp v c r)
  unfolding admin_put_whatsapp
  admin_put_whatsapp-Keeps v c r =
      search (keeps_rules, Keeps-exec, s.whatsapp, record_event-Keeps s) depth 16

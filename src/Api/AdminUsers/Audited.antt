-- ===== src/Api/AdminUsers/Audited.antt =====
-- Which records admins' actions leave (backend/internal/api/admin.go and admin_users.go).
use kalki_chat.Base.{some, [], ◌∷◌, ◌++◌, is_empty, Text, lit}
use kalki_chat.Env.{Env}
use kalki_chat.Db.{pure, ◌>>=◌, text, flag}
use kalki_chat.Audit.{AuditEvent, admin_event}
use kalki_chat.Crypto.Jwt.{Claims}
use kalki_chat.Messages.Send.{sent_id}
use kalki_chat.Api.Http.{H}
use kalki_chat.Api.Chat.{SendRequest}
use kalki_chat.Api.WhatsApp.{WhatsAppRequest, admin_put_whatsapp}
use kalki_chat.Api.AdminUsers.{
  CreateRequest, admin_suspend_user, admin_unsuspend_user, admin_revoke_sessions,
  admin_revoke_device, admin_create_user, admin_send_message,
}

-- What an admin can change.
pub data AdminAction : Type 0 where
  suspend unsuspend revoke_sessions revoke_device : Text → AdminAction
  create : CreateRequest → AdminAction
  put_whatsapp : WhatsAppRequest → AdminAction
  send : (user device : Text) → SendRequest → AdminAction

unfoldable pub perform : Env → Claims → AdminAction → H (Unit {0})
perform v c (suspend id) = admin_suspend_user v c id
perform v c (unsuspend id) = admin_unsuspend_user v c id
perform v c (revoke_sessions id) = admin_revoke_sessions v c id
perform v c (revoke_device id) = admin_revoke_device v c id
perform v c (create r) = admin_create_user v c (some r) >>= λ _. pure tt
perform v c (put_whatsapp r) = admin_put_whatsapp v c (some r)
perform v c (send user device r) = admin_send_message v c user device (some r) >>= λ _. pure tt

-- What the record of an action says.
abbrev pub record_of : Env → Claims → AdminAction → AuditEvent
record_of v c (suspend id) = admin_event c.sub (lit "user.suspend") (lit "user") id []
record_of v c (unsuspend id) = admin_event c.sub (lit "user.unsuspend") (lit "user") id []
record_of v c (revoke_sessions id) =
    admin_event c.sub (lit "user.revoke_sessions") (lit "user") id []
record_of v c (revoke_device id) = admin_event c.sub (lit "device.revoke") (lit "device") id []
record_of v c (create r) =
    admin_event c.sub (lit "user.create") (lit "user") (lit "usr_" ++ v.uuid 0) (
      (lit "login", text (v.to_lower (v.trim_space r.login)))
      ∷ (lit "password_generated", flag (is_empty r.initial_password))
      ∷ [])
record_of v c (put_whatsapp r) =
    admin_event c.sub (lit "whatsapp_config.update") (lit "config") (lit "whatsapp")
      ((lit "phone_e164", text r.phone_e164) ∷ [])
record_of v c (send user device r) =
    admin_event c.sub (lit "message.reply") (lit "user") user
      ((lit "server_id", text (sent_id v)) ∷ [])

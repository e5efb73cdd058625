-- ===== src/Api/Router/Recorded.antt =====
-- The requests that leave a record in the audit log (the handlers of backend/internal/api).
use kalki_chat.Base.{◌≡◌, some, [], ◌∷◌, ◌++◌, arith, Text, ◌⊎◌, lit}
use kalki_chat.Env.{Env}
use kalki_chat.Db.{World, Outcome, Admin, text}
use kalki_chat.Api.Http.{HttpError}
use kalki_chat.Crypto.Jwt.{Claims, Signer, Json}
use kalki_chat.Auth.Refresh.{refresh_issue}
use kalki_chat.Messages.{send_message}
use kalki_chat.Api.WhatsApp.{admin_put_whatsapp, WhatsAppRequest}
use kalki_chat.Api.AdminAuth.{RegisterRequest, RegisterResponse, enrol_admin}
use kalki_chat.Api.Chat.{SendRequest}
use kalki_chat.Api.AdminUsers.{
  admin_suspend_user, admin_unsuspend_user, admin_revoke_sessions, admin_revoke_device,
  admin_create_user, create_account, admin_send_message, CreateRequest, CreateResponse,
}
use kalki_chat.Api.AdminUsers.Audited.{
  record_of, suspend, unsuspend, revoke_sessions, revoke_device, create, put_whatsapp, send,
}
use kalki_chat.Audit.{AuditEvent, audit_row, admin_event}
use kalki_chat.Api.Router.Quiet.{log}

-- The log stays as it was, or has this record added.
abbrev pub Logged : Env → World → World → AuditEvent → Type 0
Logged v w w' e = (log w' ≡ log w) ⊎ (log w' ≡ log w ++ audit_row v e ∷ [])

pub admin_suspend_user-Logged :
    (v : Env) (c : Claims) (id : Text) (w w' : World) (o : Outcome HttpError (Unit {0}))
    → admin_suspend_user v c id w ≡ (o, w')
    → Logged v w w' (record_of v c (suspend id))
unfolding admin_suspend_user
admin_suspend_user-Logged v c id w w' o h = ground arith

pub admin_unsuspend_user-Logged :
    (v : Env) (c : Claims) (id : Text) (w w' : World) (o : Outcome HttpError (Unit {0}))
    → admin_unsuspend_user v c id w ≡ (o, w')
    → Logged v w w' (record_of v c (unsuspend id))
unfolding admin_unsuspend_user
admin_unsuspend_user-Logged v c id w w' o h = ground arith

pub admin_revoke_sessions-Logged :
    (v : Env) (c : Claims) (id : Text) (w w' : World) (o : Outcome HttpError (Unit {0}))
    → admin_revoke_sessions v c id w ≡ (o, w')
    → Logged v w w' (record_of v c (revoke_sessions id))
unfolding admin_revoke_sessions
admin_revoke_sessions-Logged v c id w w' o h = ground arith

pub admin_revoke_device-Logged :
    (v : Env) (c : Claims) (id : Text) (w w' : World) (o : Outcome HttpError (Unit {0}))
    → admin_revoke_device v c id w ≡ (o, w')
    → Logged v w w' (record_of v c (revoke_device id))
unfolding admin_revoke_device
admin_revoke_device-Logged v c id w w' o h = ground arith

pub admin_create_user-Logged :
    (v : Env) (c : Claims) (r : CreateRequest) (w w' : World) (o : Outcome HttpError CreateResponse)
    → admin_create_user v c (some r) w ≡ (o, w')
    → Logged v w w' (record_of v c (create r))
unfolding admin_create_user create_account
admin_create_user-Logged v c r w w' o h = ground arith

pub admin_send_message-Logged :
    (v : Env) (c : Claims) (user device : Text) (r : SendRequest) (w w' : World)
    (o : Outcome HttpError Text)
    → admin_send_message v c user device (some r) w ≡ (o, w')
    → Logged v w w' (record_of v c (send user device r))
unfolding admin_send_message send_message
admin_send_message-Logged v c user device r w w' o h = ground arith

pub admin_put_whatsapp-Logged :
    (v : Env) (c : Claims) (r : WhatsAppRequest) (w w' : World) (o : Outcome HttpError (Unit {0}))
    → admin_put_whatsapp v c (some r) w ≡ (o, w')
    → Logged v w w' (record_of v c (put_whatsapp r))
unfolding admin_put_whatsapp
admin_put_whatsapp-Logged v c r w w' o h = ground arith

abbrev pub register_event : Env → Admin → RegisterRequest → AuditEvent
register_event v a r =
    admin_event a.id (lit "admin_device.register") (lit "device") (lit "dev_" ++ v.uuid 0)
      ((lit "platform", text r.device.platform) ∷ (lit "name", text r.device.name) ∷ [])

pub enrol_admin-Logged :
    (v : Env) (j : Json) (s : Signer) (r : RegisterRequest) (a : Admin) (w w' : World)
    (o : Outcome HttpError RegisterResponse)
    → enrol_admin v j s r a w ≡ (o, w')
    → Logged v w w' (register_event v a r)
unfolding enrol_admin refresh_issue
enrol_admin-Logged v j s r a w w' o h = ground arith

-- ===== src/Api/Router/Stable.antt =====
-- The statements of the handlers (backend/internal/api, auth and messages), as an interface: what a
-- predicate on the tables has to survive to survive every request.
use kalki_chat.Base.{
  ℕ, ◌≡◌, Bool, Option, some, List, [], ◌∷◌, ◌++◌, Text, update_rows, eq_text, ◌==◌,
}
use kalki_chat.Env.{Env}
use kalki_chat.Db.{
  Tables, Device, RefreshToken, SignedPrekey, Conversation, MediaBlob, MediaKey, AuditLog,
  LoginFailure, WhatsAppConfig,
}
use kalki_chat.Auth.Refresh.{
  new_token, insert_token, update_tokens, set_revoked, set_used, is_token,
}
use kalki_chat.Messages.{
  SendInput, new_message, insert_message, is_device, is_undelivered, set_delivered, is_unread,
  set_read,
}
use kalki_chat.Api.Session.{
  DeviceRequest, new_device, set_last_login, revoke_device, insert_device, insert_conversation,
  insert_failure,
}
use kalki_chat.Api.Prekeys.{set_consumed, upsert_signed, insert_opk}
use kalki_chat.Api.Media.{insert_blob, insert_key}
use kalki_chat.Api.AdminSync.{
  is_pending_row, set_failed, new_row, insert_mirror, mirror_reply, insert_queued, update_sent,
}
use kalki_chat.Api.AdminUsers.{update_status, revoke_devices, new_user, insert_user}
use kalki_chat.Api.Password.{is_user, set_password}
use kalki_chat.Api.AdminAuth.{is_admin_row, set_admin_login}
use kalki_chat.Api.Middleware.{set_seen}
use kalki_chat.Api.WhatsApp.{set_whatsapp}

-- A statement keeps the predicate, if it is carried out.
abbrev pub IsKept : (Tables → Type 0) → (Tables → Option Tables) → Type 0
IsKept I f = (t t' : Tables) → f t ≡ some t' → I t → I t'

-- One field for each statement.
pub record Stable (I : Tables → Type 0) : Type 0 where
  pub status : (id st : Text) → IsKept I (update_status id st)
  pub password :
      (id hash : Text)
      → IsKept I
          (λ t. some (record t { users = update_rows (is_user id) (set_password hash) t.users }))
  pub login_time :
      (n : ℕ) (id : Text)
      → IsKept I (λ t.
        some (record t { users = update_rows (λ x. eq_text x.id id) (set_last_login n) t.users }))
  pub admin_time :
      (n : ℕ) (id : Text)
      → IsKept I (λ t.
        some (record t { admins = update_rows (is_admin_row id) (set_admin_login n) t.admins }))
  pub seen :
      (n : ℕ) (id : Text)
      → IsKept I
          (λ t. some (record t { devices = update_rows (is_device id) (set_seen n) t.devices }))
  pub device_revoked :
      (n : ℕ) (id : Text)
      → IsKept I (λ t.
        some (record t { devices = update_rows (is_device id) (revoke_device n) t.devices }))
  pub devices_revoked : (v : Env) (id : Text) → IsKept I (revoke_devices v id)
  -- The tokens to revoke may depend on the devices.
  pub tokens_revoked :
      (p : List Device → RefreshToken → Bool) (n : ℕ)
      → IsKept I (λ t. some (update_tokens (p t.devices) (set_revoked n) t))
  pub token_used :
      (n : ℕ) (id : Text) → IsKept I (λ t. some (update_tokens (is_token id) (set_used n) t))
  pub prekey_consumed :
      (n id : ℕ)
      → IsKept I (λ t. some (record t {
        one_time_prekeys = update_rows (λ o. o.id == id) (set_consumed n) t.one_time_prekeys;
      }))
  pub row_failed :
      (id e : Text)
      → IsKept I (λ t. some (record t {
        admin_outbound_queue =
            update_rows (is_pending_row id) (set_failed e) t.admin_outbound_queue;
      }))
  pub delivered :
      (n : ℕ) (id d : Text)
      → IsKept I (λ t.
        some
          (record t { messages = update_rows (is_undelivered id d) (set_delivered n) t.messages }))
  pub read :
      (n : ℕ) (id d : Text)
      → IsKept I
          (λ t. some (record t { messages = update_rows (is_unread id d) (set_read n) t.messages }))
  pub audit :
      (x : AuditLog) → IsKept I (λ t. some (record t { audit_logs = t.audit_logs ++ x ∷ [] }))
  pub failure : (f : LoginFailure) → IsKept I (insert_failure f)
  pub new_user : (v : Env) (login hash : Text) → IsKept I (insert_user (new_user v login hash))
  pub new_device :
      (v : Env) (id kind owner : Text) (r : DeviceRequest) (ed x : Text)
      → IsKept I (insert_device (new_device v id kind owner r ed x))
  pub new_conversation : (c : Conversation) → IsKept I (insert_conversation c)
  pub new_token :
      (v : Env) (id device family raw : Text) (ttl : ℕ)
      → IsKept I (insert_token (new_token v id device family raw ttl))
  pub new_message :
      (v : Env) (id : Text) (i : SendInput) → IsKept I (insert_message (new_message v id i))
  pub new_blob : (b : MediaBlob) → IsKept I (insert_blob b)
  pub new_key : (k : MediaKey) → IsKept I (insert_key k)
  pub new_signed : (k : SignedPrekey) → IsKept I (upsert_signed k)
  pub new_prekey : (d : Text) (n : ℕ) (pubkey : Text) → IsKept I (insert_opk d n pubkey)
  pub new_mirror :
      (v : Env) (id conversation direction body : Text)
      → IsKept I (insert_mirror v id conversation direction body)
  pub new_reply : (v : Env) (id body : Text) → IsKept I (mirror_reply v id body)
  pub new_queued :
      (v : Env) (user admin body : Text) → IsKept I (insert_queued (new_row v user admin body))
  pub settled :
      (v : Env) (id : Text) (server_id : Option Text) → IsKept I (update_sent v id server_id)
  pub whatsapp : (c : WhatsAppConfig) (admin : Text) → IsKept I (set_whatsapp c admin)

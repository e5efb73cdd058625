-- ===== src/Db/Schema.antt =====
-- The tables of backend/migrations, with the columns that the Go code reads or writes, and the
-- constraints that can refuse its statements.
use kalki_chat.Base.{ℕ, Bool, true, Option, none, some, List, Text, eq_text, exists_row}

pub record User : Type 0 where
  pub id : Text
  pub login : Text
  pub password_hash : Text
  pub status : Text
  pub must_change_password : Bool
  pub last_login_at : Option ℕ
  pub created_at : ℕ

pub record Admin : Type 0 where
  pub id : Text
  pub email : Text
  pub password_hash : Text
  pub totp_secret_enc : Text
  pub role : Text
  pub last_login_at : Option ℕ

pub record Device : Type 0 where
  pub id : Text
  pub owner_kind : Text
  pub owner_id : Text
  pub name : Text
  pub platform : Text
  pub identity_ed25519 : Text
  pub identity_x25519 : Text
  pub fcm_token : Option Text
  pub apns_token : Option Text
  pub created_at : ℕ
  pub last_seen_at : ℕ
  pub revoked_at : Option ℕ

pub record RefreshToken : Type 0 where
  pub id : Text
  pub device_id : Text
  pub family_id : Text
  pub token_hash : Text
  pub used_at : Option ℕ
  pub revoked_at : Option ℕ
  pub expires_at : ℕ

pub record SignedPrekey : Type 0 where
  pub device_id : Text
  pub prekey_id : ℕ
  pub pubkey : Text
  pub signature : Text
  pub created_at : ℕ

pub record OneTimePrekey : Type 0 where
  pub id : ℕ
  pub device_id : Text
  pub prekey_id : ℕ
  pub pubkey : Text
  pub consumed_at : Option ℕ

pub record Conversation : Type 0 where
  pub id : Text
  pub user_id : Text

pub record Message : Type 0 where
  pub id : Text
  pub conversation_id : Text
  pub sender_device_id : Text
  pub recipient_device_id : Text
  pub envelope : Text
  pub signature : Text
  pub media_id : Option Text
  pub client_id : Text
  pub delivered_at : Option ℕ
  pub read_at : Option ℕ
  pub created_at : ℕ

pub record MediaBlob : Type 0 where
  pub id : Text
  pub s3_key : Text
  pub size_bytes : ℕ
  pub content_hash_sha256 : Text
  pub uploader_device_id : Text
  pub created_at : ℕ

pub record MediaKey : Type 0 where
  pub media_id : Text
  pub recipient_device_id : Text
  pub wrapped_key : Text
  pub nonce : Text
  pub kem_pubkey : Text

-- A value in the metadata of an audit record.
pub data MetaValue : Type 0 where
  text : Text → MetaValue
  flag : Bool → MetaValue

-- A map from keys to values, as its entries; no key comes twice, and it is only read by key.
abbrev pub Metadata : Type 0
Metadata = List (Text × MetaValue)

pub record AuditLog : Type 0 where
  pub actor_kind : Text
  pub actor_id : Text
  pub action : Text
  pub target_kind : Text
  pub target_id : Text
  pub metadata : Metadata
  pub created_at : ℕ

pub record LoginFailure : Type 0 where
  pub login : Text
  pub attempted_at : ℕ

pub record PlainText : Type 0 where
  pub message_id : Text
  pub conversation_id : Text
  pub direction : Text
  pub body : Text
  pub created_at : ℕ
  pub decrypted_at : ℕ

-- `CHECK (status IN ('pending','sent','failed'))`
pub data QueueStatus : Type 0 where
  pending sent failed : QueueStatus

pub record QueueRow : Type 0 where
  pub id : Text
  pub user_id : Text
  pub admin_id : Text
  pub body : Text
  pub status : QueueStatus
  pub server_message_id : Option Text
  pub last_error : Option Text
  pub created_at : ℕ
  pub sent_at : Option ℕ

pub record WhatsAppConfig : Type 0 where
  pub phone_e164 : Text
  pub message_template : Text
  pub updated_by_admin : Option Text

pub record Tables : Type 0 where
  pub users : List User
  pub admins : List Admin
  pub devices : List Device
  pub refresh_tokens : List RefreshToken
  pub signed_prekeys : List SignedPrekey
  pub one_time_prekeys : List OneTimePrekey
  pub conversations : List Conversation
  pub messages : List Message
  pub media_blobs : List MediaBlob
  pub media_keys : List MediaKey
  pub audit_logs : List AuditLog
  pub login_failures : List LoginFailure
  pub admin_plaintext : List PlainText
  pub admin_outbound_queue : List QueueRow
  -- The devices of active_sessions.
  pub active_sessions : List Text
  -- The row of whatsapp_config, if there is one.
  pub whatsapp_config : Option WhatsAppConfig

abbrev pub has_device : Text → Tables → Bool
has_device i t = exists_row (λ (d : Device). eq_text d.id i) t.devices

abbrev pub has_message : Text → Tables → Bool
has_message i t = exists_row (λ (m : Message). eq_text m.id i) t.messages

abbrev pub has_blob : Text → Tables → Bool
has_blob i t = exists_row (λ (b : MediaBlob). eq_text b.id i) t.media_blobs

abbrev pub has_conversation : Text → Tables → Bool
has_conversation i t = exists_row (λ (c : Conversation). eq_text c.id i) t.conversations

abbrev pub has_user : Text → Tables → Bool
has_user i t = exists_row (λ (u : User). eq_text u.id i) t.users

abbrev pub has_admin : Text → Tables → Bool
has_admin i t = exists_row (λ (a : Admin). eq_text a.id i) t.admins

-- A key that may be null refers to a row where it is not.
abbrev pub refers : Option Text → (Text → Bool) → Bool
refers none p = true
refers (some i) p = p i

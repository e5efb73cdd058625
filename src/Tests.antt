-- ===== src/Tests.antt =====
-- Data for the runs below: an environment in which nothing fails, and a database of two devices.
use kalki_chat.Base.{
  ℕ, zero, suc, ◌+◌, ◌-◌, ◌*◌, ◌%◌, Bool, true, false, Option, none, some, List, [], ◌∷◌, ◌++◌, map,
  Text, lit, eq_text,
}
use kalki_chat.Env.{Env, day}
use kalki_chat.Db.{
  Tables, User, Device, RefreshToken, OneTimePrekey, SignedPrekey, Conversation, Message, MediaBlob,
  MediaKey, PlainText, QueueRow, pending, sent, World,
}
use kalki_chat.Crypto.Jwt.{Claims, Signer, Json}
mod Chat
mod Tokens
mod Hubs
mod Handlers
mod Queues
mod Sweeps
mod Admin
mod Settings
mod Systems
mod Programs

abbrev pub fill : ℕ → ℕ → Text
fill zero c = []
fill (suc n) c = c ∷ fill n c

abbrev pub subtract : ℕ → ℕ → ℕ
subtract a b = a - b

-- Encodings shift or keep the bytes, a signature is the text that it signs, and a hash the text.
abbrev pub env : Env
env = record {
  now = 100 * day;
  fails = λ n. false;
  uuid = λ n. n ∷ [];
  random = λ k n. some (7 ∷ []);
  base64_encode = λ s. s;
  base64_decode = λ s. some s;
  base64_prefix = λ s. s;
  random_below = λ k m. some (k % m);
  url_encode = λ s. map (λ c. c + 47) s;
  url_decode = λ s. some (map (λ c. subtract c 47) s);
  hex_decode = λ s. some s;
  sha256 = λ s. s;
  ed25519_verify = λ k m s. eq_text s m;
  ed25519_sign = λ k m. m;
  gcm_seal = λ k n p a. p ++ fill 16 0;
  gcm_open = λ k n c a. none;
  argon2_compare = λ p h. some (eq_text p h);
  argon2_hash = λ p. some p;
  totp_valid = λ c s t. true;
  to_lower = λ s. s;
  trim_space = λ s. s;
  query_escape = λ s. s;
  like = λ s p. true;
  presign_put = λ k n. some k;
  presign_get = λ k. some k;
  delete_fails = λ k. false;
  access_ttl = day;
  refresh_ttl = 30 * day;
  totp_enc_key_hex = [];
}

abbrev pub later : Env
later = record env { now = 101 * day; uuid = λ n. (50 + n) ∷ [] }

abbrev pub key : Text
key = fill 32 9

abbrev pub alice : Text
alice = lit "alice"

abbrev pub phone : Text
phone = lit "phone"

abbrev pub desk : Text
desk = lit "desk"

abbrev pub boss : Text
boss = lit "boss"

abbrev pub device : (id kind owner : Text) → Device
device id kind owner = record {
  id = id;
  owner_kind = kind;
  owner_id = owner;
  name = id;
  platform = lit "web";
  identity_ed25519 = key;
  identity_x25519 = key;
  fcm_token = none;
  apns_token = none;
  created_at = 0;
  last_seen_at = 0;
  revoked_at = none;
}

abbrev pub user : User
user = record {
  id = alice;
  login = alice;
  password_hash = lit "password-1";
  status = lit "active";
  must_change_password = true;
  last_login_at = none;
  created_at = 0;
}

abbrev pub message : Message
message = record {
  id = lit "m1";
  conversation_id = lit "c1";
  sender_device_id = phone;
  recipient_device_id = desk;
  envelope = lit "x";
  signature = lit "x";
  media_id = some (lit "b1");
  client_id = lit "first";
  delivered_at = none;
  read_at = none;
  created_at = 99 * day;
}

abbrev pub token : RefreshToken
token = record {
  id = lit "t1";
  device_id = phone;
  family_id = lit "f1";
  token_hash = lit "raw";
  used_at = none;
  revoked_at = none;
  expires_at = 120 * day;
}

abbrev pub prekey : ℕ → OneTimePrekey
prekey n = record { id = n; device_id = desk; prekey_id = n; pubkey = key; consumed_at = none }

abbrev pub signed_prekey : SignedPrekey
signed_prekey = record {
  device_id = desk;
  prekey_id = 1;
  pubkey = key;
  signature = fill 64 1;
  created_at = 0;
}

abbrev pub blob : MediaBlob
blob = record {
  id = lit "b1";
  s3_key = lit "o1";
  size_bytes = 5;
  content_hash_sha256 = key;
  uploader_device_id = phone;
  created_at = 10 * day;
}

abbrev pub media_key : MediaKey
media_key = record {
  media_id = lit "b1";
  recipient_device_id = desk;
  wrapped_key = key;
  nonce = fill 12 0;
  kem_pubkey = key;
}

abbrev pub reply : QueueRow
reply = record {
  id = lit "q1";
  user_id = alice;
  admin_id = boss;
  body = lit "hello";
  status = pending;
  server_message_id = none;
  last_error = none;
  created_at = 99 * day;
  sent_at = none;
}

abbrev pub old_reply : QueueRow
old_reply = record reply { id = lit "q0"; status = sent; sent_at = some (99 * day) }

abbrev pub mirror : PlainText
mirror = record {
  message_id = lit "m0";
  conversation_id = lit "c1";
  direction = lit "inbound";
  body = lit "hi";
  created_at = 98 * day;
  decrypted_at = 98 * day;
}

abbrev pub tables : Tables
tables = record {
  users = user ∷ [];
  admins = [];
  devices = device phone (lit "user") alice ∷ device desk (lit "admin") boss ∷ [];
  refresh_tokens = token ∷ [];
  signed_prekeys = signed_prekey ∷ [];
  one_time_prekeys = prekey 1 ∷ prekey 2 ∷ [];
  conversations = record { id = lit "c1"; user_id = alice } ∷ [];
  messages = message ∷ [];
  media_blobs = blob ∷ [];
  media_keys = media_key ∷ [];
  audit_logs = [];
  login_failures = [];
  admin_plaintext = mirror ∷ [];
  admin_outbound_queue = old_reply ∷ reply ∷ [];
  active_sessions = [];
  whatsapp_config = none;
}

abbrev pub world : World
world = record { tables = tables; published = [] }

abbrev pub claims : Claims
claims = record {
  sub = phone;
  owner_id = alice;
  owner = lit "user";
  iat = 0;
  exp = 0;
  jti = [];
  audience = lit "kalki.user";
}

abbrev pub boss_claims : Claims
boss_claims = record claims { sub = desk; owner_id = boss; owner = lit "admin"; jti = lit "s1" }

abbrev pub signer : Signer
signer = record { priv = key; pub_key = key; kid = lit "k1"; ttl = day }

-- ===== src/Messages.antt =====
-- backend/internal/messages/messages.go: ciphertext envelopes are checked, stored and fanned out;
-- and the replay of undelivered ones by backend/internal/ws/hub.go.
use kalki_chat.Base.{
  ℕ, ◌+◌, ◌*◌, Bool, true, false, not, ◌&&◌, ◌||◌, Option, none, some, List, [], ◌∷◌, ◌++◌, map,
  ltb, leb, ◌==◌, if◌then◌else◌, is_none, is_some, length, take, Text, lit, eq_text, find_row,
  exists_row, select_rows, order_rows, update_rows,
}
use mathlib.Core.Option
use kalki_chat.Env.{Env, day, unix_milli}
use kalki_chat.Ws.Hub.{Hub, Payload, recv, ServerEvent, device_channel, lookup_client, send}
use kalki_chat.Db.{
  Tables, Device, Message, has_device, has_message, has_conversation, has_blob, refers, World, M,
  Outcome, done, refused, pure, refuse, ◌>>=◌, ◌>>◌, require, need, query, exec, publish,
}
pub mod Send
pub mod Replay
pub mod Receipts
pub mod Delivery
pub mod Missed
pub mod Live

-- `MaxEnvelopeBytes`
abbrev pub max_envelope_bytes : ℕ
max_envelope_bytes = 16 * 1024

pub record SendInput : Type 0 where
  pub sender_device_id : Text
  pub recipient_device_id : Text
  pub conversation_id : Text
  pub client_id : Text
  pub envelope : Text
  pub signature : Text
  pub media_id : Option Text

-- The errors of the package, and that of a failed call.
pub data SendError : Type 0 where
  envelope_size invalid_signature unknown_sender unknown_recipient session_revoked db : SendError

-- `VerifyEd25519` of backend/internal/crypto/crypto.go.
abbrev pub verify_ed25519 : Env → Text → Text → Text → Bool
verify_ed25519 v pub_key msg sig = length pub_key == 32 && v.ed25519_verify pub_key msg sig

abbrev pub is_device : Text → Device → Bool
is_device id d = eq_text d.id id

-- `id = $1 AND revoked_at IS NULL`
abbrev pub is_live_device : Text → Device → Bool
is_live_device id d = eq_text d.id id && is_none d.revoked_at

-- The key of `ON CONFLICT (sender_device_id, client_id)`.
abbrev pub is_from : Text → Text → Message → Bool
is_from sender client m = eq_text m.sender_device_id sender && eq_text m.client_id client

abbrev pub new_message : Env → Text → SendInput → Message
new_message v id i = record {
  id = id;
  conversation_id = i.conversation_id;
  sender_device_id = i.sender_device_id;
  recipient_device_id = i.recipient_device_id;
  envelope = i.envelope;
  signature = i.signature;
  media_id = i.media_id;
  client_id = i.client_id;
  delivered_at = none;
  read_at = none;
  created_at = v.now;
}

-- The rows that a message refers to.
abbrev pub has_references : Message → Tables → Bool
has_references m t =
    has_conversation m.conversation_id t
    && (has_device m.sender_device_id t
        && (has_device m.recipient_device_id t && refers m.media_id (λ i. has_blob i t)))

-- `INSERT INTO messages ... ON CONFLICT (sender_device_id, client_id) DO NOTHING`
abbrev pub insert_message : Message → Tables → Option Tables
insert_message m t =
    if exists_row (is_from m.sender_device_id m.client_id) t.messages
    then some t
    else if has_message m.id t
    then none
    else if has_references m t
    then some (record t { messages = t.messages ++ m ∷ [] })
    else none

abbrev pub recv_event : Env → Message → Bool → ServerEvent
recv_event v m backfilled = record {
  type = lit "message.recv";
  id = [];
  ts = 0;
  payload =
      recv m.id m.sender_device_id (v.base64_encode m.envelope) (v.base64_encode m.signature)
        m.media_id (unix_milli m.created_at) backfilled;
}

-- The checks of `Service.Send` before anything is written: calls 10 and 11.
unfoldable pub validate : Env → SendInput → M SendError (Unit {0})
validate v i = do
  require (leb 1 (length i.envelope) && leb (length i.envelope) max_envelope_bytes) envelope_size
  found ← query v 10 db (λ t. find_row (is_device i.sender_device_id) t.devices)
  sender ← need found unknown_sender
  require (is_none sender.revoked_at) session_revoked
  require (verify_ed25519 v sender.identity_ed25519 i.envelope i.signature) invalid_signature
  exists ← query v 11 db (λ t. exists_row (is_live_device i.recipient_device_id) t.devices)
  require exists unknown_recipient

-- `Service.Send`: calls 10 to 13 of a request. Its identifier is the request's first.
unfoldable pub send_message : Env → SendInput → M SendError Text
unfolding validate
send_message v i = do
  validate v i
  let id = lit "msg_" ++ v.uuid 0
  let m = new_message v id i
  exec v 12 db (insert_message m)
  publish v 13 db (device_channel i.recipient_device_id) (recv_event v m false)
  pure id

-- `Service.Backfill`: the limit is 100 outside 1 to 200; `after` compares the texts of identifiers.
unfoldable pub backfill :
    Env
    → (after : Text → Text → Bool) → (recipient after_id : Text) → ℕ
    → M SendError (List Message)
backfill v after recipient after_id limit = do
  let n = if leb 1 limit && leb limit 200 then limit else 100
  query v 0 db (λ t. take n (
      order_rows (λ (a b : Message). leb a.created_at b.created_at)
        (select_rows (λ m. eq_text m.recipient_device_id recipient && after m.id after_id)
          t.messages)))

abbrev pub is_undelivered : Text → Text → Message → Bool
is_undelivered id recipient m =
    eq_text m.id id && (eq_text m.recipient_device_id recipient && is_none m.delivered_at)

abbrev pub is_unread : Text → Text → Message → Bool
is_unread id recipient m =
    eq_text m.id id && (eq_text m.recipient_device_id recipient && is_none m.read_at)

abbrev pub set_delivered : ℕ → Message → Message
set_delivered t m = record m { delivered_at = some t }

abbrev pub set_read : ℕ → Message → Message
set_read t m = record m { read_at = some t }

-- `Service.MarkDelivered`
unfoldable pub mark_delivered : Env → (server_id device_id : Text) → M SendError (Unit {0})
mark_delivered v id d = exec v 0 db (λ t.
    some
      (record t { messages = update_rows (is_undelivered id d) (set_delivered v.now) t.messages }))

-- `Service.MarkRead`, with call n of the request.
unfoldable pub mark_read : Env → ℕ → (server_id device_id : Text) → M SendError (Unit {0})
mark_read v n id d =
    exec v n db
      (λ t. some (record t { messages = update_rows (is_unread id d) (set_read v.now) t.messages }))

-- `WHERE recipient_device_id = $1 AND delivered_at IS NULL AND created_at > NOW() - 7 days`
abbrev pub is_missed : ℕ → Text → Message → Bool
is_missed now d m =
    eq_text m.recipient_device_id d && (is_none m.delivered_at && ltb now (m.created_at + 7 * day))

-- The rows that `backfillMissed` replays: the 200 oldest.
unfoldable pub missed : ℕ → Text → List Message → List Message
missed now d ms = take 200 (
    order_rows (λ (a b : Message). leb a.created_at b.created_at)
      (select_rows (is_missed now d) ms))

-- The loop over the batch, to a client that was looked up before.
unfoldable pub send_batch : Env → ℕ → List Message → Hub → Option Hub
send_batch v r [] h = some h
send_batch v r (m ∷ ms) h = elim (send (recv_event v m true) r h) [
  | none ↦ none
  | some h' ↦ send_batch v r ms h'
]

-- `Hub.backfillMissed`: nothing if the query fails or the device is not connected here.
unfoldable pub backfill_missed : Env → Text → Tables → Hub → Option Hub
unfolding missed send_batch
backfill_missed v d t h = if v.fails 0 then some h else elim (lookup_client d h.clients) [
  | none ↦ some h
  | some r ↦ send_batch v r (missed v.now d t.messages) h
]

-- ===== src/Api/AdminSync.antt =====
-- backend/internal/api/admin_sync.go: the plaintext mirror and the queue of replies between the
-- admin's web page and the admin's device.
use kalki_chat.Base.{
  ℕ, ◌+◌, ◌*◌, Bool, true, false, not, ◌&&◌, ◌||◌, Option, none, some, List, [], ◌∷◌, ◌++◌, ltb,
  leb, ◌==◌, if◌then◌else◌, is_none, is_empty, length, take, Text, lit, eq_text, find_row,
  exists_row, select_rows, order_rows, update_rows,
}
use mathlib.Core.Option
use kalki_chat.Env.{Env}
use kalki_chat.Db.{
  Tables, Device, User, Message, PlainText, QueueRow, QueueStatus, pending, sent, failed, has_user,
  has_admin, has_message, has_conversation, World, M, Outcome, done, refused, pure, refuse, ◌>>=◌,
  ◌>>◌, require, need, query, exec, transaction_if,
}
use kalki_chat.Messages.{is_device}
use kalki_chat.Crypto.Jwt.{Claims}
use kalki_chat.Api.Http.{
  H, HttpError, http, db_500, nullable, bad_json, missing_fields, no_claims, body_too_large,
  unknown_message, not_participant, user_unknown, missing_id,
}
pub mod Inbound
pub mod Queue

abbrev pub is_message : Text → Message → Bool
is_message id m = eq_text m.id id

-- The row of the query of `adminSyncInbound`.
pub record Route : Type 0 where
  pub conversation_id : Text
  pub direction : Text
  pub involves : Bool

abbrev pub is_device_of : Text → Device → Bool
is_device_of admin d = eq_text d.owner_kind (lit "admin") && eq_text d.owner_id admin

abbrev pub route_row : Text → Message → Device → Device → Route
route_row admin m sd rd = record {
  conversation_id = m.conversation_id;
  direction = if eq_text rd.owner_kind (lit "admin") then lit "inbound" else lit "outbound";
  involves = is_device_of admin sd || is_device_of admin rd;
}

-- The two joins: no row if one of the devices is missing.
abbrev pub joined : Text → Message → Option Device → Option Device → Option Route
joined admin m (some sd) (some rd) = some (route_row admin m sd rd)
joined admin m (some sd) none = none
joined admin m none rd = none

abbrev pub route_of : Text → Tables → Option Message → Option Route
route_of admin t none = none
route_of admin t (some m) =
    joined admin m (find_row (is_device m.sender_device_id) t.devices)
      (find_row (is_device m.recipient_device_id) t.devices)

abbrev pub find_route : Text → Text → Tables → Option Route
find_route id admin t = route_of admin t (find_row (is_message id) t.messages)

abbrev pub is_mirror_of : Text → PlainText → Bool
is_mirror_of id p = eq_text p.message_id id

-- `INSERT INTO admin_plaintext ... SELECT ... FROM messages m WHERE m.id = $1
--  ON CONFLICT (message_id) DO NOTHING`, for the message that was found.
abbrev pub mirror_found :
    Env → (conversation direction body : Text) → Tables → Option Message → Option Tables
mirror_found v conversation direction body t none = some t
mirror_found v conversation direction body t (some m) =
    if exists_row (is_mirror_of m.id) t.admin_plaintext
    then some t
    else if has_conversation conversation t
    then some (record t {
      admin_plaintext =
          t.admin_plaintext
          ++ record {
            message_id = m.id;
            conversation_id = conversation;
            direction = direction;
            body = body;
            created_at = m.created_at;
            decrypted_at = v.now;
          }
            ∷ [];
    })
    else none

abbrev pub insert_mirror : Env → (id conversation direction body : Text) → Tables → Option Tables
insert_mirror v id conversation direction body t =
    mirror_found v conversation direction body t (find_row (is_message id) t.messages)

pub record InboundRequest : Type 0 where
  pub message_id : Text
  pub body : Text

-- `adminSyncInbound`: calls 0 and 1.
unfoldable pub admin_sync_inbound : Env → Claims → Option InboundRequest → H Route
admin_sync_inbound v c body = do
  require (not (is_empty c.owner_id)) (http 401 no_claims)
  r ← need body (http 400 bad_json)
  require (not (is_empty r.message_id) && not (is_empty r.body)) (http 400 missing_fields)
  require (leb (length r.body) (64 * 1024)) (http 413 body_too_large)
  found ← query v 0 db_500 (find_route r.message_id c.owner_id)
  route ← need found (http 404 unknown_message)
  require route.involves (http 403 not_participant)
  exec v 1 db_500 (insert_mirror v r.message_id route.conversation_id route.direction r.body)
  pure route

pub record OutboundRequest : Type 0 where
  pub user_id : Text
  pub body : Text

abbrev pub is_row : Text → QueueRow → Bool
is_row id q = eq_text q.id id

-- `INSERT INTO admin_outbound_queue`
abbrev pub insert_queued : QueueRow → Tables → Option Tables
insert_queued q t =
    if exists_row (is_row q.id) t.admin_outbound_queue
    then none
    else if has_user q.user_id t && has_admin q.admin_id t
    then some (record t { admin_outbound_queue = t.admin_outbound_queue ++ q ∷ [] })
    else none

abbrev pub new_row : Env → Text → Text → Text → QueueRow
new_row v user admin body = record {
  id = lit "oqu_" ++ v.uuid 0;
  user_id = user;
  admin_id = admin;
  body = body;
  status = pending;
  server_message_id = none;
  last_error = none;
  created_at = v.now;
  sent_at = none;
}

-- `adminSyncOutboundEnqueue`: calls 0 and 1.
unfoldable pub admin_sync_enqueue : Env → Claims → Option OutboundRequest → H Text
admin_sync_enqueue v c body = do
  require (not (is_empty c.owner_id)) (http 401 no_claims)
  r ← need body (http 400 bad_json)
  let text = v.trim_space r.body
  require (not (is_empty r.user_id) && not (is_empty text)) (http 400 missing_fields)
  require (leb (length text) (16 * 1024)) (http 413 body_too_large)
  exists ← query v 0 db_500 (has_user r.user_id)
  require exists (http 404 user_unknown)
  let q = new_row v r.user_id c.owner_id text
  exec v 1 db_500 (insert_queued q)
  pure q.id

abbrev pub is_pending : QueueStatus → Bool
is_pending pending = true
is_pending sent = false
is_pending failed = false

-- `adminSyncOutboundPending`: at most 50 rows, oldest first.
unfoldable pub admin_sync_pending : Env → H (List QueueRow)
admin_sync_pending v = query v 0 db_500 (λ t. take 50 (
    order_rows (λ (a b : QueueRow). leb a.created_at b.created_at)
      (select_rows (λ q. is_pending q.status) t.admin_outbound_queue)))

pub record AckRequest : Type 0 where
  pub server_message_id : Text
  pub error : Text

-- The `status` of the response.
pub data AckStatus : Type 0 where
  acked_sent acked_failed noop : AckStatus

-- `truncate`
abbrev pub truncate : Text → ℕ → Text
truncate s n = if leb (length s) n then s else take n s

-- `WHERE id = $1 AND status = 'pending'`
abbrev pub is_pending_row : Text → QueueRow → Bool
is_pending_row id q = eq_text q.id id && is_pending q.status

abbrev pub set_failed : Text → QueueRow → QueueRow
set_failed e q = record q { status = failed; last_error = some (truncate e 1024) }

abbrev pub set_sent : ℕ → Option Text → QueueRow → QueueRow
set_sent t server_id q = record q { status = sent; sent_at = some t; server_message_id = server_id }

-- The failure path: call 0.
abbrev pub ack_failed : Env → Text → Text → H AckStatus
ack_failed v id e = do
  exec v 0 db_500 (λ t. some (record t {
    admin_outbound_queue = update_rows (is_pending_row id) (set_failed e) t.admin_outbound_queue;
  }))
  pure acked_failed

-- The update of the row; its key to `messages` must refer to one.
abbrev pub update_sent : Env → Text → Option Text → Tables → Option Tables
update_sent v id server_id t =
    if elim server_id [ none ↦ true | some m ↦ has_message m t ]
    then some (record t {
      admin_outbound_queue =
          update_rows (is_pending_row id) (set_sent v.now server_id) t.admin_outbound_queue;
    })
    else none

-- The plaintext of a reply goes into the mirror with the conversation of its message.
abbrev pub mirror_reply : Env → Text → Text → Tables → Option Tables
mirror_reply v id body t = elim (find_row (is_message id) t.messages) [
  | none ↦ some t
  | some m ↦ mirror_found v m.conversation_id (lit "outbound") body t (some m)
]

abbrev pub mirror_if : Env → Option Text → Text → H (Unit {0})
mirror_if v none body = pure tt
mirror_if v (some id) body = exec v 3 db_500 (mirror_reply v id body)

-- `UPDATE ... RETURNING`, for the row that it found, and the mirror: calls 2 and 3.
abbrev pub ack_found : Env → Text → Option Text → Option QueueRow → H AckStatus
ack_found v id server_id none = pure noop
ack_found v id server_id (some q) = do
  exec v 5 db_500 (update_sent v id server_id)
  mirror_if v server_id q.body
  pure acked_sent

-- The success path, in a transaction: calls 1 (begin) and 4 (commit) around those.
abbrev pub ack_body : Env → Text → Option Text → H AckStatus
ack_body v id server_id = do
  found ← query v 2 db_500 (λ t. find_row (is_pending_row id) t.admin_outbound_queue)
  ack_found v id server_id found

-- Where the update finds no row the handler answers and the deferred rollback ends the transaction.
abbrev pub is_committed : AckStatus → Bool
is_committed noop = false
is_committed acked_sent = true
is_committed acked_failed = true

-- `adminSyncOutboundAck`
unfoldable pub admin_sync_ack : Env → Text → Option AckRequest → H AckStatus
admin_sync_ack v id body = do
  require (not (is_empty id)) (http 400 missing_id)
  r ← need body (http 400 bad_json)
  if is_empty r.error
      then transaction_if is_committed v 1 4 db_500 (ack_body v id (nullable r.server_message_id))
      else ack_failed v id r.error

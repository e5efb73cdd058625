-- ===== src/Api/Chat.antt =====
-- backend/internal/api/messages.go and ws.go: a device sends, reads and acknowledges messages, over
-- HTTP and over its WebSocket.
use kalki_chat.Base.{
  ℕ, suc, ◌+◌, Bool, true, false, not, ◌&&◌, ◌||◌, Option, none, some, List, [], ◌∷◌, ◌++◌, ltb,
  leb, ◌==◌, if◌then◌else◌, is_none, is_empty, length, take, Text, lit, eq_text, find_row,
  select_rows, order_rows,
}
use mathlib.Core.Option
use kalki_chat.Env.{Env}
use kalki_chat.Ws.Hub.{ServerEvent, persisted, typing, error_code, device_channel}
use kalki_chat.Db.{
  Tables, Conversation, Message, World, M, Outcome, done, refused, pure, refuse, ◌>>=◌, ◌>>◌,
  require, need, query, exec, on_error, publish,
}
use kalki_chat.Messages.{SendInput, SendError, send_message, mark_delivered, mark_read}
use kalki_chat.Crypto.Jwt.{Claims}
use kalki_chat.Api.Http.{
  H, HttpError, http, db_500, map_err, nullable, Code, bad_json, bad_envelope, bad_sig,
  no_conversation,
}
use kalki_chat.Api.Session.{is_conversation_of}
pub mod Socket

-- `sendMessageReq`, and the body of a `message.send` event.
pub record SendRequest : Type 0 where
  pub client_id : Text
  pub recipient_device_id : Text
  pub envelope : Text
  pub signature : Text
  pub media_id : Text

abbrev pub send_input :
    (sender conversation : Text) → SendRequest → (envelope signature : Text) → SendInput
send_input sender conversation r env sig = record {
  sender_device_id = sender;
  recipient_device_id = r.recipient_device_id;
  conversation_id = conversation;
  client_id = r.client_id;
  envelope = env;
  signature = sig;
  media_id = nullable r.media_id;
}

-- `messageSend`: call 0, then those of `Send`.
unfoldable pub message_send : Env → Claims → Option SendRequest → H Text
message_send v c body = do
  r ← need body (http 400 bad_json)
  env ← need (v.base64_decode r.envelope) (http 400 bad_envelope)
  sig ← need (v.base64_decode r.signature) (http 400 bad_sig)
  found ← query v 0 db_500 (λ t. find_row (is_conversation_of c.owner_id) t.conversations)
  conversation ← need found db_500
  on_error (λ e. http 400 (map_err e)) (send_message v (send_input c.sub conversation.id r env sig))

-- `conversation_id = $1 AND (recipient_device_id = $2 OR sender_device_id = $2)`
abbrev pub is_of : Text → Text → Message → Bool
is_of conversation d m =
    eq_text m.conversation_id conversation
    && (eq_text m.recipient_device_id d || eq_text m.sender_device_id d)

abbrev pub page_limit : Option ℕ → ℕ
page_limit none = 50
page_limit (some l) = if leb 1 l && leb l 200 then l else 50

-- `conversationGet`; the limit is the number in the query, if there is one.
unfoldable pub conversation_get : Env → Claims → Option ℕ → H (Text × List Message)
conversation_get v c limit = do
  let n = page_limit limit
  found ← query v 0 db_500 (λ t. find_row (is_conversation_of c.owner_id) t.conversations)
  conversation ← need found db_500
  rows ← query v 1 db_500 (λ t. take n (
      order_rows (λ (a b : Message). leb b.created_at a.created_at)
        (select_rows (is_of conversation.id c.sub) t.messages)))
  pure (conversation.id, rows)

-- A `ClientEvent`: its data, as it is read for each type. `none` is JSON that does not fit.
pub record ClientEvent : Type 0 where
  pub type : Text
  pub id : Text
  pub send_data : Option SendRequest
  pub ack_data : Option Text
  pub read_data : Option (List Text)
  pub typing_data : Text × Bool

-- The connection's client, as far as the handlers look at it.
pub record Peer : Type 0 where
  pub device_id : Text
  pub owner_id : Text

-- The codes that `SendError` puts in an event.
abbrev pub error_event : Text → Text → ServerEvent
error_event id code = record {
  type = lit "message.error";
  id = id;
  ts = 0;
  payload = error_code code;
}

-- The texts of the codes of `mapErr`, and of the others that the socket uses.
abbrev pub code_text : SendError → Text
code_text SendError.envelope_size = lit "PAYLOAD_TOO_LARGE"
code_text SendError.invalid_signature = lit "INVALID_SIG"
code_text SendError.unknown_sender = lit "RECIPIENT_UNKNOWN"
code_text SendError.unknown_recipient = lit "RECIPIENT_UNKNOWN"
code_text SendError.session_revoked = lit "SESSION_REVOKED"
code_text SendError.db = lit "BAD_REQUEST"

-- The outcome of `Send`, as the event for the sender.
abbrev pub answer : Text → Text → Outcome SendError Text → ServerEvent
answer id client_id (done server_id) = record {
  type = lit "message.persisted";
  id = id;
  ts = 0;
  payload = persisted client_id server_id;
}
answer id client_id (refused e) = error_event id (code_text e)

-- Events for the client itself, and the new world.
abbrev pub S : Type 0
S = World → List ServerEvent × World

abbrev pub reply_to_send : Env → Peer → Text → SendRequest → Conversation → S
reply_to_send v p id r c w =
    let (o, w') =
      send_message v
        (send_input p.device_id c.id r (v.base64_prefix r.envelope) (v.base64_prefix r.signature))
        w in
    (answer id r.client_id o ∷ [], w')

-- `handleSend` behind the decoding of its data.
unfoldable pub handle_send_data : Env → Peer → Text → SendRequest → S
handle_send_data v p id r w =
    if v.fails 0
    then (error_event id (lit "NO_CONVERSATION") ∷ [], w)
    else elim (find_row (is_conversation_of p.owner_id) w.tables.conversations) [
      | none ↦ (error_event id (lit "NO_CONVERSATION") ∷ [], w)
      | some c ↦ reply_to_send v p id r c w
    ]

-- `handleSend`
unfoldable pub handle_send : Env → Peer → ClientEvent → S
unfolding handle_send_data
handle_send v p ev w = elim (ev.send_data) [
  | none ↦ (error_event ev.id (lit "BAD_JSON") ∷ [], w)
  | some r ↦ handle_send_data v p ev.id r w
]

-- `handleAck`
unfoldable pub handle_ack : Env → Peer → ClientEvent → S
handle_ack v p ev w = elim (ev.ack_data) [
  | none ↦ ([], w)
  | some id ↦ ([], (mark_delivered v id p.device_id w).1)
]

-- The loop of `handleRead`, from call n on; errors are dropped.
unfoldable pub read_all : Env → ℕ → Text → List Text → World → World
read_all v n d [] w = w
read_all v n d (id ∷ ids) w = read_all v (suc n) d ids (mark_read v n id d w).1

-- `handleRead`
unfoldable pub handle_read : Env → Peer → ClientEvent → S
unfolding read_all
handle_read v p ev w = elim (ev.read_data) [
  | none ↦ ([], w)
  | some ids ↦ ([], read_all v 0 p.device_id ids w)
]

-- The `typing` case: passed on, not stored.
unfoldable pub handle_typing : Env → Peer → ClientEvent → S
handle_typing v p ev w =
    let event : ServerEvent = record {
      type = lit "typing";
      id = [];
      ts = 0;
      payload = typing p.device_id (ev.typing_data.1);
    } in
    ([], (publish v 0 db_500 (device_channel (ev.typing_data.0)) event w).1)

-- `wsHandler`: what one event of a client does.
unfoldable pub handle_event : Env → Peer → ClientEvent → S
unfolding handle_send handle_ack handle_read handle_typing
handle_event v p ev w =
    if eq_text ev.type (lit "message.send")
    then handle_send v p ev w
    else if eq_text ev.type (lit "message.ack")
    then handle_ack v p ev w
    else if eq_text ev.type (lit "message.read")
    then handle_read v p ev w
    else if eq_text ev.type (lit "typing")
    then handle_typing v p ev w
    else if eq_text ev.type (lit "presence.ping")
    then ([], w)
    else (error_event ev.id (lit "UNKNOWN_TYPE") ∷ [], w)

-- ===== src/Api/Chat/Socket.antt =====
-- What the events of a client do (backend/internal/api/ws.go).
use kalki_chat.Base.{
  ℕ, suc, ◌≡◌, refl, false, not, List, [], ◌∷◌, arith, Text, lit, eq_text, inl, inr, select_rows,
  update_rows, Option-cases, ◌∙◌, length,
}
use kalki_chat.Env.{Env}
use kalki_chat.Db.{World, Message}
use kalki_chat.Messages.{
  mark_delivered, mark_read, is_undelivered, is_unread, set_delivered, set_read,
}
use kalki_chat.Api.Chat.{
  ClientEvent, Peer, handle_send, handle_send_data, handle_ack, handle_read, read_all, handle_event,
  handle_typing,
}

-- The messages that are for other devices.
abbrev pub for_others : Text → List Message → List Message
for_others d ms = select_rows (λ m. not (eq_text m.recipient_device_id d)) ms

others-delivered :
    (d id : Text) (t : ℕ) (ms : List Message)
    → for_others d (update_rows (is_undelivered id d) (set_delivered t) ms) ≡ for_others d ms
others-delivered d id t [] = refl
others-delivered d id t (m ∷ ms) = ground (arith, others-delivered d id t ms)

others-read :
    (d id : Text) (t : ℕ) (ms : List Message)
    → for_others d (update_rows (is_unread id d) (set_read t) ms) ≡ for_others d ms
others-read d id t [] = refl
others-read d id t (m ∷ ms) = ground (arith, others-read d id t ms)

mark_read-others :
    (v : Env) (n : ℕ) (id d : Text) (w : World)
    → for_others d (mark_read v n id d w).1.tables.messages ≡ for_others d w.tables.messages
unfolding mark_read
mark_read-others v n id d w = ground (arith, others-read d id v.now w.tables.messages)

read_all-others :
    (v : Env) (n : ℕ) (d : Text) (ids : List Text) (w : World)
    → for_others d (read_all v n d ids w).tables.messages ≡ for_others d w.tables.messages
unfolding read_all
read_all-others v n d [] w = refl
read_all-others v n d (id ∷ ids) w =
    read_all-others v (suc n) d ids (mark_read v n id d w).1 ∙ mark_read-others v n id d w

ack-others :
    (v : Env) (p : Peer) (ev : ClientEvent) (w : World)
    → for_others p.device_id (handle_ack v p ev w).1.tables.messages
      ≡ for_others p.device_id w.tables.messages
unfolding handle_ack mark_delivered
ack-others v p ev w = elim (Option-cases ev.ack_data) [
  | inl e ↦ ground (arith, e)
  | inr (id, e) ↦ ground (arith, e, others-delivered p.device_id id v.now w.tables.messages)
]

read-others :
    (v : Env) (p : Peer) (ev : ClientEvent) (w : World)
    → for_others p.device_id (handle_read v p ev w).1.tables.messages
      ≡ for_others p.device_id w.tables.messages
unfolding handle_read
read-others v p ev w = elim (Option-cases ev.read_data) [
  | inl e ↦ ground (arith, e)
  | inr (ids, e) ↦ ground (arith, e, read_all-others v 0 p.device_id ids w)
]

-- Whatever event a client sends over its socket, other than `message.send`, the stored messages
-- that are addressed to other devices stay as they are.
pub handle_event_own_only :
    (v : Env) (p : Peer) (ev : ClientEvent) (w : World)
    → eq_text ev.type (lit "message.send") ≡ false
    → for_others p.device_id (handle_event v p ev w).1.tables.messages
      ≡ for_others p.device_id w.tables.messages
unfolding handle_event handle_typing
handle_event_own_only v p ev w other = ground (arith, ack-others v p ev w, read-others v p ev w)

-- Every `message.send` is answered by one event.
pub handle_send_answers :
    (v : Env) (p : Peer) (ev : ClientEvent) (w : World) → length (handle_send v p ev w).0 ≡ 1
unfolding handle_send handle_send_data
handle_send_answers v p ev w = ground arith

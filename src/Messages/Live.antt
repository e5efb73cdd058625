-- ===== src/Messages/Live.antt =====
-- From `Send` to the socket of the receiving device: messages.go publishes, and the subscriptions of the
-- node to which the device is connected (Run and subscribe of backend/internal/ws/hub.go) deliver.
use kalki_chat.Base.{
  ℕ, ◌<◌, ◌≡◌, ◌≢◌, ◌∙◌, sym, ap, true, false, some, List, [], ◌∷◌, ◌++◌, arith, Text, length,
}
use kalki_chat.Env.{Env}
use kalki_chat.Db.{World, done}
use kalki_chat.Ws.Hub.{
  Hub, Client, Clients, ServerEvent, lookup_client, device_channel, send_capacity,
}
use kalki_chat.Ws.Map.{has_ref, lookup-All}
use kalki_chat.Ws.Deliver.{IsValid, IsEntry}
use kalki_chat.Ws.Node.{Node, NodeEvent, start_node, take_events, receive}
use kalki_chat.Ws.Node.Copies.{joins_of, push_times, subscribed, event_copied}
use kalki_chat.Messages.{SendInput, send_message, recv_event}
use kalki_chat.Messages.Send.{sent_row, send_message-Accepted}

lookup-has_ref : (d : Text) (r : ℕ) (m : Clients) → lookup_client d m ≡ some r → has_ref r m ≡ true
lookup-has_ref d r [] h = ground (arith, h)
lookup-has_ref d r ((k, q) ∷ m) h = ground (arith, h, lookup-has_ref d r m)

pushed_once :
    (k : ℕ) (ev : ServerEvent) (c : Client)
    → k ≡ 1
    → length c.queue < send_capacity
    → (push_times k ev c).queue ≡ c.queue ++ ev ∷ []
pushed_once k ev c h l = ap (λ n. (push_times n ev c).queue) h ∙ ground (arith, l)

-- If Send accepts a message, and the receiving device is connected to a valid hub of a node on
-- which it was registered once and whose subscription to the device's channel has landed, then
-- the one event that Send publishes is put once into the queue of that client, if the queue has
-- room.
pub sent_is_received :
    (v : Env) (i : SendInput) (w w' : World) (id : Text) (es : List NodeEvent) (h : Hub) (n : Node)
    (r : ℕ)
    → send_message v i w ≡ (done id, w')
    → take_events es (start_node h) ≡ some n
    → IsValid n.hub
    → lookup_client i.recipient_device_id n.hub.clients ≡ some r
    → i.recipient_device_id ≢ []
    → joins_of i.recipient_device_id h.heap es ≡ 1
    → subscribed (device_channel i.recipient_device_id) n.pending ≡ 0
    → length (n.hub.heap r).queue < send_capacity
    → let ev = recv_event v (sent_row v i) false in
      let channel = device_channel i.recipient_device_id in
      (w'.published ≡ w.published ++ (channel, ev) ∷ [])
      × (n' : Node) × (receive channel ev n ≡ some n')
      × ((n'.hub.heap r).queue ≡ (n.hub.heap r).queue ++ ev ∷ [])
sent_is_received v i w w' id es h n r s e valid found named once confirmed room =
    let ev = recv_event v (sent_row v i) false in
    let is_d : (n.hub.heap r).device_id ≡ i.recipient_device_id =
      (lookup-All (IsEntry n.hub) i.recipient_device_id r n.hub.clients valid.entries found).1 in
    let named' : (n.hub.heap r).device_id ≢ [] = λ z. named (sym is_d ∙ z) in
    let (n', f, landed, total, q) =
      event_copied es h n ev r e valid (lookup-has_ref i.recipient_device_id r n.hub.clients found)
        named' in
    let count : landed ≡ 1 = omega (
      arith,
      total,
      ap (λ d. joins_of d h.heap es) is_d ∙ once,
      ap (λ d. subscribed (device_channel d) n.pending) is_d ∙ confirmed,
    ) in
    (
      (send_message-Accepted v i w w' id s).event,
      n',
      sym (ap (λ d. receive (device_channel d) ev n) is_d) ∙ f,
      ap (λ c. c.queue) q ∙ pushed_once landed ev (n.hub.heap r) count room,
    )

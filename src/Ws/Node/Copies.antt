-- ===== src/Ws/Node/Copies.antt =====
-- How often a client gets one published event (Run and subscribe of backend/internal/ws/hub.go).
use kalki_chat.Base.{
  ℕ, zero, suc, ◌+◌, ◌≡◌, ◌≢◌, refl, ◌∙◌, Bool, true, false, ◌&&◌, ap, some, List, [], ◌∷◌, ◌++◌,
  arith, if◌then◌else◌, Text, lit, eq_text, eq_text_refl, count_rows, count-append, Bool-cases,
  eq_text_iff, exists_row, Option-cases, inl, inr,
}
use kalki_chat.Ws.Hub.{
  Hub, Client, Clients, ServerEvent, lookup_client, device_channel, user_channel,
  admin_team_channel, push, register, unregister, close_channel,
}
use kalki_chat.Ws.Map.{has_ref}
use kalki_chat.Ws.Deliver.{IsValid, received}
use kalki_chat.Ws.Route.{
  Audience, device, channel_of, IsNamed, receives, route_by_channel-Delivered,
}
use kalki_chat.Ws.Node.{
  start_node, subscriptions_of, register_node, unregister_node, fan_out, receive, take_events, Node,
  NodeEvent, joins, leaves, lands, land, remove_one,
}

-- Some copies of an event, as far as there is room.
abbrev pub push_times : ℕ → ServerEvent → Client → Client
push_times zero ev c = c
push_times (suc k) ev c = push_times k ev (push ev c)

abbrev pub subscribed : Text → List Text → ℕ
subscribed channel ss = count_rows (λ s. eq_text s channel) ss

-- What a client of the audience gets from one event.
abbrev pub copied : (Client → Bool) → ℕ → ServerEvent → Clients → (ℕ → Client) → ℕ → Client
copied test k ev m heap r =
    if has_ref r m && test (heap r) then push_times k ev (heap r) else heap r

receives-push :
    (a : Audience) (ev : ServerEvent) (c : Client) → receives a (push ev c) ≡ receives a c
receives-push (device d) ev c = ground arith
receives-push (Audience.user u) ev c = ground arith
receives-push Audience.admins ev c = ground arith

copied-suc :
    (a : Audience) (k : ℕ) (ev : ServerEvent) (m : Clients) (f g : ℕ → Client) (r : ℕ)
    → g r ≡ received (receives a) ev m f r
    → copied (receives a) k ev m g r ≡ copied (receives a) (suc k) ev m f r
copied-suc a k ev m f g r h = elim (Bool-cases (has_ref r m)) [
  | inr x ↦ ground (arith, h, x)
  | inl x ↦ elim (Bool-cases (receives a (f r))) [
    | inl y ↦ ground (arith, h, x, y, receives-push a ev (f r))
    | inr y ↦ ground (arith, h, x, y)
  ]
]

-- On a valid hub one event for a named audience is put into the queue of each of its clients in the
-- map once for every subscription to the channel, as far as there is room.
pub fan_out-copied :
    (a : Audience) (ev : ServerEvent) (ss : List Text) (h : Hub)
    → IsNamed a
    → IsValid h
    → (h' : Hub) × (fan_out (channel_of a) ev ss h ≡ some h')
      × ((r : ℕ)
          → h'.heap r ≡ copied (receives a) (subscribed (channel_of a) ss) ev h.clients h.heap r)
      × (h'.clients ≡ h.clients)
unfolding fan_out
fan_out-copied a ev [] h n v = (h, refl, λ r. ground arith, refl)
fan_out-copied a ev (s ∷ ss) h n v = elim (Bool-cases (eq_text s (channel_of a))) [
  | inr x ↦
      let (h', e, q, c) = fan_out-copied a ev ss h n v in
      (h', ground (arith, x, e), λ r. ground (arith, x, q r), c)
  | inl x ↦
      let (h1, e1, d, v1) = route_by_channel-Delivered a ev h n v in
      let (h', e, q, c) = fan_out-copied a ev ss h1 n v1 in
      (
        h',
        ground (arith, x, e, e1),
        λ r.
            q r
            ∙ ap (λ m. copied (receives a) (subscribed (channel_of a) ss) ev m h1.heap r)
                d.same_clients
            ∙ copied-suc a (subscribed (channel_of a) ss) ev h.clients h.heap h1.heap r (d.queues r)
            ∙ ap (λ k. copied (receives a) k ev h.clients h.heap r)
                {x = suc (subscribed (channel_of a) ss)} {y = subscribed (channel_of a) (s ∷ ss)}
                (ground (arith, x)),
        c ∙ d.same_clients,
      )
]

-- How often client references of a device were registered.
unfoldable pub joins_of : Text → (ℕ → Client) → List NodeEvent → ℕ
joins_of d f [] = 0
joins_of d f (joins r ∷ es) = (if eq_text (f r).device_id d then 1 else 0) + joins_of d f es
joins_of d f (leaves r ∷ es) = joins_of d f es
joins_of d f (lands s ∷ es) = joins_of d f es

-- No other channel is that of a device.
device_only :
    (d e : Text)
    → (eq_text (device_channel e) (device_channel d) ≡ eq_text e d)
      × (eq_text (user_channel e) (device_channel d) ≡ false)
      × (eq_text admin_team_channel (device_channel d) ≡ false)
unfolding eq_text
device_only d e = (refl, refl, refl)

subscribed-one :
    (d : Text) (c : Client)
    → subscribed (device_channel d) (subscriptions_of c) ≡ (if eq_text c.device_id d then 1 else 0)
subscribed-one d c = elim (Bool-cases (eq_text c.kind (lit "user"))) [
  | inl x ↦ ground (arith, x, device_only d c.device_id, device_only d c.owner_id)
  | inr x ↦ ground (arith, x, device_only d c.device_id)
]

-- The events change neither the devices of the clients nor, but for a registration, the subscriptions.
register-same :
    (r : ℕ) (h h' : Hub)
    → register r h ≡ some h'
    → (q : ℕ) → (h'.heap q).device_id ≡ (h.heap q).device_id
unfolding register close_channel
register-same r h h' e q = elim (Option-cases (lookup_client (h.heap r).device_id h.clients)) [
  | inl x ↦ ground (arith, e, x)
  | inr (o, x) ↦ elim (Bool-cases (h.heap o).closed) [
    | inl y ↦ ground (arith, e, x, y)
    | inr y ↦ ground (arith, e, x, y)
  ]
]

unregister-same :
    (r : ℕ) (h h' : Hub)
    → unregister r h ≡ some h'
    → (q : ℕ) → (h'.heap q).device_id ≡ (h.heap q).device_id
unfolding unregister close_channel
unregister-same r h h' e q =
    ground (arith, e, Option-cases (lookup_client (h.heap r).device_id h.clients))

joins_of-same :
    (d : Text) (f g : ℕ → Client) (es : List NodeEvent)
    → ((q : ℕ) → (g q).device_id ≡ (f q).device_id)
    → joins_of d g es ≡ joins_of d f es
unfolding joins_of
joins_of-same d f g [] k = refl
joins_of-same d f g (joins r ∷ es) k = ground (arith, k r, joins_of-same d f g es k)
joins_of-same d f g (leaves r ∷ es) k = joins_of-same d f g es k
joins_of-same d f g (lands s ∷ es) k = joins_of-same d f g es k

subscribed-remove :
    (channel s : Text) (ss : List Text)
    → exists_row (λ t. eq_text t s) ss ≡ true
    → subscribed channel (remove_one s ss) + (if eq_text s channel then 1 else 0)
      ≡ subscribed channel ss
unfolding remove_one
subscribed-remove channel s [] h = ground (arith, h)
subscribed-remove channel s (t ∷ ss) h = elim (Bool-cases (eq_text t s)) [
  | inl e ↦ ground (arith, e, (eq_text_iff t s).0 e)
  | inr e ↦ ground (arith, e, h, subscribed-remove channel s ss)
]

-- A subscription that lands is counted no more as pending, and the hub stays as it is.
land-same :
    (channel s : Text) (n : Node)
    → ((land s n).hub ≡ n.hub)
      × (subscribed channel (land s n).subscriptions + subscribed channel (land s n).pending
          ≡ subscribed channel n.subscriptions + subscribed channel n.pending)
unfolding land
land-same channel s n = elim (Bool-cases (exists_row (λ t. eq_text t s) n.pending)) [
  | inr e ↦ (ground (arith, e), ground (arith, e))
  | inl e ↦
      let split = count-append (λ t. eq_text t channel) n.subscriptions (s ∷ []) in
      let left = subscribed-remove channel s n.pending e in
      (ground (arith, e), rw e (ground (arith, split, left)))
]

-- The subscriptions to the channel of a device, pending ones included, grow by one with every
-- registration of the device, and never shrink.
pub subscriptions_grow :
    (es : List NodeEvent) (n n' : Node) (d : Text)
    → take_events es n ≡ some n'
    → subscribed (device_channel d) n'.subscriptions + subscribed (device_channel d) n'.pending
      ≡ subscribed (device_channel d) n.subscriptions
        + (subscribed (device_channel d) n.pending + joins_of d n.hub.heap es)
unfolding take_events joins_of register_node unregister_node
subscriptions_grow [] n n' d e = ground (arith, e)
subscriptions_grow (joins r ∷ es) n n' d e = elim (Option-cases (register r n.hub)) [
  | inl x ↦ ground (arith, e, x)
  | inr (h, x) ↦
      let next : Node = record n {
        hub = h;
        pending = n.pending ++ subscriptions_of (n.hub.heap r);
      } in
      let e' : take_events es next ≡ some n' = ground (arith, e, x) in
      let later = subscriptions_grow es next n' d e' in
      let split =
        count-append (λ s. eq_text s (device_channel d)) n.pending
          (subscriptions_of (n.hub.heap r)) in
      omega (
        arith,
        later,
        split,
        subscribed-one d (n.hub.heap r),
        joins_of-same d n.hub.heap h.heap es (register-same r n.hub h x),
      )
]
subscriptions_grow (leaves r ∷ es) n n' d e = elim (Option-cases (unregister r n.hub)) [
  | inl x ↦ ground (arith, e, x)
  | inr (h, x) ↦
      let next : Node = record n { hub = h } in
      let e' : take_events es next ≡ some n' = ground (arith, e, x) in
      let later = subscriptions_grow es next n' d e' in
      omega (arith, later, joins_of-same d n.hub.heap h.heap es (unregister-same r n.hub h x))
]
subscriptions_grow (lands s ∷ es) n n' d e =
    let later = subscriptions_grow es (land s n) n' d e in
    let (same_hub, moved) = land-same (device_channel d) s n in
    ground (arith, later, moved, same_hub)

start-subscribed :
    (d : Text) (h : Hub)
    → subscribed (device_channel d) (start_node h).subscriptions
        + subscribed (device_channel d) (start_node h).pending
      ≡ 0
start-subscribed d h = ground (arith, device_only d [])

-- On a node that started without registrations and has taken any registrations, departures and
-- subscriptions that land, a valid hub being left, one event published on the channel of a
-- connected device is put into its queue, as far as there is room, as often as subscriptions to
-- the channel have landed, and these with those still pending are as many as clients of that
-- device were ever registered: once for every reconnection too.
pub event_copied :
    (es : List NodeEvent) (h : Hub) (n : Node) (ev : ServerEvent) (r : ℕ)
    → take_events es (start_node h) ≡ some n
    → IsValid n.hub
    → has_ref r n.hub.clients ≡ true
    → (n.hub.heap r).device_id ≢ []
    → let d = (n.hub.heap r).device_id in
      (n' : Node) × (receive (device_channel d) ev n ≡ some n')
      × (landed : ℕ) × (landed + subscribed (device_channel d) n.pending ≡ joins_of d h.heap es)
      × (n'.hub.heap r ≡ push_times landed ev (n.hub.heap r))
unfolding receive
event_copied es h n ev r e v m named =
    let d = (n.hub.heap r).device_id in
    let (h', f, q, c) = fan_out-copied (device d) ev n.subscriptions n.hub named v in
    let count : subscribed (device_channel d) n.subscriptions
          + subscribed (device_channel d) n.pending
        ≡ joins_of d h.heap es =
      ground (arith, subscriptions_grow es (start_node h) n d e, start-subscribed d h) in
    let mine : copied (receives (device d)) (subscribed (device_channel d) n.subscriptions) ev
          n.hub.clients n.hub.heap r
        ≡ push_times (subscribed (device_channel d) n.subscriptions) ev (n.hub.heap r) =
      ground (arith, m, eq_text_refl d) in
    (
      record n { hub = h' },
      ground (arith, f),
      subscribed (device_channel d) n.subscriptions,
      count,
      q r ∙ mine,
    )

-- ===== src/Ws/Hub.antt =====
-- backend/internal/ws/hub.go, conn.go and events.go: the hub, its clients and their channels.
-- A `*Client` is an index into the hub's heap, so that one client can be reached from the map, from
-- its connection and from a replay at once. `none` is a Go panic (a send on a closed channel, a
-- second close).
use kalki_chat.Base.{
  ℕ, suc, Bool, true, false, ◌&&◌, Option, none, some, List, [], ◌∷◌, ◌++◌, ltb, ◌==◌,
  if◌then◌else◌, length, take, drop, Text, lit, eq_text, delete_rows,
}

-- What the events of the server carry (`Data` of `ServerEvent`).
pub data Payload : Type 0 where
  nothing : Payload
  recv :
      (server_id sender_device_id envelope signature : Text) (media_id : Option Text)
      (created_at : ℕ) (backfilled : Bool)
      → Payload
  persisted : (client_id server_id : Text) → Payload
  typing : (from : Text) (is_typing : Bool) → Payload
  error_code : Text → Payload
  reason : Text → Payload
  epoch : ℕ → Payload
  retry_after_ms : ℕ → Payload

pub record ServerEvent : Type 0 where
  pub type : Text
  pub id : Text
  pub ts : ℕ
  pub payload : Payload

pub record Client : Type 0 where
  pub device_id : Text
  pub owner_id : Text
  pub kind : Text
  pub queue : List ServerEvent
  pub closed : Bool

-- `make(chan ServerEvent, 64)`
abbrev pub send_capacity : ℕ
send_capacity = 64

abbrev pub Clients : Type 0
Clients = List (Text × ℕ)

-- `heap` and `next` stand for Go's memory: clients below `next` have been made.
pub record Hub : Type 0 where
  pub heap : ℕ → Client
  pub next : ℕ
  pub clients : Clients

abbrev pub lookup_client : Text → Clients → Option ℕ
lookup_client d [] = none
lookup_client d ((k, r) ∷ m) = if eq_text d k then some r else lookup_client d m

-- `delete(h.clients, id)`
abbrev pub erase_client : Text → Clients → Clients
erase_client d m = delete_rows (λ e. eq_text d (e.0)) m

-- `h.clients[id] = c`
abbrev pub put_client : Text → ℕ → Clients → Clients
put_client d r m = (d, r) ∷ erase_client d m

abbrev pub update : (ℕ → Client) → ℕ → Client → ℕ → Client
update f r c q = if q == r then c else f q

-- A non-blocking send into a channel: dropped if the buffer is full.
abbrev pub push : ServerEvent → Client → Client
push ev c =
    if ltb (length c.queue) send_capacity then record c { queue = c.queue ++ ev ∷ [] } else c

-- `Client.Send`, and each `select { case c.send <- ev: default: }`.
unfoldable pub send : ServerEvent → ℕ → Hub → Option Hub
send ev r h =
    if (h.heap r).closed
    then none
    else some (record h { heap = update h.heap r (push ev (h.heap r)) })

-- `Client.SendError`
unfoldable pub send_error : Text → Text → ℕ → Hub → Option Hub
unfolding send
send_error correlation_id code =
    send (record {
      type = lit "message.error";
      id = correlation_id;
      ts = 0;
      payload = error_code code;
    })

-- `close(c.send)`
unfoldable pub close_channel : ℕ → Hub → Option Hub
close_channel r h =
    if (h.heap r).closed
    then none
    else some (record h { heap = update h.heap r (record (h.heap r) { closed = true }) })

-- The `Client` that `Serve` makes for an upgraded connection.
unfoldable pub connect : (device_id owner_id kind : Text) → Hub → ℕ × Hub
connect d o k h =
    let c : Client = record { device_id = d; owner_id = o; kind = k; queue = []; closed = false } in
    (h.next, record h { heap = update h.heap h.next c; next = suc h.next })

-- `case c := <-h.register` of `Run`.
unfoldable pub register : ℕ → Hub → Option Hub
unfolding close_channel
register r h =
    let d = (h.heap r).device_id in
    let closed_old : Option Hub = elim (lookup_client d h.clients) [
      | none ↦ some h
      | some old ↦ close_channel old h
    ] in
    elim closed_old [
      | none ↦ none
      | some h' ↦ some (record h' { clients = put_client d r h'.clients })
    ]

-- `case c := <-h.unregister` of `Run`.
unfoldable pub unregister : ℕ → Hub → Option Hub
unfolding close_channel
unregister r h =
    let d = (h.heap r).device_id in
    let gone = close_channel r (record h { clients = erase_client d h.clients }) in
    elim (lookup_client d h.clients) [
      | none ↦ some h
      | some cur ↦ if cur == r then gone else some h
    ]

-- The loops over `h.clients`: each client that passes the test is sent the event.
unfoldable pub deliver_all : (Client → Bool) → ServerEvent → Clients → Hub → Option Hub
unfolding send
deliver_all test ev [] h = some h
deliver_all test ev ((d, r) ∷ m) h =
    let sent = if test (h.heap r) then send ev r h else some h in
    elim sent [ none ↦ none | some h' ↦ deliver_all test ev m h' ]

abbrev pub device_prefix : Text
device_prefix = lit "device:"

abbrev pub user_prefix : Text
user_prefix = lit "user:"

-- `redisx.DeviceChannel`, `redisx.UserChannel`, `redisx.AdminTeamChannel`
abbrev pub device_channel : Text → Text
device_channel d = device_prefix ++ d

abbrev pub user_channel : Text → Text
user_channel u = user_prefix ++ u

abbrev pub admin_team_channel : Text
admin_team_channel = lit "team:admins"

abbrev pub is_user_of : Text → Client → Bool
is_user_of uid c = eq_text c.kind (lit "user") && eq_text c.owner_id uid

abbrev pub is_admin : Client → Bool
is_admin c = eq_text c.kind (lit "admin")

abbrev pub has_prefix : Text → Text → Bool
has_prefix p s = ltb (length p) (length s) && eq_text (take (length p) s) p

-- `Hub.routeByChannel`
unfoldable pub route_by_channel : Text → ServerEvent → Hub → Option Hub
unfolding deliver_all send
route_by_channel channel ev h =
    if has_prefix device_prefix channel
    then elim (lookup_client (drop 7 channel) h.clients) [ none ↦ some h | some r ↦ send ev r h ]
    else if has_prefix user_prefix channel
    then deliver_all (is_user_of (drop 5 channel)) ev h.clients h
    else if eq_text channel admin_team_channel
    then deliver_all is_admin ev h.clients h
    else some h

-- `Hub.Broadcast`: a client whose buffer stays full for 50 ms is skipped.
unfoldable pub broadcast : ServerEvent → Hub → Option Hub
unfolding deliver_all
broadcast ev h = deliver_all (λ c. true) ev h.clients h

-- `Hub.Close`
unfoldable pub close_all : Clients → Hub → Option Hub
unfolding close_channel
close_all [] h = some h
close_all ((d, r) ∷ m) h = elim (close_channel r h) [
  | none ↦ none
  | some h' ↦ close_all m (record h' { clients = erase_client d h'.clients })
]

unfoldable pub close : Hub → Option Hub
unfolding close_all
close h = close_all h.clients h

-- `RevocationEvent` and `KeyRotateEvent`
abbrev pub revocation_event : ServerEvent
revocation_event = record {
  type = lit "session.revoked";
  id = [];
  ts = 0;
  payload = reason (lit "admin_action");
}

abbrev pub key_rotate_event : ℕ → ServerEvent
key_rotate_event n = record { type = lit "key.rotate"; id = []; ts = 0; payload = epoch n }

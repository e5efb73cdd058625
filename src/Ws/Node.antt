-- ===== src/Ws/Node.antt =====
-- A hub with its Redis subscriptions (Run and subscribe of backend/internal/ws/hub.go): what one
-- published event comes to.
use kalki_chat.Base.{
  ℕ, zero, suc, ◌+◌, ◌≡◌, ◌≢◌, refl, ◌∙◌, Bool, true, false, ◌&&◌, ap, Option, none, some, List, [],
  ◌∷◌, ◌++◌, arith, if◌then◌else◌, Text, lit, eq_text, eq_text_refl, count_rows, count-append,
  exists_row, Bool-cases, Option-cases, inl, inr,
}
use kalki_chat.Ws.Hub.{
  Hub, Client, Clients, ServerEvent, lookup_client, device_channel, user_channel,
  admin_team_channel, push, register, unregister, route_by_channel, close_channel,
}
use kalki_chat.Ws.Map.{has_ref}
use kalki_chat.Ws.Deliver.{IsValid, received}
use kalki_chat.Ws.Route.{
  Audience, device, channel_of, IsNamed, receives, route_by_channel-Delivered,
}
pub mod Copies

-- Each subscription is a goroutine of its own, which ends with the hub. Those that Redis has not
-- confirmed yet are pending.
pub record Node : Type 0 where
  pub hub : Hub
  pub pending : List Text
  pub subscriptions : List Text

-- `Run`, before its loop.
abbrev pub start_node : Hub → Node
start_node h = record { hub = h; pending = admin_team_channel ∷ []; subscriptions = [] }

-- What a registration subscribes to.
abbrev pub subscriptions_of : Client → List Text
subscriptions_of c =
    device_channel c.device_id
    ∷ (if eq_text c.kind (lit "user") then user_channel c.owner_id ∷ [] else [])

-- `case c := <-h.register`
unfoldable pub register_node : ℕ → Node → Option Node
register_node r n = elim (register r n.hub) [
  | none ↦ none
  | some h ↦ some (record n { hub = h; pending = n.pending ++ subscriptions_of (n.hub.heap r) })
]

-- `case c := <-h.unregister`
unfoldable pub unregister_node : ℕ → Node → Option Node
unregister_node r n = elim (unregister r n.hub) [
  | none ↦ none
  | some h ↦ some (record n { hub = h })
]

unfoldable pub remove_one : Text → List Text → List Text
remove_one channel [] = []
remove_one channel (s ∷ ss) =
    let rest = remove_one channel ss in if eq_text s channel then ss else s ∷ rest

-- The goroutine of `subscribe`: its subscription lands, at some time after it was asked for.
unfoldable pub land : Text → Node → Node
unfolding remove_one
land channel n =
    if exists_row (λ s. eq_text s channel) n.pending
    then record n {
      pending = remove_one channel n.pending;
      subscriptions = n.subscriptions ++ channel ∷ [];
    }
    else n

-- One event published on a channel: every subscription to it routes it.
unfoldable pub fan_out : Text → ServerEvent → List Text → Hub → Option Hub
fan_out channel ev [] h = some h
fan_out channel ev (s ∷ ss) h =
    let routed = if eq_text s channel then route_by_channel channel ev h else some h in
    elim routed [ none ↦ none | some h' ↦ fan_out channel ev ss h' ]

unfoldable pub receive : Text → ServerEvent → Node → Option Node
receive channel ev n = elim (fan_out channel ev n.subscriptions n.hub) [
  | none ↦ none
  | some h ↦ some (record n { hub = h })
]

-- Registrations and departures, in the order in which the hub takes them, and subscriptions that
-- land.
pub data NodeEvent : Type 0 where
  joins leaves : ℕ → NodeEvent
  lands : Text → NodeEvent

abbrev pub take_event : NodeEvent → Node → Option Node
take_event (joins r) n = register_node r n
take_event (leaves r) n = unregister_node r n
take_event (lands channel) n = some (land channel n)

unfoldable pub take_events : List NodeEvent → Node → Option Node
take_events [] n = some n
take_events (e ∷ es) n = elim (take_event e n) [ none ↦ none | some n' ↦ take_events es n' ]

-- ===== src/Ws/Server.antt =====
-- The hub's goroutine and the connections around it (Run and Serve in backend/internal/ws), as the
-- order in which their steps happen. The two channels into the hub are queues of their own, and
-- `select` may take from either one.
pub mod Fresh
pub mod Steps
pub mod Safety
pub mod Races
use kalki_chat.Base.{
  ℕ, suc, ◌<◌, ◌≤◌, ◌≡◌, ◌≢◌, refl, Bool, true, false, ◌&&◌, ◌||◌, Option, none, some, List, [],
  ◌∷◌, ◌++◌, arith, ◌==◌, if◌then◌else◌, length, Text, eq_text, eq_text_iff, eq_text_refl, All,
  All-append, inl, inr, ◌∙◌, sym, subst, Bool-cases, not,
}
use kalki_chat.Ws.Hub.{
  Hub, Client, Clients, ServerEvent, lookup_client, update, send, connect, register, unregister,
  route_by_channel, broadcast, close, send_capacity,
}
use kalki_chat.Ws.Map.{DistinctKeys, has_ref, lookup-All}
use kalki_chat.Ws.Deliver.{IsEntry, IsValid, received, Delivered}
use kalki_chat.Ws.Route.{
  Audience, channel_of, IsNamed, receives, route_by_channel-Delivered, broadcast-Delivered,
  received-same, has_ref-lookup,
}
use kalki_chat.Ws.Lifecycle.{
  IsFresh, shut, is_at, Registered, Unregistered, register-Registered, unregister-Unregistered,
  has_ref-lookup_ne,
}
use kalki_chat.Ws.Shutdown.{Closed, close-Closed}

pub record Server : Type 0 where
  pub hub : Hub
  pub registering : List ℕ
  pub unregistering : List ℕ

-- What can happen next.
pub data Action : Type 0 where
  -- `Serve` makes a client and sends it to the hub.
  arrive : (device_id owner_id kind : Text) → Action
  -- The read loop of a client's connection ends.
  hang_up : ℕ → Action
  -- `select` takes from `h.register`, or from `h.unregister`.
  take_register take_unregister : Action
  -- A goroutine that holds a client writes to it by `Client.Send` or `Client.SendError`: its own
  -- connection, or the replay that the hub starts when it registers the client (backfillMissed).
  write : ℕ → ServerEvent → Action
  -- An event comes in from Redis.
  deliver : Audience → ServerEvent → Action
  -- The graceful shutdown of cmd/server.
  announce : ServerEvent → Action
  shut_down : Action

unfoldable pub act : Action → Server → Option Server
unfolding connect
act (arrive d o k) s =
    let (r, h) = connect d o k s.hub in
    some (record s { hub = h; registering = s.registering ++ r ∷ [] })
act (hang_up r) s = some (record s { unregistering = s.unregistering ++ r ∷ [] })
act take_register s = elim (s.registering) [
  | [] ↦ some s
  | r ∷ rest ↦ elim (register r s.hub) [
    | none ↦ none
    | some h ↦ some (record s { hub = h; registering = rest })
  ]
]
act take_unregister s = elim (s.unregistering) [
  | [] ↦ some s
  | r ∷ rest ↦ elim (unregister r s.hub) [
    | none ↦ none
    | some h ↦ some (record s { hub = h; unregistering = rest })
  ]
]
act (write r ev) s = elim (send ev r s.hub) [ none ↦ none | some h ↦ some (record s { hub = h }) ]
act (deliver a ev) s = elim (route_by_channel (channel_of a) ev s.hub) [
  | none ↦ none
  | some h ↦ some (record s { hub = h })
]
act (announce ev) s = elim (broadcast ev s.hub) [
  | none ↦ none
  | some h ↦ some (record s { hub = h })
]
act shut_down s = elim (close s.hub) [ none ↦ none | some h ↦ some (record s { hub = h }) ]

unfoldable pub run : List Action → Server → Option Server
unfolding act
run [] s = some s
run (a ∷ as') s = elim (act a s) [ none ↦ none | some s' ↦ run as' s' ]

-- `NewHub`: what is in memory before the first client plays no part.
unfoldable pub new_server : Client → Server
new_server c = record {
  hub = record { heap = λ r. record c { queue = [] }; next = 0; clients = [] };
  registering = [];
  unregistering = [];
}

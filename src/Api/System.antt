-- ===== src/Api/System.antt =====
-- What changes the database while a server runs, one step after the other: requests of the router
-- (backend/internal/api/router.go), events of sockets (ws_handler.go), and sweeps of the retention
-- worker (backend/internal/retention/worker.go).
use kalki_chat.Base.{
  ℕ, ◌≡◌, refl, subst, Bool, true, false, ◌||◌, List, Text, is_empty, if◌then◌else◌, update_rows,
  Bool-cases, inl, inr, arith,
}
use kalki_chat.Messages.{is_device}
use kalki_chat.Api.Middleware.{set_seen}
use kalki_chat.Env.{Env}
use kalki_chat.Db.{World, Tables}
use kalki_chat.Crypto.Jwt.{Signer, Json}
use kalki_chat.Retention.{Config, Stores, sweep_once}
use kalki_chat.Api.Chat.{Peer, ClientEvent, handle_event}
use kalki_chat.Api.Router.{Credentials, Route, serve}
use kalki_chat.Api.Router.Stable.{Stable}
use kalki_chat.Api.Router.Served.{serve-Keeps}
use kalki_chat.Api.Router.Socket.{handle_event-kept}
pub mod Devices
pub mod Tokens
pub mod Messages
pub mod Replies
pub mod Prekeys
pub mod Senders

-- `touchLastSeen` of backend/internal/ws/hub.go, with call n.
abbrev pub touch_last_seen : Env → ℕ → Text → Tables → Tables
touch_last_seen v n d t =
    if is_empty d || v.fails n
    then t
    else record t { devices = update_rows (is_device d) (set_seen v.now) t.devices }

-- What clients do: requests, events, and arrivals and departures of sockets. Every step has calls, failures, randomness and a time of its own.
pub data Step (j : Json) (k : Signer) : World → World → Type 0 where
  request : (v : Env) (cr : Credentials) (r : Route) (w : World) → Step j k w (serve v j k cr r w).1
  event : (v : Env) (p : Peer) (ev : ClientEvent) (w : World) → Step j k w (handle_event v p ev w).1
  presence :
      (v : Env) (n : ℕ) (d : Text) (w : World)
      → Step j k w (record w { tables = touch_last_seen v n d w.tables })

-- The tables that a sweep leaves; the objects are those in the store by then.
abbrev pub swept : Env → Config → List Text → World → World
swept v c os w = record w {
  tables = (sweep_once v c (record { tables = w.tables; objects = os })).tables;
}

-- What clients and the worker do.
pub data Move (j : Json) (k : Signer) : World → World → Type 0 where
  step : (w x : World) → Step j k w x → Move j k w x
  sweep : (v : Env) (c : Config) (os : List Text) (w : World) → Move j k w (swept v c os w)

-- Any number of them.
pub data Many (R : World → World → Type 0) : World → World → Type 0 where
  ended : (w : World) → Many R w w
  after : (w x y : World) → R w x → Many R x y → Many R w y

-- What each step keeps, all of them keep.
pub many-keeps :
    (R : World → World → Type 0) (K : World → Type 0)
    → ((w x : World) → R w x → K w → K x)
    → (w x : World) → Many R w x
    → K w
    → K x
many-keeps R K k _ _ (ended w) i = i
many-keeps R K k _ _ (after w x y r m) i = many-keeps R K k x y m (k w x r i)

pub step-keeps :
    (I : Tables → Type 0) (j : Json) (k : Signer)
    → Stable I
    → (w x : World) → Step j k w x
    → I w.tables
    → I x.tables
step-keeps I j k s _ _ (request v cr r w) i = (serve-Keeps s v j k cr r).at w i
step-keeps I j k s _ _ (event v p ev w) i = handle_event-kept s v p ev w i
step-keeps I j k s _ _ (presence v n d w) i = elim (Bool-cases (is_empty d || v.fails n)) [
  | inl b ↦ subst I (ground (arith, b)) i
  | inr b ↦ let kept = s.seen v.now d w.tables _ refl i in subst I (ground (arith, b)) kept
]

-- A predicate that sweeps keep too.
abbrev pub IsSweepSafe : (Tables → Type 0) → Type 0
IsSweepSafe I = (v : Env) (c : Config) (s : Stores) → I s.tables → I (sweep_once v c s).tables

pub move-keeps :
    (I : Tables → Type 0) (j : Json) (k : Signer)
    → Stable I
    → IsSweepSafe I
    → (w x : World) → Move j k w x
    → I w.tables
    → I x.tables
move-keeps I j k s d _ _ (step w x p) i = step-keeps I j k s w x p i
move-keeps I j k s d _ _ (sweep v c os w) i = d v c (record { tables = w.tables; objects = os }) i

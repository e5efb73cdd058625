-- ===== src/Tests/Programs.antt =====
-- Runs of the programs: a seeded admin, a server that stops, and a node that a device joins twice.
use kalki_chat.Base.{
  ℕ, ◌+◌, ◌≡◌, refl, true, none, some, List, [], ◌∷◌, ◌++◌, arith, lit, drop, eq_text, eq_text_refl,
  if◌then◌else◌, ◌==◌,
}
use kalki_chat.Env.{Env}
use kalki_chat.Db.{World, Admin, done}
use kalki_chat.Crypto.Seal.{IsAead, totp_sealed_secret, aes_gcm_seal}
use kalki_chat.Ws.Hub.{Hub, register, close_channel, revocation_event, device_channel}
use kalki_chat.Ws.Map.{has_ref}
use kalki_chat.Ws.Deliver.{IsValid}
use kalki_chat.Ws.Node.{
  Node, NodeEvent, joins, lands, land, remove_one, start_node, take_events, register_node, receive,
}
use kalki_chat.Ws.Node.Copies.{push_times, joins_of, subscribed, event_copied}
use kalki_chat.Api.AdminAuth.{RegisterRequest, identify_admin}
use kalki_chat.Cmd.Seed.{SeedArgs, Tools, Seeded, seed}
use kalki_chat.Cmd.Seed.Identified.{IsShared, seed_identifies}
use kalki_chat.Cmd.Server.{shut_down, dismissed, shut_down_lem}
use kalki_chat.Tests.{env, fill, key, desk, world}
use kalki_chat.Messages.{recv_event}
use kalki_chat.Messages.Send.{sent_row}
use kalki_chat.Messages.Live.{sent_is_received}
use kalki_chat.Tests.Chat.{input, after, sent_id, accepted}
use kalki_chat.Base.{false}
use kalki_chat.Tests.Hubs.{client, hub, hub-IsValid}

-- Sealing puts a tag before the text, and randomness is as long as was asked.
abbrev sealing : Env
sealing = record env {
  random = λ k n. some (fill n 7);
  gcm_seal = λ k n p a. fill 16 0 ++ p;
  gcm_open = λ k n c a. some (drop 16 c);
  totp_enc_key_hex = key;
}

sealing-IsAead : IsAead sealing
sealing-IsAead = record { opens = λ k n p a. refl; tagged = λ k n p a. omega arith }

sealing-IsShared : IsShared sealing sealing
sealing-IsShared = record {
  key = refl;
  opens = λ k s. refl;
  argon2 = λ p h e. ground (arith, e, eq_text_refl p);
  aead = sealing-IsAead;
  nonce = λ n e. ground (arith, e);
}

abbrev tools : Tools
tools = record {
  loads = true;
  connects = true;
  generate = λ a. none;
  is_base32 = λ s. true;
  lower = λ s. s;
  url_string = λ scheme host path query. path;
}

abbrev args : SeedArgs
args = record {
  email = lit "boss@x";
  password = lit "password-1";
  totp = lit "JBSWY3DP";
  role = lit "admin";
}

abbrev printed : Seeded
printed = record {
  email = lit "boss@x";
  password = lit "password-1";
  secret = lit "JBSWY3DP";
  otpauth = lit "/KalkiChat:boss@x";
}

abbrev seeded : World
seeded = (seed sealing tools args world).1

seeds : seed sealing tools args world ≡ (done printed, seeded)
unfolding seed eq_text totp_sealed_secret aes_gcm_seal
seeds = refl

abbrev factors : RegisterRequest
factors = record {
  email = lit "boss@x";
  password = lit "password-1";
  totp_code = lit "123456";
  device = record {
    name = desk;
    platform = lit "web";
    identity_ed25519 = key;
    identity_x25519 = key;
    fcm_token = [];
    apns_token = [];
  };
}

seed_identifies_example :
    (row : Admin) × (identify_admin sealing factors seeded ≡ (done row, seeded))
    × (row.role ≡ lit "admin")
unfolding eq_text
seed_identifies_example =
    seed_identifies sealing sealing tools args world seeded printed factors seeds sealing-IsShared
      refl refl refl refl refl refl refl

shut_down_lem_example :
    (h' : Hub) × (shut_down hub ≡ some h')
    × (h'.clients ≡ [])
    × ((r : ℕ) → h'.heap r ≡ (if has_ref r hub.clients then dismissed (hub.heap r) else hub.heap r))
shut_down_lem_example = shut_down_lem hub hub-IsValid

-- The device connects, and connects again.
abbrev empty_hub : Hub
empty_hub = record hub { clients = [] }

abbrev twice : List NodeEvent
twice = joins 0 ∷ lands (device_channel desk) ∷ joins 1 ∷ lands (device_channel desk) ∷ []

abbrev joined_hub : Hub
joined_hub = record {
  heap = λ q. if q == 0 then record client { closed = true } else client;
  next = 2;
  clients = (desk, 1) ∷ [];
}

abbrev joined : Node
joined = record {
  hub = joined_hub;
  pending = lit "team:admins" ∷ [];
  subscriptions = device_channel desk ∷ device_channel desk ∷ [];
}

joins_twice : take_events twice (start_node empty_hub) ≡ some joined
unfolding take_events register_node land remove_one register close_channel eq_text
joins_twice = refl

joined-IsValid : IsValid joined_hub
joined-IsValid = record {
  distinct = (refl, tt);
  entries = ((omega arith, refl, refl), tt);
  bounded = λ r. ground arith;
}

event_copied_example :
    (n : Node) × (receive (device_channel desk) revocation_event joined ≡ some n)
    × (landed : ℕ) × (landed + subscribed (device_channel desk) joined.pending
        ≡ joins_of desk empty_hub.heap twice)
    × (n.hub.heap 1 ≡ push_times landed revocation_event client)
event_copied_example =
    event_copied twice empty_hub joined revocation_event 1 joins_twice joined-IsValid refl
      (λ e. ground arith)

-- The device connects once, and a message for it is sent.
abbrev once : List NodeEvent
once = joins 0 ∷ lands (device_channel desk) ∷ []

abbrev first_hub : Hub
first_hub = record { heap = λ q. client; next = 2; clients = (desk, 0) ∷ [] }

abbrev first_node : Node
first_node = record {
  hub = first_hub;
  pending = lit "team:admins" ∷ [];
  subscriptions = device_channel desk ∷ [];
}

joins_once : take_events once (start_node empty_hub) ≡ some first_node
unfolding take_events register_node land remove_one register close_channel eq_text
joins_once = refl

first-IsValid : IsValid first_hub
first-IsValid = record {
  distinct = (refl, tt);
  entries = ((omega arith, refl, refl), tt);
  bounded = λ r. omega arith;
}

sent_is_received_example :
    let ev = recv_event env (sent_row env input) false in
    (after.published ≡ (device_channel desk, ev) ∷ [])
    × (n : Node) × (receive (device_channel desk) ev first_node ≡ some n)
    × ((n.hub.heap 0).queue ≡ ev ∷ [])
unfolding eq_text joins_of
sent_is_received_example =
    sent_is_received env input world after sent_id once empty_hub first_node 0 accepted joins_once
      first-IsValid refl (λ e. ground arith) refl refl (omega arith)

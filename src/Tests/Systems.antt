-- ===== src/Tests/Systems.antt =====
-- Runs of the whole backend: requests, events and sweeps one after the other.
use kalki_chat.Base.{◌≡◌, ◌≢◌, refl, none, some, [], ◌∷◌, lit, find_row, eq_text}
use kalki_chat.Db.{World, Message, OneTimePrekey, done, refused}
use kalki_chat.Messages.{SendInput, SendError, send_message}
use kalki_chat.Auth.Refresh.{refresh_rotate}
use kalki_chat.Api.AdminSync.{is_message}
use kalki_chat.Api.Session.{revoke_device}
use kalki_chat.Api.Prekeys.{Bundle, prekeys_fetch, fetch_body}
use kalki_chat.Api.Router.{Credentials, serve, handle_open, open_route, get_whatsapp_link}
use kalki_chat.Api.WhatsApp.{onboarding_link}
use kalki_chat.Retention.{Config}
use kalki_chat.Api.System.{
  Step, request, presence, touch_last_seen, Many, ended, after, Move, step, sweep, swept,
}
use kalki_chat.Api.System.Devices.{IsRevoked, revoked_sends_nothing}
use kalki_chat.Api.System.Tokens.{refresh_buys_once}
use kalki_chat.Api.System.Messages.{IsSame, message_stays}
use kalki_chat.Api.System.Replies.{IsAgreed, queue_agrees}
use kalki_chat.Api.System.Prekeys.{prekey_handed_once}
use kalki_chat.Tests.{
  env, later, phone, desk, key, device, tables, world, signer, message, alice, prekey,
  signed_prekey,
}
use kalki_chat.Tests.Tokens.{json, presented, rotated, out, first}

-- A request that finds nothing, and an arrival.
abbrev nobody : Credentials
nobody = record { authorization = []; session = none }

abbrev asked : World → World
asked w = (serve env json signer nobody (open_route get_whatsapp_link) w).1

abbrev seen : World → World
seen w = record (asked w) { tables = touch_last_seen env 0 desk (asked w).tables }

steps : (w : World) → Many (Step json signer) w (seen w)
steps w =
    after w (asked w) (seen w) (request env nobody (open_route get_whatsapp_link) w)
      (after (asked w) (seen w) (seen w) (presence env 0 desk (asked w)) (ended (seen w)))

-- An arrival and a sweep.
abbrev config : Config
config = record { sweep = 60; media_ttl = 0; message_ttl = 0 }

abbrev arrived : World → World
arrived w = record w { tables = touch_last_seen env 0 phone w.tables }

abbrev cleaned : World → World
cleaned w = swept later config [] (arrived w)

moves : (w : World) → Many (Move json signer) w (cleaned w)
moves w = after w (arrived w) (cleaned w) (step w (arrived w) (presence env 0 phone w)) (
    after (arrived w) (cleaned w) (cleaned w) (sweep later config [] (arrived w))
      (ended (cleaned w)))

abbrev stolen : World
stolen = record world {
  tables = record tables { devices = revoke_device 5 (device phone (lit "user") alice) ∷ [] };
}

abbrev input : SendInput
input = record {
  sender_device_id = phone;
  recipient_device_id = desk;
  conversation_id = lit "c1";
  client_id = lit "next";
  envelope = lit "x";
  signature = lit "x";
  media_id = none;
}

stolen-IsRevoked : IsRevoked phone stolen.tables
unfolding eq_text
stolen-IsRevoked = record { known = refl; dead = refl }

revoked_sends_nothing_example :
    (e : SendError) × (send_message later input (cleaned stolen) ≡ (refused e, cleaned stolen))
revoked_sends_nothing_example =
    revoked_sends_nothing json signer stolen (cleaned stolen) later input stolen-IsRevoked
      (moves stolen)

refresh_buys_once_example : refresh_rotate later presented 60 (seen rotated) ≢ (done out, world)
refresh_buys_once_example =
    refresh_buys_once json signer env later presented 86400000000000 60 world rotated (seen rotated)
      world out out first (steps rotated)

stored : find_row (is_message (lit "m1")) world.tables.messages ≡ some message
unfolding eq_text
stored = refl

message_stays_example :
    (n : Message) × (find_row (is_message (lit "m1")) (seen world).tables.messages ≡ some n)
    × IsSame message n
message_stays_example =
    message_stays json signer world (seen world) (lit "m1") message stored (steps world)

queue_agrees_example : IsAgreed (cleaned world).tables
queue_agrees_example =
    queue_agrees json signer world (cleaned world) (refl, (refl, tt)) (moves world)

abbrev bundle : OneTimePrekey → Bundle
bundle k = record {
  device_id = desk;
  identity_ed25519 = key;
  identity_x25519 = key;
  signed_prekey = signed_prekey;
  one_time_prekey = some k;
}

abbrev handed : World
handed = (prekeys_fetch env desk world).1

hands : prekeys_fetch env desk world ≡ (done (bundle (prekey 1)), handed)
unfolding prekeys_fetch fetch_body eq_text
hands = refl

hands_next :
    prekeys_fetch later desk (seen handed)
    ≡ (done (bundle (prekey 2)), (prekeys_fetch later desk (seen handed)).1)
unfolding prekeys_fetch fetch_body eq_text serve handle_open onboarding_link
hands_next = refl

prekey_handed_once_example : (prekey 2).id ≢ (prekey 1).id
prekey_handed_once_example =
    prekey_handed_once json signer env later desk desk world handed (seen handed)
      (prekeys_fetch later desk (seen handed)).1 (bundle (prekey 1)) (bundle (prekey 2)) (prekey 1)
      (prekey 2) hands refl (steps handed) hands_next refl

-- ===== src/Tests/Hubs.antt =====
-- Runs of the hub, on a hub that holds one client.
use kalki_chat.Base.{◌≡◌, refl, false, some, List, [], ◌∷◌, arith, lit, ◌⊎◌}
use kalki_chat.Ws.Hub.{Hub, Client, lookup_client, route_by_channel, revocation_event}
use kalki_chat.Ws.Deliver.{IsValid, Delivered}
use kalki_chat.Ws.Route.{device, channel_of, receives, IsNamed, route_by_channel-Delivered}
use kalki_chat.Ws.Lifecycle.{IsFresh}
use kalki_chat.Ws.Server.{
  Server, Action, arrive, take_register, take_unregister, run, new_server, write,
}
use kalki_chat.Ws.Server.Safety.{Ending, Panic, run_new_safe}
use kalki_chat.Ws.Server.Races.{hang_up_first_leaks}
use kalki_chat.Tests.{desk, boss}

-- Client 0 is connected, and client 1 of the same device has been made.
abbrev pub client : Client
client = record {
  device_id = desk;
  owner_id = boss;
  kind = lit "admin";
  queue = [];
  closed = false;
}

abbrev pub hub : Hub
hub = record { heap = λ r. client; next = 2; clients = (desk, 0) ∷ [] }

pub hub-IsValid : IsValid hub
hub-IsValid = record {
  distinct = (refl, tt);
  entries = ((omega arith, refl, refl), tt);
  bounded = λ r. omega arith;
}

second-IsFresh : IsFresh hub 1
second-IsFresh = (omega arith, refl, refl)

desk-IsNamed : IsNamed (device desk)
desk-IsNamed e = ground arith

route_by_channel-Delivered_example :
    (h' : Hub) × (route_by_channel (channel_of (device desk)) revocation_event hub ≡ some h')
    × Delivered (receives (device desk)) revocation_event hub.clients hub h'
    × IsValid h'
route_by_channel-Delivered_example =
    route_by_channel-Delivered (device desk) revocation_event hub desk-IsNamed hub-IsValid

hang_up_first_leaks_example :
    (s : Server) × (run
        (take_unregister ∷ take_register ∷ [])
        (record { hub = hub; registering = 1 ∷ []; unregistering = 1 ∷ [] })
      ≡ some s)
    × (lookup_client desk s.hub.clients ≡ some 1)
    × (s.registering ≡ [])
    × (s.unregistering ≡ [])
hang_up_first_leaks_example = hang_up_first_leaks 1 hub hub-IsValid second-IsFresh

-- The device connects again, and the connection that was replaced writes.
abbrev late : List Action
late =
    arrive desk boss (lit "admin")
    ∷ take_register
    ∷ write 0 revocation_event
    ∷ arrive desk boss (lit "admin")
    ∷ take_register
    ∷ write 0 revocation_event
    ∷ []

run_new_safe_example : Ending late (new_server client) ⊎ Panic late (new_server client)
run_new_safe_example = run_new_safe late client (tt, (tt, (tt, (tt, (tt, (tt, tt))))))

-- ===== src/Tests/Chat.antt =====
-- Runs of Send, of receipts and of replays.
use kalki_chat.Base.{
  ◌≡◌, ◌≤◌, refl, true, false, none, some, [], ◌∷◌, ◌++◌, arith, Text, lit, eq_text, All, length,
}
use kalki_chat.Db.{World, done, Device, has_message}
use kalki_chat.Ws.Hub.{Hub, Client}
use kalki_chat.Ws.Deliver.{IsValid}
use kalki_chat.Messages.{
  recv_event, SendInput, send_message, validate, mark_delivered, missed, backfill_missed,
}
use mathlib.Core.List.{Memᴰ}
use kalki_chat.Messages.Delivery.{sent_is_replayed}
use kalki_chat.Messages.Send.{
  sent_row, IsChecked, Accepted, send_message-IsChecked, send_message-Accepted,
  send_message_retry_unstored,
}
use kalki_chat.Messages.Replay.{IsOrdered}
use kalki_chat.Messages.Missed.{missed_lem, IsAwaited, IsSettled}
use kalki_chat.Tests.{env, later, phone, desk, world, tables}

abbrev pub input : SendInput
input = record {
  sender_device_id = phone;
  recipient_device_id = desk;
  conversation_id = lit "c1";
  client_id = lit "second";
  envelope = lit "hello";
  signature = lit "hello";
  media_id = none;
}

abbrev pub after : World
after = (send_message env input world).1

abbrev pub sent_id : Text
sent_id = lit "msg_" ++ 0 ∷ []

pub accepted : send_message env input world ≡ (done sent_id, after)
unfolding send_message validate eq_text
accepted = refl

send_message-IsChecked_example : (sender : Device) × IsChecked env input world sender
send_message-IsChecked_example = send_message-IsChecked env input world after sent_id accepted

send_message-Accepted_example : Accepted env input world after sent_id
send_message-Accepted_example = send_message-Accepted env input world after sent_id accepted

abbrev again : World
again = (send_message later input after).1

accepted_again : send_message later input after ≡ (done (lit "msg_" ++ 50 ∷ []), again)
unfolding send_message validate eq_text
accepted_again = refl

send_message_retry_unstored_example :
    (has_message (lit "msg_" ++ 50 ∷ []) again.tables ≡ false)
    × ((mark_delivered env (lit "msg_" ++ 50 ∷ []) desk again).1.tables.messages
        ≡ again.tables.messages)
unfolding send_message validate eq_text
send_message_retry_unstored_example =
    send_message_retry_unstored later env input desk after again (lit "msg_" ++ 50 ∷ [])
      accepted_again refl refl

missed_lem_example :
    (length (missed env.now desk tables.messages) ≤ 200)
    × IsOrdered (missed env.now desk tables.messages)
    × All (IsAwaited env.now desk) (missed env.now desk tables.messages)
    × All (IsSettled env.now desk (missed env.now desk tables.messages)) tables.messages
missed_lem_example = missed_lem env.now desk tables.messages

abbrev client : Client
client = record {
  device_id = desk;
  owner_id = lit "boss";
  kind = lit "admin";
  queue = [];
  closed = false;
}

abbrev hub : Hub
hub = record { heap = λ r. client; next = 1; clients = (desk, 0) ∷ [] }

hub-IsValid : IsValid hub
hub-IsValid = record {
  distinct = (refl, tt);
  entries = ((omega arith, refl, refl), tt);
  bounded = λ r. omega arith;
}

-- The tables at the replay: all refresh tokens have gone.
abbrev at_replay : World
at_replay = record after { tables = record after.tables { refresh_tokens = [] } }

sent_is_replayed_example :
    (h' : Hub) × (backfill_missed later desk at_replay.tables hub ≡ some h')
    × Memᴰ (recv_event later (sent_row env input) true) (h'.heap 0).queue
unfolding send_message validate eq_text
sent_is_replayed_example =
    sent_is_replayed env later input world after at_replay sent_id hub 0 accepted refl refl
      (omega arith) hub-IsValid refl refl (omega arith)

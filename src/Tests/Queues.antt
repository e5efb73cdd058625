-- ===== src/Tests/Queues.antt =====
-- Runs of the handlers for prekeys, the socket and the admin's queue.
use kalki_chat.Base.{◌≡◌, refl, some, [], lit, eq_text}
use kalki_chat.Db.{World, done}
use kalki_chat.Api.AdminSync.{AckRequest, acked_sent, admin_sync_ack}
use kalki_chat.Api.AdminSync.Queue.{row_at, admin_sync_ack_terminal}
use kalki_chat.Tests.{env, old_reply, world}

abbrev request : AckRequest
request = record { server_message_id = lit "m1"; error = [] }

abbrev acked_world : World
acked_world = (admin_sync_ack env (lit "q1") (some request) world).1

acks : admin_sync_ack env (lit "q1") (some request) world ≡ (done acked_sent, acked_world)
unfolding admin_sync_ack eq_text
acks = refl

admin_sync_ack_terminal_example : row_at 0 acked_world.tables.admin_outbound_queue ≡ some old_reply
admin_sync_ack_terminal_example =
    admin_sync_ack_terminal env (lit "q1") request world acked_world (done acked_sent) 0 old_reply
      acks refl refl

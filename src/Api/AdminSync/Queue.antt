-- ===== src/Api/AdminSync/Queue.antt =====
-- The queue of replies (backend/internal/api/admin_sync.go).
use kalki_chat.Base.{
  ℕ, zero, suc, ap, find-exists_row, exists-append, ◌≡◌, refl, true, false, Option, none, some,
  List, [], ◌∷◌, arith, Text, lit, eq_text_refl, find_row, inl, inr, is_empty, update_rows,
  exists_row, Option-cases, ◌∙◌,
}
use kalki_chat.Env.{Env}
use kalki_chat.Db.{World, Outcome, done, refused, Tables, Message, PlainText, QueueRow, has_message}
use kalki_chat.Api.Http.{HttpError, db_500, nullable}
use kalki_chat.Api.AdminSync.{
  AckRequest, AckStatus, acked_sent, acked_failed, noop, admin_sync_ack, is_pending, is_pending_row,
  set_failed, set_sent, is_message, update_sent, mirror_reply, is_mirror_of,
}

-- A refused acknowledgement changes nothing.
pub admin_sync_ack_refused :
    (v : Env) (id : Text) (r : AckRequest) (w w' : World) (e : HttpError)
    → admin_sync_ack v id (some r) w ≡ (refused e, w')
    → w' ≡ w
unfolding admin_sync_ack
admin_sync_ack_refused v id r w w' e h = ground arith

-- The rows of the queue after an answer.
abbrev pub acked : Env → Text → AckRequest → AckStatus → List QueueRow → List QueueRow
acked v id r acked_sent qs =
    update_rows (is_pending_row id) (set_sent v.now (nullable r.server_message_id)) qs
acked v id r acked_failed qs = update_rows (is_pending_row id) (set_failed r.error) qs
acked v id r noop qs = qs

pub admin_sync_ack-rows :
    (v : Env) (id : Text) (r : AckRequest) (w w' : World) (s : AckStatus)
    → admin_sync_ack v id (some r) w ≡ (done s, w')
    → w'.tables.admin_outbound_queue ≡ acked v id r s w.tables.admin_outbound_queue
unfolding admin_sync_ack
admin_sync_ack-rows v id r w w' s h = ground arith

-- The n-th row of the queue.
abbrev pub row_at : ℕ → List QueueRow → Option QueueRow
row_at n [] = none
row_at zero (q ∷ qs) = some q
row_at (suc n) (q ∷ qs) = row_at n qs

at-update :
    (id : Text) (f : QueueRow → QueueRow) (n : ℕ) (qs : List QueueRow) (q : QueueRow)
    → row_at n qs ≡ some q
    → is_pending q.status ≡ false
    → row_at n (update_rows (is_pending_row id) f qs) ≡ some q
at-update id f n [] q h g = cc
at-update id f zero (x ∷ qs) q h g = ground arith
at-update id f (suc n) (x ∷ qs) q h g = at-update id f n qs q h g

acked-at :
    (v : Env) (id : Text) (r : AckRequest) (s : AckStatus) (n : ℕ) (qs : List QueueRow)
    (q : QueueRow)
    → row_at n qs ≡ some q
    → is_pending q.status ≡ false
    → row_at n (acked v id r s qs) ≡ some q
acked-at v id r acked_sent n qs q h g =
    at-update id (set_sent v.now (nullable r.server_message_id)) n qs q h g
acked-at v id r acked_failed n qs q h g = at-update id (set_failed r.error) n qs q h g
acked-at v id r noop n qs q h g = h

-- Whatever the outcome of an acknowledgement, a row of the queue that was sent or has failed
-- stays where it is, unchanged.
pub admin_sync_ack_terminal :
    (v : Env) (id : Text) (r : AckRequest) (w w' : World) (o : Outcome HttpError AckStatus) (n : ℕ)
    (q : QueueRow)
    → admin_sync_ack v id (some r) w ≡ (o, w')
    → row_at n w.tables.admin_outbound_queue ≡ some q
    → is_pending q.status ≡ false
    → row_at n w'.tables.admin_outbound_queue ≡ some q
admin_sync_ack_terminal v id r w w' (done s) n q h at settled =
    ap (row_at n) (admin_sync_ack-rows v id r w w' s h)
    ∙ acked-at v id r s n w.tables.admin_outbound_queue q at settled
admin_sync_ack_terminal v id r w w' (refused e) n q h at settled =
    ap (λ (x : World). row_at n x.tables.admin_outbound_queue)
      (admin_sync_ack_refused v id r w w' e h)
    ∙ at

mirror_reply-exists :
    (v : Env) (id body : Text) (t t' : Tables) (m : Message)
    → find_row (is_message id) t.messages ≡ some m
    → mirror_reply v id body t ≡ some t'
    → exists_row (is_mirror_of m.id) t'.admin_plaintext ≡ true
mirror_reply-exists v id body t t' m e h =
    let row : PlainText = record {
      message_id = m.id;
      conversation_id = m.conversation_id;
      direction = lit "outbound";
      body = body;
      created_at = m.created_at;
      decrypted_at = v.now;
    } in
    ground (arith, e, exists-append (is_mirror_of m.id) t.admin_plaintext row, eq_text_refl m.id)

-- If an acknowledgement that names a message is answered as sent, that message exists and the
-- plaintext mirror has a row for it.
pub admin_sync_ack_mirrored :
    (v : Env) (id : Text) (r : AckRequest) (w w' : World)
    → admin_sync_ack v id (some r) w ≡ (done acked_sent, w')
    → is_empty r.server_message_id ≡ false
    → (m : Message) × (find_row (is_message r.server_message_id) w.tables.messages ≡ some m)
      × (exists_row (is_mirror_of m.id) w'.tables.admin_plaintext ≡ true)
unfolding admin_sync_ack
admin_sync_ack_mirrored v id r w w' h full =
    elim (Option-cases (find_row (is_message r.server_message_id) w.tables.messages)) [
      | inl e ↦
          ground (arith, e, find-exists_row (is_message r.server_message_id) w.tables.messages e)
      | inr (m, e) ↦
          elim (Option-cases (find_row (is_pending_row id) w.tables.admin_outbound_queue)) [
            | inl n ↦ ground (arith, e, n)
            | inr (q, n) ↦
                elim (Option-cases (update_sent v id (some r.server_message_id) w.tables)) [
                  | inl k ↦ ground (arith, e, n, k)
                  | inr (t, k) ↦ elim (Option-cases (mirror_reply v r.server_message_id q.body t)) [
                    | inl l ↦ ground (arith, e, n, k, l)
                    | inr (t', l) ↦
                        let there =
                          mirror_reply-exists v r.server_message_id q.body t t' m
                            (ground (arith, e, k)) l in
                        (m, e, ground (arith, h, e, n, k, l, there))
                  ]
                ]
          ]
    ]

-- Once a reply is acknowledged as sent, no later acknowledgement changes the queue.
none_pending :
    (id : Text) (t : ℕ) (m : Option Text) (qs : List QueueRow)
    → exists_row (is_pending_row id) (update_rows (is_pending_row id) (set_sent t m) qs) ≡ false
none_pending id t m [] = refl
none_pending id t m (q ∷ qs) = ground (arith, none_pending id t m qs)

update_none :
    (id : Text) (f : QueueRow → QueueRow) (qs : List QueueRow)
    → exists_row (is_pending_row id) qs ≡ false
    → update_rows (is_pending_row id) f qs ≡ qs
update_none id f [] h = refl
update_none id f (q ∷ qs) h = ground (arith, update_none id f qs)

ack-none :
    (v : Env) (id : Text) (r : AckRequest) (w w' : World)
    → admin_sync_ack v id (some r) w ≡ (done acked_sent, w')
    → exists_row (is_pending_row id) w'.tables.admin_outbound_queue ≡ false
ack-none v id r w w' h =
    ap (exists_row (is_pending_row id)) (admin_sync_ack-rows v id r w w' acked_sent h)
    ∙ none_pending id v.now (nullable r.server_message_id) w.tables.admin_outbound_queue

-- After an acknowledgement that was answered as sent, a second one for the same row, with
-- whatever data and outcome, leaves the queue as it is.
pub admin_sync_ack_once :
    (v v' : Env) (id : Text) (r r' : AckRequest) (w w' w'' : World)
    (o : Outcome HttpError AckStatus)
    → admin_sync_ack v id (some r) w ≡ (done acked_sent, w')
    → admin_sync_ack v' id (some r') w' ≡ (o, w'')
    → w''.tables.admin_outbound_queue ≡ w'.tables.admin_outbound_queue
admin_sync_ack_once v v' id r r' w w' w'' (done acked_sent) h h' =
    admin_sync_ack-rows v' id r' w' w'' acked_sent h'
    ∙ update_none id (set_sent v'.now (nullable r'.server_message_id))
        w'.tables.admin_outbound_queue (ack-none v id r w w' h)
admin_sync_ack_once v v' id r r' w w' w'' (done acked_failed) h h' =
    admin_sync_ack-rows v' id r' w' w'' acked_failed h'
    ∙ update_none id (set_failed r'.error) w'.tables.admin_outbound_queue (ack-none v id r w w' h)
admin_sync_ack_once v v' id r r' w w' w'' (done noop) h h' =
    admin_sync_ack-rows v' id r' w' w'' noop h'
admin_sync_ack_once v v' id r r' w w' w'' (refused e) h h' =
    ap (λ (x : World). x.tables.admin_outbound_queue) (admin_sync_ack_refused v' id r' w' w'' e h')

-- A reply acknowledged with an identifier that no message has is refused with 500, and waits on.
pub admin_sync_ack_unknown :
    (v : Env) (id : Text) (r : AckRequest) (w : World) (q : QueueRow)
    → ((n : ℕ) → v.fails n ≡ false)
    → is_empty id ≡ false
    → is_empty r.error ≡ true
    → is_empty r.server_message_id ≡ false
    → find_row (is_pending_row id) w.tables.admin_outbound_queue ≡ some q
    → has_message r.server_message_id w.tables ≡ false
    → admin_sync_ack v id (some r) w ≡ (refused db_500, w)
unfolding admin_sync_ack
admin_sync_ack_unknown v id r w q up full no_error named found unknown =
    ground (arith, up 1, up 2, up 5, up 4, found, unknown)

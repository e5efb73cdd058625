-- ===== src/Messages/Send.antt =====
-- What Service.Send of backend/internal/messages/messages.go accepts, stores and publishes.
use kalki_chat.Base.{
  ℕ, ◌≤◌, ◌≡◌, refl, Bool, true, false, none, some, List, [], ◌∷◌, ◌++◌, arith, ◌⊎◌, inl, inr,
  if◌then◌else◌, length, Text, lit, eq_text, eq_text_refl, eq_text_iff, find_row, exists_row,
  update_rows, count_rows, count-append, Option-cases, ◌∙◌,
}
use kalki_chat.Env.{Env}
use kalki_chat.Db.{Device, Message, has_message, World, Outcome, done, refused}
use kalki_chat.Ws.Hub.{device_channel}
use kalki_chat.Messages.{
  SendInput, SendError, db, max_envelope_bytes, verify_ed25519, is_device, is_live_device, is_from,
  new_message, recv_event, send_message, mark_delivered, is_undelivered, set_delivered,
}

-- What was checked of an input before anything is written.
pub record IsChecked (v : Env) (i : SendInput) (w : World) (sender : Device) : Type 0 where
  pub nonempty : 1 ≤ length i.envelope
  pub bounded : length i.envelope ≤ max_envelope_bytes
  pub known : find_row (is_device i.sender_device_id) w.tables.devices ≡ some sender
  pub live : sender.revoked_at ≡ none
  pub signed : verify_ed25519 v sender.identity_ed25519 i.envelope i.signature ≡ true
  pub recipient : exists_row (is_live_device i.recipient_device_id) w.tables.devices ≡ true

-- If `Send` accepts a message, its envelope has 1 to 16384 bytes and carries a signature by the
-- identity key of the sending device, the sending device exists and is not revoked, and the
-- receiving device exists and is not revoked.
pub send_message-IsChecked :
    (v : Env) (i : SendInput) (w w' : World) (id : Text)
    → send_message v i w ≡ (done id, w')
    → (sender : Device) × IsChecked v i w sender
unfolding send_message
send_message-IsChecked v i w w' id h =
    elim (Option-cases (find_row (is_device i.sender_device_id) w.tables.devices)) [
      | inl e ↦ ground arith
      | inr (sender, e) ↦ (
        sender,
        record {
          nonempty = ground arith;
          bounded = ground arith;
          known = e;
          live = ground arith;
          signed = ground arith;
          recipient = ground arith;
        },
      )
    ]

-- If `Send` refuses a message, the error is that of a failed call, or nothing at all has changed.
pub send_message_refused :
    (v : Env) (i : SendInput) (w w' : World) (e : SendError)
    → send_message v i w ≡ (refused e, w')
    → (e ≡ db) ⊎ (w' ≡ w)
unfolding send_message
send_message_refused v i w w' e h = ground arith

-- The identifier and the row that `Send` makes.
abbrev pub sent_id : Env → Text
sent_id v = lit "msg_" ++ v.uuid 0

abbrev pub sent_row : Env → SendInput → Message
sent_row v i = new_message v (sent_id v) i

-- What an accepted message leaves: one event on the channel of the receiving device alone, with the
-- identifier that the caller gets; and one new row, or none if the sender has already stored a
-- message under this client id.
pub record Accepted (v : Env) (i : SendInput) (w w' : World) (id : Text) : Type 0 where
  pub named : id ≡ sent_id v
  pub event :
      w'.published
      ≡ w.published
        ++ (device_channel i.recipient_device_id, recv_event v (sent_row v i) false) ∷ []
  pub stored : w'.tables ≡ (
      if exists_row (is_from i.sender_device_id i.client_id) w.tables.messages
      then w.tables
      else record w.tables { messages = w.tables.messages ++ sent_row v i ∷ [] })

-- If `Send` accepts a message, it returns the new identifier, publishes one event with it on the
-- channel of the receiving device alone, and stores one new row, or none if the sender already
-- has a row under this client id; nothing else changes.
pub send_message-Accepted :
    (v : Env) (i : SendInput) (w w' : World) (id : Text)
    → send_message v i w ≡ (done id, w')
    → Accepted v i w w' id
unfolding send_message
send_message-Accepted v i w w' id h = record {
  named = ground arith;
  event = ground arith;
  stored = ground arith;
}

-- At most one row for each pair of a sender and a client id.
abbrev pub rows_from : Text → Text → World → ℕ
rows_from sender client w = count_rows (is_from sender client) w.tables.messages

exists-count :
    (p : Message → Bool) (ms : List Message) → exists_row p ms ≡ false → count_rows p ms ≡ 0
exists-count p [] h = refl
exists-count p (m ∷ ms) h = ground (arith, exists-count p ms)

exists-append :
    (p : Message → Bool) (ms : List Message) (m : Message)
    → p m ≡ true
    → exists_row p (ms ++ m ∷ []) ≡ true
exists-append p [] m h = ground arith
exists-append p (x ∷ ms) m h = ground (arith, exists-append p ms m)

-- If at most one message has a given sender and client id, then so after any `Send`, whether it
-- is accepted, refused or fails on the way.
pub send_message_unique :
    (v : Env) (i : SendInput) (sender client : Text) (w w' : World) (o : Outcome SendError Text)
    → send_message v i w ≡ (o, w')
    → rows_from sender client w ≤ 1
    → rows_from sender client w' ≤ 1
unfolding send_message
send_message_unique v i sender client w w' o h u = ground (
  arith,
  count-append (is_from sender client) w.tables.messages (sent_row v i ∷ []),
  exists-count (is_from i.sender_device_id i.client_id) w.tables.messages,
  eq_text_iff i.sender_device_id sender,
  eq_text_iff i.client_id client,
)

-- If a second `Send` with the sender and client id of an accepted one is accepted too, the tables
-- stay as the first left them.
pub send_message_retry :
    (v v' : Env) (i j : SendInput) (w w' w'' : World) (id id' : Text)
    → send_message v i w ≡ (done id, w')
    → j.sender_device_id ≡ i.sender_device_id
    → j.client_id ≡ i.client_id
    → send_message v' j w' ≡ (done id', w'')
    → w''.tables ≡ w'.tables
send_message_retry v v' i j w w' w'' id id' h s c h' =
    let a = send_message-Accepted v i w w' id h in
    let b = send_message-Accepted v' j w' w'' id' h' in
    let p = is_from i.sender_device_id i.client_id in
    let ex : exists_row p w'.tables.messages ≡ true = ground (
      arith,
      a.stored,
      exists-append p w.tables.messages (sent_row v i),
      eq_text_refl i.sender_device_id,
      eq_text_refl i.client_id,
    ) in
    b.stored ∙ rw (s, c, ex) refl

absent-update :
    (id d : Text) (t : ℕ) (ms : List Message)
    → exists_row (λ (m : Message). eq_text m.id id) ms ≡ false
    → update_rows (is_undelivered id d) (set_delivered t) ms ≡ ms
absent-update id d t [] h = refl
absent-update id d t (m ∷ ms) h = ground (arith, absent-update id d t ms)

-- If `Send` accepts a message whose sender already has a row under its client id, and the new
-- identifier is unused, then no stored message has the identifier that is returned, and
-- acknowledging it changes no message.
pub send_message_retry_unstored :
    (v v' : Env) (i : SendInput) (d : Text) (w w' : World) (id : Text)
    → send_message v i w ≡ (done id, w')
    → exists_row (is_from i.sender_device_id i.client_id) w.tables.messages ≡ true
    → has_message (sent_id v) w.tables ≡ false
    → (has_message id w'.tables ≡ false)
      × ((mark_delivered v' id d w').1.tables.messages ≡ w'.tables.messages)
unfolding mark_delivered
send_message_retry_unstored v v' i d w w' id h ex new =
    let a = send_message-Accepted v i w w' id h in
    let same : w'.tables ≡ w.tables = a.stored ∙ rw ex in
    let gone : has_message id w'.tables ≡ false = rw (same, a.named) new in
    (gone, ground (arith, absent-update id d v'.now w'.tables.messages gone))

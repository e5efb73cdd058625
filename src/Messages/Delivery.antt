-- ===== src/Messages/Delivery.antt =====
-- From Service.Send (backend/internal/messages/messages.go) to the receiving device's next
-- connection (backfillMissed in backend/internal/ws/hub.go).
use kalki_chat.Base.{
  ℕ, ◌+◌, ◌*◌, ◌≤◌, ◌<◌, ◌≡◌, refl, Bool, true, false, some, List, [], ◌∷◌, ◌++◌, map, arith, ◌==◌,
  inl, inr, length, Text, select_rows, insert_row, order_rows, exists_row, find_row,
  find_row-append_none, exists-find_row, sym, Bool-cases, ◌∙◌, ap, eq_text_refl, length-append,
}
use mathlib.Core.List.{Memᴰ}
use mathlib.Core.List.Memᴰ.{head, tail}
use mathlib.Core.List.Memᴰ
use kalki_chat.Env.{Env, day}
use kalki_chat.Db.{Message, World, done}
use kalki_chat.Ws.Hub.{Hub, Client, ServerEvent, lookup_client, send_capacity}
use kalki_chat.Ws.Deliver.{IsValid}
use kalki_chat.Messages.{
  SendInput, send_message, is_from, is_missed, missed, recv_event, backfill_missed,
}
use kalki_chat.Messages.Send.{sent_row, send_message-Accepted}
use kalki_chat.Messages.Replay.{older, take_all, with_events, backfill_missed_lem}

module _ {ℓ} {A : Type ℓ} where
  Memᴰ-insert_head : (le : A → A → Bool) (x : A) (ys : List A) → Memᴰ x (insert_row le x ys)
  Memᴰ-insert_head le x [] = head refl
  Memᴰ-insert_head le x (y ∷ ys) = elim (Bool-cases (le x y)) [
    | inl e ↦ rw e (head refl)
    | inr e ↦ rw e (tail (Memᴰ-insert_head le x ys))
  ]

  Memᴰ-insert :
      (le : A → A → Bool) (x z : A) (ys : List A) → Memᴰ z ys → Memᴰ z (insert_row le x ys)
  Memᴰ-insert le x z [] h = elim h [ ]
  Memᴰ-insert le x z (y ∷ ys) (head h) = elim (Bool-cases (le x y)) [
    | inl e ↦ rw e (tail (head h))
    | inr e ↦ rw e (head h)
  ]
  Memᴰ-insert le x z (y ∷ ys) (tail h) = elim (Bool-cases (le x y)) [
    | inl e ↦ rw e (tail (tail h))
    | inr e ↦ rw e (tail (Memᴰ-insert le x z ys h))
  ]

  pub Memᴰ-order : (le : A → A → Bool) (z : A) (xs : List A) → Memᴰ z xs → Memᴰ z (order_rows le xs)
  Memᴰ-order le z [] h = elim h [ ]
  Memᴰ-order le z (x ∷ xs) (head h) = rw h (Memᴰ-insert_head le x (order_rows le xs))
  Memᴰ-order le z (x ∷ xs) (tail h) = Memᴰ-insert le x z (order_rows le xs) (Memᴰ-order le z xs h)

  length-map {κ} : {B : Type κ} (f : A → B) (xs : List A) → length (map f xs) ≡ length xs
  length-map f [] = refl
  length-map f (x ∷ xs) = ground (arith, length-map f xs)

  find_row-Memᴰ : (p : A → Bool) (xs : List A) (z : A) → find_row p xs ≡ some z → Memᴰ z xs
  find_row-Memᴰ p [] z h = cc
  find_row-Memᴰ p (x ∷ xs) z h = elim (Bool-cases (p x)) [
    | inl e ↦ head (ground (arith, e, h))
    | inr e ↦ tail (find_row-Memᴰ p xs z (ground (arith, e, h)))
  ]

  pub Memᴰ-select :
      (p : A → Bool) (xs : List A) (z : A) → p z ≡ true → Memᴰ z xs → Memᴰ z (select_rows p xs)
  Memᴰ-select p [] z h m = elim m [ ]
  Memᴰ-select p (x ∷ xs) z h (head e) = rw (sym e, h) (head refl)
  Memᴰ-select p (x ∷ xs) z h (tail m) = elim (Bool-cases (p x)) [
    | inl e ↦ rw e (tail (Memᴰ-select p xs z h m))
    | inr e ↦ rw e (Memᴰ-select p xs z h m)
  ]

  length-insert :
      (le : A → A → Bool) (x : A) (ys : List A) → length (insert_row le x ys) ≡ 1 + length ys
  length-insert le x [] = refl
  length-insert le x (y ∷ ys) = ground (arith, length-insert le x ys)

  length-order : (le : A → A → Bool) (xs : List A) → length (order_rows le xs) ≡ length xs
  length-order le [] = refl
  length-order le (x ∷ xs) =
      ground (arith, length-insert le x (order_rows le xs), length-order le xs)

-- As long as no more than 200 messages are missed, none is left out.
missed_all :
    (now : ℕ) (d : Text) (ms : List Message)
    → length (select_rows (is_missed now d) ms) ≤ 200
    → (missed now d ms ≡ order_rows older (select_rows (is_missed now d) ms))
unfolding missed
missed_all now d ms h =
    take_all 200 (order_rows older (select_rows (is_missed now d) ms))
      (ground (arith, length-order older (select_rows (is_missed now d) ms)))

-- What fits behind a queue is in it.
fits :
    (evs : List ServerEvent) (c : Client) (ev : ServerEvent)
    → length c.queue + length evs ≤ send_capacity
    → Memᴰ ev evs
    → Memᴰ ev (with_events evs c).queue
unfolding with_events
fits evs c ev h m =
    rw (take_all send_capacity (c.queue ++ evs) (omega (arith, h, length-append c.queue evs)))
      (Memᴰ.append_right c.queue m)

-- If Send accepts a message under a new client id, and less than seven days later the device is
-- connected to a valid hub, then a replay whose query does not fail, and that runs while the
-- tables hold the message as Send left it, not acknowledged and not purged, whatever else they
-- hold, puts the message into that client's queue, if the queue has room for all that is missed.
pub sent_is_replayed :
    (v v' : Env) (i : SendInput) (w w' x : World) (id : Text) (h : Hub) (r : ℕ)
    → send_message v i w ≡ (done id, w')
    → find_row (is_from i.sender_device_id i.client_id) x.tables.messages
      ≡ find_row (is_from i.sender_device_id i.client_id) w'.tables.messages
    → exists_row (is_from i.sender_device_id i.client_id) w.tables.messages ≡ false
    → v'.now < v.now + 7 * day
    → IsValid h
    → lookup_client i.recipient_device_id h.clients ≡ some r
    → v'.fails 0 ≡ false
    → length (h.heap r).queue
        + length (select_rows (is_missed v'.now i.recipient_device_id) x.tables.messages)
      ≤ send_capacity
    → (h' : Hub) × (backfill_missed v' i.recipient_device_id x.tables h ≡ some h')
      × Memᴰ (recv_event v' (sent_row v i) true) (h'.heap r).queue
sent_is_replayed v v' i w w' x id h r s same new soon ok e up room =
    let d = i.recipient_device_id in
    let row = sent_row v i in
    let a = send_message-Accepted v i w w' id s in
    let stored : w'.tables.messages ≡ w.tables.messages ++ row ∷ [] =
      ground (arith, a.stored, new) in
    let p = is_from i.sender_device_id i.client_id in
    let there : find_row p w'.tables.messages ≡ some row =
      ap (find_row p) stored
      ∙ find_row-append_none p w.tables.messages (row ∷ [])
          (exists-find_row p w.tables.messages new)
      ∙ ground (arith, eq_text_refl i.sender_device_id, eq_text_refl i.client_id) in
    let wanted : is_missed v'.now d row ≡ true = ground (arith, eq_text_refl d, soon) in
    let selected : Memᴰ row (select_rows (is_missed v'.now d) x.tables.messages) =
      Memᴰ-select (is_missed v'.now d) x.tables.messages row wanted
        (find_row-Memᴰ p x.tables.messages row (same ∙ there)) in
    let within : length (select_rows (is_missed v'.now d) x.tables.messages) ≤ send_capacity =
      omega (arith, room) in
    let all = missed_all v'.now d x.tables.messages (omega (arith, within)) in
    let short : length (map (λ m. recv_event v' m true) (missed v'.now d x.tables.messages))
        ≡ length (select_rows (is_missed v'.now d) x.tables.messages) =
      length-map (λ m. recv_event v' m true) (missed v'.now d x.tables.messages)
      ∙ ap (λ (ms : List Message). length ms) all
      ∙ length-order older (select_rows (is_missed v'.now d) x.tables.messages) in
    let self : (r == r) ≡ true = ground arith in
    let member : Memᴰ row (missed v'.now d x.tables.messages) =
      rw all (Memᴰ-order older row (select_rows (is_missed v'.now d) x.tables.messages) selected) in
    let (h', done_with, queues, same_clients, same_next) =
      backfill_missed_lem v' d r x.tables h ok e up in
    (
      h',
      done_with,
      rw (queues r, self)
          (fits (map (λ m. recv_event v' m true) (missed v'.now d x.tables.messages)) (h.heap r)
            (recv_event v' row true) (omega (arith, room, short))
            (Memᴰ.map (λ m. recv_event v' m true) member)),
    )

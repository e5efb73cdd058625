-- ===== src/Api/Router/Socket.antt =====
-- The events of a socket (handleEvent of backend/internal/api/ws_handler.go), kept by a predicate that
-- survives the statements.
use kalki_chat.Base.{
  ℕ, suc, ◌≡◌, subst, List, [], ◌∷◌, Text, lit, eq_text, ◌⊎◌, Option-cases, Bool-cases, inl, inr,
  find_row, arith,
}
use kalki_chat.Env.{Env}
use kalki_chat.Db.{Tables, World, Keeps, Keeps-exec}
use kalki_chat.Messages.{SendError, mark_delivered, mark_read}
use kalki_chat.Api.Session.{is_conversation_of}
use kalki_chat.Api.Chat.{
  send_input, Peer, ClientEvent, handle_send, handle_send_data, handle_ack, handle_read, read_all,
  handle_typing, handle_event,
}
use kalki_chat.Api.Router.Stable.{Stable}
use kalki_chat.Api.Router.Statements.{send_message-Keeps}

-- Which handler the tables come from.
event-cases :
    (v : Env) (p : Peer) (ev : ClientEvent) (w : World)
    → let after = (handle_event v p ev w).1.tables in
      ((handle_send v p ev w).1.tables ≡ after)
      ⊎ (((handle_ack v p ev w).1.tables ≡ after)
          ⊎ (((handle_read v p ev w).1.tables ≡ after)
              ⊎ (((handle_typing v p ev w).1.tables ≡ after) ⊎ (w.tables ≡ after))))
unfolding handle_event
event-cases v p ev w = elim (Bool-cases (eq_text ev.type (lit "message.send"))) [
  | inl a ↦ inl (ground (arith, a))
  | inr a ↦ elim (Bool-cases (eq_text ev.type (lit "message.ack"))) [
    | inl b ↦ inr (inl (ground (arith, a, b)))
    | inr b ↦ elim (Bool-cases (eq_text ev.type (lit "message.read"))) [
      | inl c ↦ inr (inr (inl (ground (arith, a, b, c))))
      | inr c ↦ elim (Bool-cases (eq_text ev.type (lit "typing"))) [
        | inl d ↦ inr (inr (inr (inl (ground (arith, a, b, c, d)))))
        | inr d ↦ inr (inr (inr (inr (ground (arith, a, b, c, d)))))
      ]
    ]
  ]
]

module _ {I : Tables → Type 0} (s : Stable I) where
  mark_delivered-Keeps : (v : Env) (id d : Text) → Keeps I (mark_delivered v id d)
  unfolding mark_delivered
  mark_delivered-Keeps v id d = Keeps-exec v 0 SendError.db _ (s.delivered v.now id d)

  mark_read-Keeps : (v : Env) (n : ℕ) (id d : Text) → Keeps I (mark_read v n id d)
  unfolding mark_read
  mark_read-Keeps v n id d = Keeps-exec v n SendError.db _ (s.read v.now id d)

  read_all-kept :
      (v : Env) (n : ℕ) (d : Text) (ids : List Text) (w : World)
      → I w.tables
      → I (read_all v n d ids w).tables
  unfolding read_all
  read_all-kept v n d [] w i = i
  read_all-kept v n d (id ∷ ids) w i =
      read_all-kept v (suc n) d ids (mark_read v n id d w).1 ((mark_read-Keeps v n id d).at w i)

  send-kept :
      (v : Env) (p : Peer) (ev : ClientEvent) (w : World)
      → I w.tables
      → I (handle_send v p ev w).1.tables
  unfolding handle_send handle_send_data
  send-kept v p ev w i = elim (Option-cases ev.send_data) [
    | inl z ↦ subst I (ground (arith, z)) i
    | inr (r, z) ↦ elim (Bool-cases (v.fails 0)) [
      | inl b ↦ subst I (ground (arith, z, b)) i
      | inr b ↦
          elim (Option-cases (find_row (is_conversation_of p.owner_id) w.tables.conversations)) [
            | inl y ↦ subst I (ground (arith, z, b, y)) i
            | inr (c, y) ↦
                let k =
                  (send_message-Keeps s v (
                      send_input p.device_id c.id r (v.base64_prefix r.envelope)
                        (v.base64_prefix r.signature))).at
                    w i in
                subst I (ground (arith, z, b, y)) k
          ]
    ]
  ]

  ack-kept :
      (v : Env) (p : Peer) (ev : ClientEvent) (w : World)
      → I w.tables
      → I (handle_ack v p ev w).1.tables
  unfolding handle_ack
  ack-kept v p ev w i = elim (Option-cases ev.ack_data) [
    | inl z ↦ subst I (ground (arith, z)) i
    | inr (id, z) ↦ subst I (ground (arith, z)) ((mark_delivered-Keeps v id p.device_id).at w i)
  ]

  read-kept :
      (v : Env) (p : Peer) (ev : ClientEvent) (w : World)
      → I w.tables
      → I (handle_read v p ev w).1.tables
  unfolding handle_read
  read-kept v p ev w i = elim (Option-cases ev.read_data) [
    | inl z ↦ subst I (ground (arith, z)) i
    | inr (ids, z) ↦ subst I (ground (arith, z)) (read_all-kept v 0 p.device_id ids w i)
  ]

  typing-kept :
      (v : Env) (p : Peer) (ev : ClientEvent) (w : World)
      → I w.tables
      → I (handle_typing v p ev w).1.tables
  unfolding handle_typing
  typing-kept v p ev w i = subst I (ground arith) i

  pub handle_event-kept :
      (v : Env) (p : Peer) (ev : ClientEvent) (w : World)
      → I w.tables
      → I (handle_event v p ev w).1.tables
  unfolding handle_event
  handle_event-kept v p ev w i = elim (event-cases v p ev w) [
    | inl h ↦ subst I h (send-kept v p ev w i)
    | inr (inl h) ↦ subst I h (ack-kept v p ev w i)
    | inr (inr (inl h)) ↦ subst I h (read-kept v p ev w i)
    | inr (inr (inr (inl h))) ↦ subst I h (typing-kept v p ev w i)
    | inr (inr (inr (inr h))) ↦ subst I h i
  ]

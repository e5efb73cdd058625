-- ===== src/Api/Router/MessageTables.antt =====
-- Predicates on one table, and the few statements that they have to survive (backend/internal/api).
use kalki_chat.Base.{
  ℕ, ◌≡◌, subst, false, Option, some, List, [], ◌∷◌, ◌++◌, Text, arith, update_rows, exists_row,
  Bool-cases, inl, inr, ◌⊎◌,
}
use kalki_chat.Env.{Env}
use kalki_chat.Db.{Tables, Message, QueueRow, has_message}
use kalki_chat.Messages.{
  insert_message, has_references, new_message, is_from, set_delivered, set_read, is_undelivered,
  is_unread,
}
use kalki_chat.Api.AdminSync.{is_pending_row, set_failed, set_sent, new_row}
use kalki_chat.Api.Router.Stable.{Stable}

-- What an insert of a message leaves.
insert_message-cases :
    (m : Message) (t t' : Tables)
    → insert_message m t ≡ some t'
    → (t.messages ≡ t'.messages)
      ⊎ ((exists_row (is_from m.sender_device_id m.client_id) t.messages ≡ false)
          × (t.messages ++ m ∷ [] ≡ t'.messages))
insert_message-cases m t t' h =
    elim (Bool-cases (exists_row (is_from m.sender_device_id m.client_id) t.messages)) [
      | inl a ↦ inl (ground (arith, h, a))
      | inr a ↦ elim (Bool-cases (has_message m.id t)) [
        | inl b ↦ inl (ground (arith, h, a, b))
        | inr b ↦ elim (Bool-cases (has_references m t)) [
          | inl c ↦ inr (a, ground (arith, h, a, b, c))
          | inr c ↦ inr (a, ground (arith, h, a, b, c))
        ]
      ]
    ]

-- A message that was sent before changes nothing.
module _ (P : List Message → Type 0)
    (added : (m : Message) (ms : List Message)
      → exists_row (is_from m.sender_device_id m.client_id) ms ≡ false
      → P ms
      → P (ms ++ m ∷ [])) where
  message_inserted :
      (m : Message) (t t' : Tables) → insert_message m t ≡ some t' → P t.messages → P t'.messages
  message_inserted m t t' h j = elim (insert_message-cases m t t' h) [
    | inl e ↦ subst P e j
    | inr (a, e) ↦ subst P e (added m t.messages a j)
  ]

-- A predicate on messages.
module _ (P : List Message → Type 0) where
  pub messages-Stable :
      (delivered : (n : ℕ) (id d : Text) (ms : List Message)
        → P ms
        → P (update_rows (is_undelivered id d) (set_delivered n) ms))
      → (read : (n : ℕ) (id d : Text) (ms : List Message)
          → P ms
          → P (update_rows (is_unread id d) (set_read n) ms))
      → (added : (m : Message) (ms : List Message)
          → exists_row (is_from m.sender_device_id m.client_id) ms ≡ false
          → P ms
          → P (ms ++ m ∷ []))
      → Stable (λ t. P t.messages)
  messages-Stable delivered read added = record {
    status = λ id st t t' h j. subst P (ground (arith, h)) j;
    password = λ id hash t t' h j. subst P (ground (arith, h)) j;
    login_time = λ n id t t' h j. subst P (ground (arith, h)) j;
    admin_time = λ n id t t' h j. subst P (ground (arith, h)) j;
    seen = λ n id t t' h j. subst P (ground (arith, h)) j;
    device_revoked = λ n id t t' h j. subst P (ground (arith, h)) j;
    devices_revoked = λ v id t t' h j. subst P (ground (arith, h)) j;
    tokens_revoked = λ p n t t' h j. subst P (ground (arith, h)) j;
    token_used = λ n id t t' h j. subst P (ground (arith, h)) j;
    prekey_consumed = λ n id t t' h j. subst P (ground (arith, h)) j;
    row_failed = λ id e t t' h j. subst P (ground (arith, h)) j;
    delivered = λ n id d t t' h j. subst P (ground (arith, h)) (delivered n id d t.messages j);
    read = λ n id d t t' h j. subst P (ground (arith, h)) (read n id d t.messages j);
    audit = λ x t t' h j. subst P (ground (arith, h)) j;
    failure = λ f t t' h j. subst P (ground (arith, h)) j;
    new_user = λ v login hash t t' h j. subst P (ground (arith, h)) j;
    new_device = λ v id kind owner r ed x t t' h j. subst P (ground (arith, h)) j;
    new_conversation = λ c t t' h j. subst P (ground (arith, h)) j;
    new_token = λ v id device family raw ttl t t' h j. subst P (ground (arith, h)) j;
    new_message = λ v id i t t' h j. message_inserted P added (new_message v id i) t t' h j;
    new_blob = λ b t t' h j. subst P (ground (arith, h)) j;
    new_key = λ k t t' h j. subst P (ground (arith, h)) j;
    new_signed = λ k t t' h j. subst P (ground (arith, h)) j;
    new_prekey = λ d n pubkey t t' h j. subst P (ground (arith, h)) j;
    new_mirror = λ v id conversation direction body t t' h j. subst P (ground (arith, h)) j;
    new_reply = λ v id body t t' h j. subst P (ground (arith, h)) j;
    new_queued = λ v user admin body t t' h j. subst P (ground (arith, h)) j;
    settled = λ v id server_id t t' h j. subst P (ground (arith, h)) j;
    whatsapp = λ c admin t t' h j. subst P (ground (arith, h)) j;
  }

-- A predicate on admin_outbound_queue.
module _ (P : List QueueRow → Type 0) where
  pub queue-Stable :
      (failed : (id e : Text) (qs : List QueueRow)
        → P qs
        → P (update_rows (is_pending_row id) (set_failed e) qs))
      → (sent : (n : ℕ) (id : Text) (m : Option Text) (qs : List QueueRow)
          → P qs
          → P (update_rows (is_pending_row id) (set_sent n m) qs))
      → (added : (v : Env) (user admin body : Text) (qs : List QueueRow)
          → P qs
          → P (qs ++ new_row v user admin body ∷ []))
      → Stable (λ t. P t.admin_outbound_queue)
  queue-Stable failed sent added = record {
    status = λ id st t t' h j. subst P (ground (arith, h)) j;
    password = λ id hash t t' h j. subst P (ground (arith, h)) j;
    login_time = λ n id t t' h j. subst P (ground (arith, h)) j;
    admin_time = λ n id t t' h j. subst P (ground (arith, h)) j;
    seen = λ n id t t' h j. subst P (ground (arith, h)) j;
    device_revoked = λ n id t t' h j. subst P (ground (arith, h)) j;
    devices_revoked = λ v id t t' h j. subst P (ground (arith, h)) j;
    tokens_revoked = λ p n t t' h j. subst P (ground (arith, h)) j;
    token_used = λ n id t t' h j. subst P (ground (arith, h)) j;
    prekey_consumed = λ n id t t' h j. subst P (ground (arith, h)) j;
    row_failed =
        λ id e t t' h j. subst P (ground (arith, h)) (failed id e t.admin_outbound_queue j);
    delivered = λ n id d t t' h j. subst P (ground (arith, h)) j;
    read = λ n id d t t' h j. subst P (ground (arith, h)) j;
    audit = λ x t t' h j. subst P (ground (arith, h)) j;
    failure = λ f t t' h j. subst P (ground (arith, h)) j;
    new_user = λ v login hash t t' h j. subst P (ground (arith, h)) j;
    new_device = λ v id kind owner r ed x t t' h j. subst P (ground (arith, h)) j;
    new_conversation = λ c t t' h j. subst P (ground (arith, h)) j;
    new_token = λ v id device family raw ttl t t' h j. subst P (ground (arith, h)) j;
    new_message = λ v id i t t' h j. subst P (ground (arith, h)) j;
    new_blob = λ b t t' h j. subst P (ground (arith, h)) j;
    new_key = λ k t t' h j. subst P (ground (arith, h)) j;
    new_signed = λ k t t' h j. subst P (ground (arith, h)) j;
    new_prekey = λ d n pubkey t t' h j. subst P (ground (arith, h)) j;
    new_mirror = λ v id conversation direction body t t' h j. subst P (ground (arith, h)) j;
    new_reply = λ v id body t t' h j. subst P (ground (arith, h)) j;
    new_queued = λ v user admin body t t' h j.
        subst P (ground (arith, h)) (added v user admin body t.admin_outbound_queue j);
    settled = λ v id server_id t t' h j.
        subst P (ground (arith, h)) (sent v.now id server_id t.admin_outbound_queue j);
    whatsapp = λ c admin t t' h j. subst P (ground (arith, h)) j;
  }

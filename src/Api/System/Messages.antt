-- ===== src/Api/System/Messages.antt =====
-- A stored message keeps its content (messages.go and ws_handler.go write to `messages`).
use kalki_chat.Base.{
  if◌then◌else◌, ℕ, ◌≡◌, refl, subst, Bool, some, List, [], ◌∷◌, Text, arith, update_rows, find_row,
  find_row-append_some, Bool-cases, inl, inr, eq_text,
}
use kalki_chat.Db.{World, Tables, Message}
use kalki_chat.Crypto.Jwt.{Signer, Json}
use kalki_chat.Messages.{is_undelivered, is_unread, set_delivered, set_read}
use kalki_chat.Api.AdminSync.{is_message}
use kalki_chat.Api.Router.Stable.{Stable}
use kalki_chat.Api.Router.MessageTables.{messages-Stable}
use kalki_chat.Api.System.{Step, Many, many-keeps, step-keeps}

-- All but the two times is as it was, and a time that was set is as it was too.
pub record IsSame (m n : Message) : Type 0 where
  pub content : n ≡ record m { delivered_at = n.delivered_at; read_at = n.read_at }
  pub delivered : (t : ℕ) → m.delivered_at ≡ some t → n.delivered_at ≡ some t
  pub read : (t : ℕ) → m.read_at ≡ some t → n.read_at ≡ some t

pub record IsStoredIn (id : Text) (m : Message) (ms : List Message) : Type 0 where
  pub row : Message
  pub found : find_row (is_message id) ms ≡ some row
  pub same : IsSame m row

abbrev pub IsStored : Text → Message → Tables → Type 0
IsStored id m t = IsStoredIn id m t.messages

find-update :
    (id : Text) (p : Message → Bool) (f : Message → Message) (ms : List Message) (m : Message)
    → ((x : Message) → (f x).id ≡ x.id)
    → find_row (is_message id) ms ≡ some m
    → find_row (is_message id) (update_rows p f ms) ≡ some (if p m then f m else m)
find-update id p f [] m k h = ground arith
find-update id p f (x ∷ ms) m k h = elim (Bool-cases (eq_text x.id id)) [
  | inl a ↦ elim (Bool-cases (p x)) [
    | inl b ↦ ground (arith, a, b, k x)
    | inr b ↦ ground (arith, a, b)
  ]
  | inr a ↦ elim (Bool-cases (p x)) [
    | inl b ↦ ground (arith, a, b, k x, find-update id p f ms m k)
    | inr b ↦ ground (arith, a, b, find-update id p f ms m k)
  ]
]

-- The two updates, each under its condition.
delivered-IsSame :
    (m x : Message) (n : ℕ) (id d : Text)
    → IsSame m x
    → IsSame m (if is_undelivered id d x then set_delivered n x else x)
delivered-IsSame m x n id d s = elim (Bool-cases (is_undelivered id d x)) [
  | inl b ↦
      let now : IsSame m (set_delivered n x) = record {
        content = ground (arith, s.content);
        delivered = λ t h. ground (arith, b, s.delivered t h);
        read = s.read;
      } in
      subst (IsSame m) (ground (arith, b)) now
  | inr b ↦ subst (IsSame m) (ground (arith, b)) s
]

read-IsSame :
    (m x : Message) (n : ℕ) (id d : Text)
    → IsSame m x
    → IsSame m (if is_unread id d x then set_read n x else x)
read-IsSame m x n id d s = elim (Bool-cases (is_unread id d x)) [
  | inl b ↦
      let now : IsSame m (set_read n x) = record {
        content = ground (arith, s.content);
        delivered = s.delivered;
        read = λ t h. ground (arith, b, s.read t h);
      } in
      subst (IsSame m) (ground (arith, b)) now
  | inr b ↦ subst (IsSame m) (ground (arith, b)) s
]

IsStored-Stable : (id : Text) (m : Message) → Stable (IsStored id m)
IsStored-Stable id m =
    messages-Stable (IsStoredIn id m)
      (λ n i d ms s. record {
        row = if is_undelivered i d s.row then set_delivered n s.row else s.row;
        found = find-update id (is_undelivered i d) (set_delivered n) ms s.row (λ x. refl) s.found;
        same = delivered-IsSame m s.row n i d s.same;
      })
      (λ n i d ms s. record {
        row = if is_unread i d s.row then set_read n s.row else s.row;
        found = find-update id (is_unread i d) (set_read n) ms s.row (λ x. refl) s.found;
        same = read-IsSame m s.row n i d s.same;
      })
      (λ x ms fresh s. record {
        row = s.row;
        found = find_row-append_some (is_message id) ms (x ∷ []) s.row s.found;
        same = s.same;
      })

-- A stored message is found under its identifier after any sequence of requests, events of
-- sockets and arrivals, with the same content, and with the times of delivery and reading that it
-- had, if any.
pub message_stays :
    (j : Json) (k : Signer) (w x : World) (id : Text) (m : Message)
    → find_row (is_message id) w.tables.messages ≡ some m
    → Many (Step j k) w x
    → (n : Message) × (find_row (is_message id) x.tables.messages ≡ some n) × IsSame m n
message_stays j k w x id m h r =
    let first : IsStored id m w.tables = record {
      row = m;
      found = h;
      same = record { content = refl; delivered = λ t e. e; read = λ t e. e };
    } in
    let s =
      many-keeps (Step j k) (λ w. IsStored id m w.tables)
        (step-keeps (IsStored id m) j k (IsStored-Stable id m)) w x r first in
    (s.row, s.found, s.same)

-- ===== src/Api/AdminViews.antt =====
-- What admins read: backend/internal/api/admin.go, admin_conversations.go and, for users too,
-- admin_devices_active.go.
use kalki_chat.Base.{
  ℕ, ◌+◌, ◌*◌, Bool, true, ◌&&◌, ◌||◌, Option, none, some, List, [], ◌∷◌, ◌++◌, map, leb, ltb,
  if◌then◌else◌, is_none, is_empty, length, take, Text, lit, eq_text, find_row, exists_row,
  select_rows, order_rows, count_rows,
}
use kalki_chat.Env.{Env, hour, day}
use kalki_chat.Db.{
  Tables, User, Device, Conversation, Message, PlainText, QueueRow, AuditLog, done, pure, ◌>>=◌,
  need, query,
}
use kalki_chat.Crypto.Jwt.{Claims}
use kalki_chat.Api.Http.{H, http, db_500, user_unknown, no_conversation, no_admin_device}
use kalki_chat.Api.Session.{is_conversation_of}
use kalki_chat.Api.Password.{is_user}
use kalki_chat.Api.Chat.{is_of}
use kalki_chat.Api.AdminSync.{is_device_of, is_mirror_of, is_pending}
use kalki_chat.Api.AdminUsers.{is_owned_by}

-- `$1 = '' OR LOWER(login) LIKE LOWER('%' || $1 || '%')`
abbrev pub is_match : Env → Text → User → Bool
is_match v q u = is_empty q || v.like (v.to_lower u.login) (v.to_lower (lit "%" ++ (q ++ lit "%")))

-- `adminListUsers`
unfoldable pub admin_list_users : Env → Text → H (List User)
admin_list_users v q = query v 0 db_500 (λ t. take 100 (
    order_rows (λ (a b : User). leb b.created_at a.created_at)
      (select_rows (is_match v q) t.users)))

-- `adminGetUser`: the user, and the user's devices.
unfoldable pub admin_get_user : Env → Text → H (User × List Device)
admin_get_user v id = do
  found ← query v 0 db_500 (λ t. find_row (is_user id) t.users)
  u ← need found (http 404 user_unknown)
  ds ← query v 1 db_500 (λ t.
      order_rows (λ (a b : Device). leb b.created_at a.created_at)
        (select_rows (is_owned_by id) t.devices))
  pure (u, ds)

abbrev pub is_live_admin : Text → Device → Bool
is_live_admin admin d = is_device_of admin d && is_none d.revoked_at

-- `ORDER BY last_seen_at DESC`
abbrev pub seen_later : Device → Device → Bool
seen_later a b = leb b.last_seen_at a.last_seen_at

abbrev pub admin_of : Claims → Text
admin_of c = if is_empty c.owner_id then c.sub else c.owner_id

-- A message of the conversation, with what the mirror has of it (LEFT JOIN admin_plaintext).
abbrev pub with_plaintext : Tables → Message → Message × Option PlainText
with_plaintext t m = (m, find_row (is_mirror_of m.id) t.admin_plaintext)

abbrev pub is_shown : ℕ → Text → QueueRow → Bool
is_shown now user q =
    eq_text q.user_id user && (is_pending q.status || ltb now (q.created_at + 24 * hour))

pub record Thread : Type 0 where
  pub conversation_id : Text
  pub messages : List (Message × Option PlainText)
  pub outbound_queue : List QueueRow

-- Call 3, whose error leaves the queue out.
abbrev pub shown_queue : Env → Text → H (List QueueRow)
shown_queue v user w = (
  done (
      if v.fails 3
      then []
      else take 50 (
          order_rows (λ (a b : QueueRow). leb a.created_at b.created_at)
            (select_rows (is_shown v.now user) w.tables.admin_outbound_queue))),
  w,
)

-- `adminGetConversation`: calls 0 to 3.
unfoldable pub admin_get_conversation : Env → Claims → Text → H Thread
admin_get_conversation v c user = do
  found ←
      query v 0 (http 404 no_conversation) (λ t. find_row (is_conversation_of user) t.conversations)
  conversation ← need found (http 404 no_conversation)
  first ← query v 1 (http 424 no_admin_device) (λ t.
      find_row (λ d. true)
        (order_rows seen_later (select_rows (is_live_admin (admin_of c)) t.devices)))
  d ← need first (http 424 no_admin_device)
  rows ← query v 2 db_500 (λ t. map (with_plaintext t) (
      take 500 (
        order_rows (λ (a b : Message). leb a.created_at b.created_at)
          (select_rows (is_of conversation.id d.id) t.messages))))
  queue ← shown_queue v user
  pure (record { conversation_id = conversation.id; messages = rows; outbound_queue = queue })

-- `adminListDevices`: with each device, whether it has a row in active_sessions.
unfoldable pub admin_list_devices : Env → H (List (Device × Bool))
admin_list_devices v = query v 0 db_500 (λ t.
    map (λ (d : Device). (d, exists_row (λ s. eq_text s d.id) t.active_sessions))
      (take 200 (order_rows seen_later t.devices)))

-- `adminDevicesActive`
unfoldable pub admin_devices_active : Env → H (List Device)
admin_devices_active v = query v 0 db_500 (λ t. take 50 (
    order_rows seen_later (
      select_rows (λ (d : Device). eq_text d.owner_kind (lit "admin") && is_none d.revoked_at)
        t.devices)))

abbrev pub reversed : List AuditLog → List AuditLog
reversed [] = []
reversed (e ∷ es) = reversed es ++ e ∷ []

-- `adminAuditList`: the latest 200; the identifiers ascend in the order of the table.
unfoldable pub admin_audit_list : Env → H (List AuditLog)
admin_audit_list v = query v 0 db_500 (λ t. take 200 (reversed t.audit_logs))

-- An error of a count leaves it 0.
abbrev pub count_or_0 : Env → ℕ → ℕ → ℕ
count_or_0 v n k = if v.fails n then 0 else k

pub record Analytics : Type 0 where
  pub users_total : ℕ
  pub users_active : ℕ
  pub messages_24h : ℕ
  pub messages_7d : ℕ

-- `adminAnalytics`: calls 0 to 3.
unfoldable pub admin_analytics : Env → H Analytics
admin_analytics v w =
    let t = w.tables in
    (
      done (record {
        users_total = count_or_0 v 0 (length t.users);
        users_active =
            count_or_0 v 1 (count_rows (λ (u : User). eq_text u.status (lit "active")) t.users);
        messages_24h =
            count_or_0 v 2
              (count_rows (λ (m : Message). ltb v.now (m.created_at + 24 * hour)) t.messages);
        messages_7d =
            count_or_0 v 3
              (count_rows (λ (m : Message). ltb v.now (m.created_at + 7 * day)) t.messages);
      }),
      w,
    )

-- A row of the list of conversations.
pub record Summary : Type 0 where
  pub user : User
  pub conversation_id : Text
  pub last_message_at : Option ℕ
  pub message_count : ℕ
  pub preview_size : ℕ

-- The latest message first.
abbrev pub newest : Text → List Message → List Message
newest conversation ms =
    order_rows (λ (a b : Message). leb b.created_at a.created_at)
      (select_rows (λ m. eq_text m.conversation_id conversation) ms)

abbrev pub last_at : List Message → Option ℕ
last_at [] = none
last_at (m ∷ ms) = some m.created_at

abbrev pub last_size : List Message → ℕ
last_size [] = 0
last_size (m ∷ ms) = length m.envelope

abbrev pub summary : Tables → User → Conversation → Summary
summary t u c = record {
  user = u;
  conversation_id = c.id;
  last_message_at = last_at (newest c.id t.messages);
  message_count = length (newest c.id t.messages);
  preview_size = last_size (newest c.id t.messages);
}

-- `users u JOIN conversations c ON c.user_id = u.id`
abbrev pub summaries : Tables → List User → List Summary
summaries t [] = []
summaries t (u ∷ us) =
    map (summary t u) (select_rows (is_conversation_of u.id) t.conversations) ++ summaries t us

-- `COALESCE(m.last_at, u.created_at)`
abbrev pub active_at : Summary → ℕ
active_at s = elim (s.last_message_at) [ none ↦ s.user.created_at | some t ↦ t ]

-- `adminListConversations`
unfoldable pub admin_list_conversations : Env → Text → H (List Summary)
admin_list_conversations v q = query v 0 db_500 (λ t. take 200 (
    order_rows (λ a b. leb (active_at b) (active_at a))
      (summaries t (select_rows (is_match v q) t.users))))

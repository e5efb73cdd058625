-- ===== src/Retention.antt =====
-- backend/internal/retention/worker.go: what is old is deleted, and media is made unreadable first.
use kalki_chat.Base.{
  ℕ, ◌+◌, ◌*◌, Bool, true, false, not, ◌&&◌, ◌||◌, Option, none, some, List, [], ◌∷◌, map, ltb,
  if◌then◌else◌, length, take, Text, eq_text, exists_row, select_rows, delete_rows, update_rows,
  ◌==◌,
}
use kalki_chat.Env.{Env, second, hour, day}
use kalki_chat.Db.{
  Tables, Message, MediaBlob, MediaKey, OneTimePrekey, RefreshToken, LoginFailure, PlainText,
  QueueRow, QueueStatus, pending, sent, failed,
}
pub mod Erasure
pub mod Keeps
pub mod Lease

-- `Config`, in nanoseconds.
pub record Config : Type 0 where
  pub message_ttl : ℕ
  pub media_ttl : ℕ
  pub sweep : ℕ

-- `NewWorker`: a sweep of zero means a minute.
abbrev pub new_worker : Config → Config
new_worker c = if c.sweep == 0 then record c { sweep = 60 * second } else c

-- What the worker works on: the database, and the keys of the objects in the store.
pub record Stores : Type 0 where
  pub tables : Tables
  pub objects : List Text

-- `t < NOW() - INTERVAL`
abbrev pub is_before : ℕ → ℕ → ℕ → Bool
is_before now ttl t = ltb (t + ttl) now

abbrev pub is_named : Text → Message → Bool
is_named id m = eq_text m.id id

abbrev pub is_of_any : List Message → PlainText → Bool
is_of_any ms p = exists_row (is_named p.message_id) ms

abbrev pub links_any : List Message → QueueRow → Bool
links_any ms q = elim (q.server_message_id) [ none ↦ false | some id ↦ exists_row (is_named id) ms ]

abbrev pub forget_message : QueueRow → QueueRow
forget_message q = record q { server_message_id = none }

-- `DELETE FROM messages`: the plaintext goes with it (CASCADE), and the queue loses its link to it
-- (SET NULL).
unfoldable pub drop_messages : (Message → Bool) → Tables → Tables
drop_messages p t =
    let gone : List Message = select_rows p t.messages in
    record t {
      messages = delete_rows p t.messages;
      admin_plaintext = delete_rows (is_of_any gone) t.admin_plaintext;
      admin_outbound_queue = update_rows (links_any gone) forget_message t.admin_outbound_queue;
    }

abbrev pub is_expired : Env → Config → Message → Bool
is_expired v c m = is_before v.now c.message_ttl m.created_at

-- `purgeMessages`: call 0.
unfoldable pub purge_messages : Env → Config → Stores → Stores
unfolding drop_messages
purge_messages v c s =
    if v.fails 0 then s else record s { tables = drop_messages (is_expired v c) s.tables }

abbrev pub is_key_of : Text → MediaKey → Bool
is_key_of id k = eq_text k.media_id id

abbrev pub drop_keys : Text → Tables → Tables
drop_keys id t = record t { media_keys = delete_rows (is_key_of id) t.media_keys }

abbrev pub unlink : Message → Message
unlink m = record m { media_id = none }

abbrev pub has_media : Text → Message → Bool
has_media id m = elim (m.media_id) [ none ↦ false | some i ↦ eq_text i id ]

-- `DELETE FROM media_blobs`: its keys go with it (CASCADE), and messages lose it (SET NULL).
abbrev pub drop_blob : Text → Tables → Tables
drop_blob id t = record t {
  media_blobs = delete_rows (λ (b : MediaBlob). eq_text b.id id) t.media_blobs;
  media_keys = delete_rows (is_key_of id) t.media_keys;
  messages = update_rows (has_media id) unlink t.messages;
}

-- `store.Delete`, whose error is only logged.
abbrev pub drop_object : Env → Text → List Text → List Text
drop_object v key os = if v.delete_fails key then os else delete_rows (λ o. eq_text o key) os

-- Steps 2 and 3 for one blob, whose keys are dropped by now.
abbrev pub erase_rest : Env → ℕ → MediaBlob → Stores → Stores
erase_rest v n b s =
    let s' : Stores = record s { objects = drop_object v b.s3_key s.objects } in
    if v.fails n then s' else record s' { tables = drop_blob b.id s'.tables }

-- The loop's body: where step 1 fails the blob is left for the next sweep.
unfoldable pub erase_blob : Env → ℕ → MediaBlob → Stores → Stores
erase_blob v n b s =
    if v.fails n then s else erase_rest v (n + 1) b (record s { tables = drop_keys b.id s.tables })

-- The loop over the batch, from call n on.
unfoldable pub erase_blobs : Env → ℕ → List MediaBlob → Stores → Stores
erase_blobs v n [] s = s
erase_blobs v n (b ∷ bs) s = erase_blobs v (n + 2) bs (erase_blob v n b s)

-- The batch: at most 500.
unfoldable pub expired_media : Env → Config → Tables → List MediaBlob
expired_media v c t =
    take 500 (select_rows (λ b. is_before v.now c.media_ttl b.created_at) t.media_blobs)

-- `purgeMedia`: call 6 is the query, and those of the loop are from 7 on.
unfoldable pub purge_media : Env → Config → Stores → Stores
unfolding erase_blobs expired_media
purge_media v c s = if v.fails 6 then s else erase_blobs v 7 (expired_media v c s.tables) s

abbrev pub is_before_some : ℕ → ℕ → Option ℕ → Bool
is_before_some now ttl none = false
is_before_some now ttl (some t) = is_before now ttl t

-- `purgePrekeys`: call 1.
unfoldable pub purge_prekeys : Env → Stores → Stores
purge_prekeys v s = if v.fails 1 then s else record s {
  tables = record (s.tables) {
    one_time_prekeys =
        delete_rows (λ (k : OneTimePrekey). is_before_some v.now (7 * day) k.consumed_at)
          s.tables.one_time_prekeys;
  };
}

abbrev pub is_stale_token : ℕ → RefreshToken → Bool
is_stale_token now r =
    is_before_some now (30 * day) r.revoked_at || is_before now (7 * day) r.expires_at

abbrev pub purge_tokens : Env → Stores → Stores
purge_tokens v s = if v.fails 2 then s else record s {
  tables = record (s.tables) {
    refresh_tokens = delete_rows (is_stale_token v.now) s.tables.refresh_tokens;
  };
}

abbrev pub purge_failures : Env → Stores → Stores
purge_failures v s = if v.fails 3 then s else record s {
  tables = record (s.tables) {
    login_failures =
        delete_rows (λ (f : LoginFailure). is_before v.now (24 * hour) f.attempted_at)
          s.tables.login_failures;
  };
}

-- `purgeAuth`: calls 2 and 3.
unfoldable pub purge_auth : Env → Stores → Stores
purge_auth v s = purge_failures v (purge_tokens v s)

abbrev pub is_terminal : QueueStatus → Bool
is_terminal pending = false
is_terminal sent = true
is_terminal failed = true

-- `COALESCE(sent_at, created_at)`
abbrev pub coalesce : Option ℕ → ℕ → ℕ
coalesce none d = d
coalesce (some t) d = t

abbrev pub is_reaped : ℕ → QueueRow → Bool
is_reaped now q =
    is_terminal q.status && is_before now (24 * hour) (coalesce q.sent_at q.created_at)

abbrev pub purge_plaintext : Env → Stores → Stores
purge_plaintext v s = if v.fails 4 then s else record s {
  tables = record (s.tables) {
    admin_plaintext =
        delete_rows (λ (p : PlainText). is_before v.now (30 * day) p.decrypted_at)
          s.tables.admin_plaintext;
  };
}

abbrev pub purge_queue : Env → Stores → Stores
purge_queue v s = if v.fails 5 then s else record s {
  tables = record (s.tables) {
    admin_outbound_queue = delete_rows (is_reaped v.now) s.tables.admin_outbound_queue;
  };
}

-- `purgeAdminSync`: calls 4 and 5.
unfoldable pub purge_admin_sync : Env → Stores → Stores
purge_admin_sync v s = purge_queue v (purge_plaintext v s)

-- `sweepOnce`
unfoldable pub sweep_once : Env → Config → Stores → Stores
unfolding purge_messages purge_media purge_prekeys purge_auth purge_admin_sync
sweep_once v c s =
    purge_admin_sync v (purge_auth v (purge_prekeys v (purge_media v c (purge_messages v c s))))

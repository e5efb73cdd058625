-- ===== src/Retention/Keeps.antt =====
-- What a sweep of backend/internal/retention/worker.go leaves alone, whatever fails on the way.
use kalki_chat.Base.{
  ℕ, ◌+◌, ◌*◌, ◌≡◌, refl, Bool, true, false, not, ◌&&◌, List, [], ◌∷◌, arith, Text, leb, is_none,
  select_rows, delete_rows, map, update_rows, count_rows, inl, inr, Bool-cases, ◌∙◌,
}
use kalki_chat.Env.{Env, day}
use kalki_chat.Db.{MediaBlob, Message, OneTimePrekey, RefreshToken, QueueRow}
use kalki_chat.Retention.{
  Stores, Config, erase_blob, erase_blobs, purge_media, purge_messages, purge_prekeys, purge_auth,
  purge_admin_sync, sweep_once, expired_media, is_reaped, is_terminal, is_before, is_before_some,
  is_stale_token, has_media, unlink, links_any, forget_message, drop_messages, is_expired,
}

-- Rows that are not deleted are still there, in their order.
select-delete :
    {A : Type 0} (p q : A → Bool) (xs : List A)
    → ((x : A) → p x ≡ true → q x ≡ false)
    → select_rows p (delete_rows q xs) ≡ select_rows p xs
select-delete p q [] h = refl
select-delete p q (x ∷ xs) h = elim (Bool-cases (p x)) [
  | inl e ↦ ground (arith, e, h x e, select-delete p q xs h)
  | inr e ↦ ground (arith, e, select-delete p q xs h)
]

-- A reply that waits.
abbrev pub waits : QueueRow → Bool
waits q = not (is_terminal q.status)

-- A one-time key that was not handed out.
abbrev pub is_unused : OneTimePrekey → Bool
is_unused k = is_none k.consumed_at

-- A refresh token that can still be used.
abbrev pub is_current : ℕ → RefreshToken → Bool
is_current now r = is_none r.revoked_at && leb now r.expires_at

-- A message within its time.
abbrev pub is_young : ℕ → ℕ → Message → Bool
is_young now ttl m = leb now (m.created_at + ttl)

-- A queued reply but for its link to a stored message.
abbrev pub unlinked : List QueueRow → List QueueRow
unlinked qs = map forget_message qs

-- What a sweep keeps between two states.
pub record Kept (v : Env) (c : Config) (s s' : Stores) : Type 0 where
  pub queue :
      unlinked (select_rows waits s'.tables.admin_outbound_queue)
      ≡ unlinked (select_rows waits s.tables.admin_outbound_queue)
  pub prekeys :
      select_rows is_unused s'.tables.one_time_prekeys
      ≡ select_rows is_unused s.tables.one_time_prekeys
  pub tokens :
      select_rows (is_current v.now) s'.tables.refresh_tokens
      ≡ select_rows (is_current v.now) s.tables.refresh_tokens
  pub young :
      count_rows (is_young v.now c.message_ttl) s'.tables.messages
      ≡ count_rows (is_young v.now c.message_ttl) s.tables.messages

Kept-trans : (v : Env) (c : Config) (a b d : Stores) → Kept v c a b → Kept v c b d → Kept v c a d
Kept-trans v c a b d k l = record {
  queue = l.queue ∙ k.queue;
  prekeys = l.prekeys ∙ k.prekeys;
  tokens = l.tokens ∙ k.tokens;
  young = l.young ∙ k.young;
}

Kept-same : (v : Env) (c : Config) (a : Stores) → Kept v c a a
Kept-same v c a = record { queue = refl; prekeys = refl; tokens = refl; young = refl }

count-delete :
    (now ttl : ℕ) (ms : List Message)
    → count_rows
        (is_young now ttl)
        (delete_rows (λ (m : Message). is_before now ttl m.created_at) ms)
      ≡ count_rows (is_young now ttl) ms
count-delete now ttl [] = refl
count-delete now ttl (m ∷ ms) = ground (arith, count-delete now ttl ms)

count-unlink :
    (now ttl : ℕ) (id : Text) (ms : List Message)
    → count_rows (is_young now ttl) (update_rows (has_media id) unlink ms)
      ≡ count_rows (is_young now ttl) ms
count-unlink now ttl id [] = refl
count-unlink now ttl id (m ∷ ms) = ground (arith, count-unlink now ttl id ms)

select-forget :
    (ms : List Message) (qs : List QueueRow)
    → unlinked (select_rows waits (update_rows (links_any ms) forget_message qs))
      ≡ unlinked (select_rows waits qs)
select-forget ms [] = refl
select-forget ms (q ∷ qs) = ground (arith, select-forget ms qs)

messages-Kept : (v : Env) (c : Config) (s : Stores) → Kept v c s (purge_messages v c s)
unfolding purge_messages drop_messages
messages-Kept v c s = record {
  queue = ground (
    arith,
    select-forget (select_rows (is_expired v c) s.tables.messages) s.tables.admin_outbound_queue,
  );
  prekeys = ground arith;
  tokens = ground arith;
  young = ground (arith, count-delete v.now c.message_ttl s.tables.messages);
}

erase_blob-Kept :
    (v : Env) (c : Config) (n : ℕ) (b : MediaBlob) (s : Stores) → Kept v c s (erase_blob v n b s)
unfolding erase_blob
erase_blob-Kept v c n b s = record {
  queue = ground arith;
  prekeys = ground arith;
  tokens = ground arith;
  young = ground (arith, count-unlink v.now c.message_ttl b.id s.tables.messages);
}

erase_blobs-Kept :
    (v : Env) (c : Config) (n : ℕ) (bs : List MediaBlob) (s : Stores)
    → Kept v c s (erase_blobs v n bs s)
unfolding erase_blobs
erase_blobs-Kept v c n [] s = Kept-same v c s
erase_blobs-Kept v c n (b ∷ bs) s =
    let s' = erase_blob v n b s in
    Kept-trans v c s s' (erase_blobs v (n + 2) bs s') (erase_blob-Kept v c n b s)
      (erase_blobs-Kept v c (n + 2) bs s')

media-Kept : (v : Env) (c : Config) (s : Stores) → Kept v c s (purge_media v c s)
unfolding purge_media
media-Kept v c s =
    let k = erase_blobs-Kept v c 7 (expired_media v c s.tables) s in
    record {
      queue = ground (arith, k.queue);
      prekeys = ground (arith, k.prekeys);
      tokens = ground (arith, k.tokens);
      young = ground (arith, k.young);
    }

prekeys-Kept : (v : Env) (c : Config) (s : Stores) → Kept v c s (purge_prekeys v s)
unfolding purge_prekeys
prekeys-Kept v c s = record {
  queue = ground arith;
  prekeys = ground (
    arith,
    select-delete is_unused (λ k. is_before_some v.now (7 * day) k.consumed_at)
        s.tables.one_time_prekeys (λ k e. ground arith),
  );
  tokens = ground arith;
  young = ground arith;
}

not_stale : (now : ℕ) (r : RefreshToken) → is_current now r ≡ true → is_stale_token now r ≡ false
not_stale now r h = ground arith

auth-Kept : (v : Env) (c : Config) (s : Stores) → Kept v c s (purge_auth v s)
unfolding purge_auth
auth-Kept v c s = record {
  queue = ground arith;
  prekeys = ground arith;
  tokens = ground (
    arith,
    select-delete (is_current v.now) (is_stale_token v.now) s.tables.refresh_tokens
        (not_stale v.now),
  );
  young = ground arith;
}

not_reaped : (now : ℕ) (q : QueueRow) → waits q ≡ true → is_reaped now q ≡ false
not_reaped now q h = ground arith

sync-Kept : (v : Env) (c : Config) (s : Stores) → Kept v c s (purge_admin_sync v s)
unfolding purge_admin_sync
sync-Kept v c s = record {
  queue = ground (
    arith,
    select-delete waits (is_reaped v.now) s.tables.admin_outbound_queue (not_reaped v.now),
  );
  prekeys = ground arith;
  tokens = ground arith;
  young = ground arith;
}

-- A sweep, whatever calls fail, deletes no reply that waits and changes nothing in it but its
-- link to a stored message, and deletes no one-time prekey that was not handed out, no refresh
-- token that is unrevoked and in time, and no message within its time to live.
pub sweep_once-Kept : (v : Env) (c : Config) (s : Stores) → Kept v c s (sweep_once v c s)
unfolding sweep_once
sweep_once-Kept v c s =
    let a = purge_messages v c s in
    let b = purge_media v c a in
    let d = purge_prekeys v b in
    let e = purge_auth v d in
    Kept-trans v c s a (purge_admin_sync v e) (messages-Kept v c s) (
      Kept-trans v c a b (purge_admin_sync v e) (media-Kept v c a) (
        Kept-trans v c b d (purge_admin_sync v e) (prekeys-Kept v c b)
          (Kept-trans v c d e (purge_admin_sync v e) (auth-Kept v c d) (sync-Kept v c e))))

-- ===== src/Api/System/Replies.antt =====
-- The rows of admin_outbound_queue agree with their status (admin_sync.go and retention/worker.go write
-- to them).
use kalki_chat.Base.{
  ℕ, ◌+◌, ◌≡◌, ◌∙◌, refl, sym, subst, Bool, true, ◌&&◌, Option, List, [], ◌∷◌, ◌++◌, Text, arith,
  All, update_rows, delete_rows, select_rows, Bool-cases, inl, inr, is_none, is_some,
}
use kalki_chat.Env.{Env}
use kalki_chat.Db.{World, Tables, QueueRow, QueueStatus, pending, sent, failed, MediaBlob}
use kalki_chat.Crypto.Jwt.{Signer, Json}
use kalki_chat.Retention.{
  Config, Stores, expired_media, sweep_once, erase_blobs, erase_blob, purge_media, purge_messages,
  purge_prekeys, purge_auth, purge_admin_sync, is_reaped, links_any, forget_message, drop_messages,
  is_expired,
}
use kalki_chat.Api.AdminSync.{is_pending_row, set_failed, set_sent, new_row}
use kalki_chat.Api.Router.Stable.{Stable}
use kalki_chat.Api.Router.MessageTables.{queue-Stable}
use kalki_chat.Api.System.{Move, Many, many-keeps, move-keeps}

-- A reply that waits was not sent and did not fail; one that was sent has the time; one that failed
-- has the error, and was not sent.
abbrev pub agrees : QueueStatus → QueueRow → Bool
agrees pending q = is_none q.sent_at && (is_none q.server_message_id && is_none q.last_error)
agrees sent q = is_some q.sent_at && is_none q.last_error
agrees failed q = is_some q.last_error && (is_none q.sent_at && is_none q.server_message_id)

abbrev pub IsAgreed : Tables → Type 0
IsAgreed t = All (λ (q : QueueRow). agrees q.status q ≡ true) t.admin_outbound_queue

abbrev Agree : List QueueRow → Type 0
Agree qs = All (λ (q : QueueRow). agrees q.status q ≡ true) qs

failed-agrees :
    (id e : Text) (q : QueueRow)
    → is_pending_row id q ≡ true
    → agrees q.status q ≡ true
    → agrees (set_failed e q).status (set_failed e q) ≡ true
failed-agrees id e q h k = ground arith

sent-agrees :
    (n : ℕ) (id : Text) (m : Option Text) (q : QueueRow)
    → is_pending_row id q ≡ true
    → agrees q.status q ≡ true
    → agrees (set_sent n m q).status (set_sent n m q) ≡ true
sent-agrees n id m q h k = ground arith

update-Agree :
    (p : QueueRow → Bool) (f : QueueRow → QueueRow) (qs : List QueueRow)
    → ((q : QueueRow) → p q ≡ true → agrees q.status q ≡ true → agrees (f q).status (f q) ≡ true)
    → Agree qs
    → Agree (update_rows p f qs)
update-Agree p f [] k a = a
update-Agree p f (q ∷ qs) k (a, more) = elim (Bool-cases (p q)) [
  | inl b ↦ (ground (arith, b, k q b a), update-Agree p f qs k more)
  | inr b ↦ (ground (arith, b, a), update-Agree p f qs k more)
]

append-Agree :
    (qs : List QueueRow) (q : QueueRow) → Agree qs → agrees q.status q ≡ true → Agree (qs ++ q ∷ [])
append-Agree [] q a h = (h, a)
append-Agree (x ∷ qs) q (a, more) h = (a, append-Agree qs q more h)

delete-Agree : (p : QueueRow → Bool) (qs : List QueueRow) → Agree qs → Agree (delete_rows p qs)
delete-Agree p [] a = a
delete-Agree p (q ∷ qs) (a, more) = elim (Bool-cases (p q)) [
  | inl b ↦ subst Agree (ground (arith, b)) (delete-Agree p qs more)
  | inr b ↦
      let kept : Agree (q ∷ delete_rows p qs) = (a, delete-Agree p qs more) in
      subst Agree {x = q ∷ delete_rows p qs} (ground (arith, b)) kept
]

IsAgreed-Stable : Stable IsAgreed
IsAgreed-Stable =
    queue-Stable Agree
      (λ id e qs a. update-Agree (is_pending_row id) (set_failed e) qs (failed-agrees id e) a)
      (λ n id m qs a. update-Agree (is_pending_row id) (set_sent n m) qs (sent-agrees n id m) a)
      (λ v user admin body qs a. append-Agree qs (new_row v user admin body) a refl)

erase_blob-queue :
    (v : Env) (n : ℕ) (b : MediaBlob) (s : Stores)
    → (erase_blob v n b s).tables.admin_outbound_queue ≡ s.tables.admin_outbound_queue
unfolding erase_blob
erase_blob-queue v n b s = ground arith

erase_blobs-queue :
    (v : Env) (n : ℕ) (bs : List MediaBlob) (s : Stores)
    → (erase_blobs v n bs s).tables.admin_outbound_queue ≡ s.tables.admin_outbound_queue
unfolding erase_blobs
erase_blobs-queue v n [] s = refl
erase_blobs-queue v n (b ∷ bs) s =
    erase_blobs-queue v (n + 2) bs (erase_blob v n b s) ∙ erase_blob-queue v n b s

purge_media-queue :
    (v : Env) (c : Config) (s : Stores)
    → (purge_media v c s).tables.admin_outbound_queue ≡ s.tables.admin_outbound_queue
unfolding purge_media
purge_media-queue v c s = ground (arith, erase_blobs-queue v 7 (expired_media v c s.tables) s)

before_sync-queue :
    (v : Env) (c : Config) (s : Stores)
    → (purge_auth v (purge_prekeys v (purge_media v c s))).tables.admin_outbound_queue
      ≡ s.tables.admin_outbound_queue
unfolding purge_prekeys purge_auth
before_sync-queue v c s = ground (arith, purge_media-queue v c s)

-- A reply that loses its link still agrees with its status.
forget-agrees :
    (q : QueueRow)
    → agrees q.status q ≡ true
    → agrees (forget_message q).status (forget_message q) ≡ true
forget-agrees q a = ground arith

messages-Agree :
    (v : Env) (c : Config) (s : Stores) → IsAgreed s.tables → IsAgreed (purge_messages v c s).tables
unfolding purge_messages drop_messages
messages-Agree v c s a =
    let gone = select_rows (is_expired v c) s.tables.messages in
    elim (Bool-cases (v.fails 0)) [
      | inl b ↦ subst Agree (ground (arith, b)) a
      | inr b ↦ subst Agree (ground (arith, b)) (
          update-Agree (links_any gone) forget_message s.tables.admin_outbound_queue
            (λ q h k. forget-agrees q k) a)
    ]

sync-Agree : (v : Env) (s : Stores) → IsAgreed s.tables → IsAgreed (purge_admin_sync v s).tables
unfolding purge_admin_sync
sync-Agree v s a = elim (Bool-cases (v.fails 5)) [
  | inl b ↦ subst Agree (ground (arith, b)) a
  | inr b ↦
      subst Agree (ground (arith, b))
        (delete-Agree (is_reaped v.now) s.tables.admin_outbound_queue a)
]

sweep-Agree :
    (v : Env) (c : Config) (s : Stores) → IsAgreed s.tables → IsAgreed (sweep_once v c s).tables
unfolding sweep_once
sweep-Agree v c s a =
    sync-Agree v (purge_auth v (purge_prekeys v (purge_media v c (purge_messages v c s))))
      (subst Agree (sym (before_sync-queue v c (purge_messages v c s))) (messages-Agree v c s a))

-- If every row of admin_outbound_queue agrees with its status (one that waits was neither sent
-- nor failed, one that was sent has its time and no error, one that failed has its error and was
-- not sent), then so after any sequence of requests, events of sockets, arrivals and retention
-- sweeps.
pub queue_agrees :
    (j : Json) (k : Signer) (w x : World)
    → IsAgreed w.tables
    → Many (Move j k) w x
    → IsAgreed x.tables
queue_agrees j k w x a m =
    many-keeps (Move j k) (λ w. IsAgreed w.tables)
      (move-keeps IsAgreed j k IsAgreed-Stable sweep-Agree) w x m a

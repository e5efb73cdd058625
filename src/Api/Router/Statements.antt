-- ===== src/Api/Router/Statements.antt =====
-- Single steps of the handlers (backend/internal/api and auth/refresh.go), each kept by a predicate
-- that survives the statements.
use kalki_chat.Base.{
  ℕ, suc, refl, subst, Option, none, some, List, [], ◌∷◌, Text, eq_text, arith, inl, inr,
  Bool-cases, Option-cases, update_rows, length, ◌&&◌, is_none, ◌==◌,
}
use kalki_chat.Env.{Env}
use kalki_chat.Db.{
  OneTimePrekey, QueueRow, Tables, World, exec, try_exec, Keeps, keeps_rules, Keeps-exec,
  Keeps-try_exec, Keeps-bind, Keeps-publish, Keeps-pure, Keeps-require,
}
use kalki_chat.Audit.{AuditEvent, record_event, audit_row}
use kalki_chat.Auth.Refresh.{
  db, update_tokens, set_revoked, set_used, is_token, is_live_in, refresh_issue, refresh_rotate,
  refresh_revoke_device, rotate_body,
}
use kalki_chat.Crypto.Jwt.{Claims, Verified, ok, err}
use kalki_chat.Messages.{SendInput, send_message, validate, is_device}
use kalki_chat.Ws.Hub.{device_channel, revocation_event}
use kalki_chat.Api.Http.{HttpError, http, bad_key, db_500}
use kalki_chat.Api.Middleware.{touch, verified_or}
use kalki_chat.Api.Session.{mark_revoked, revoke_device, set_last_login, auth_logout}
use kalki_chat.Api.Password.{is_user, set_password}
use kalki_chat.Api.Prekeys.{OpkRequest, upload_opks, insert_opk, consume}
use kalki_chat.Api.Media.{WrappedKey, key_row, is_good_key, insert_key, insert_keys}
use kalki_chat.Api.AdminAuth.{touch_admin}
use kalki_chat.Api.AdminSync.{mirror_if, ack_failed, ack_found, ack_body}
use kalki_chat.Api.AdminUsers.{
  update_status, revoke_devices, is_token_of, is_token_on, add_user, new_user, insert_user,
  publish_revoked,
}
use kalki_chat.Api.Router.Stable.{Stable}

module _ {I : Tables → Type 0} (s : Stable I) where
  pub status-Keeps :
      (v : Env) (n : ℕ) (id st : Text) → Keeps I (exec v n db_500 (update_status id st))
  status-Keeps v n id st = Keeps-exec v n db_500 _ (s.status id st)

  pub password-Keeps :
      (v : Env) (n : ℕ) (id hash : Text)
      → Keeps I (
          exec v n db_500
            (λ t. some (record t { users = update_rows (is_user id) (set_password hash) t.users })))
  password-Keeps v n id hash = Keeps-exec v n db_500 _ (s.password id hash)

  pub login_time-Keeps :
      {E : Type 0} (v : Env) (n : ℕ) (id : Text)
      → Keeps {E = E} I (
          try_exec v n (λ t. some (record t {
            users = update_rows (λ x. eq_text x.id id) (set_last_login v.now) t.users;
          })))
  login_time-Keeps v n id = Keeps-try_exec v n _ (s.login_time v.now id)

  pub record_event-Keeps :
      {E : Type 0} (v : Env) (e : AuditEvent) → Keeps {E = E} I (record_event v e)
  record_event-Keeps v e = Keeps-try_exec v 80 _ (s.audit (audit_row v e))

  pub verified_or-Keeps : (x : Verified) (e : HttpError) → Keeps I (verified_or x e)
  verified_or-Keeps (ok c) e = Keeps-pure
  verified_or-Keeps (err x) e = record { at = λ w i. i }

  pub touch-Keeps : (v : Env) (n : ℕ) (id : Text) → Keeps I (touch v n id)
  touch-Keeps v n id = Keeps-try_exec v n _ (s.seen v.now id)

  pub touch_admin-Keeps : (v : Env) (n : ℕ) (id : Text) → Keeps I (touch_admin v n id)
  touch_admin-Keeps v n id = Keeps-try_exec v n _ (s.admin_time v.now id)

  pub revoke_devices-Keeps :
      {E : Type 0} (v : Env) (n : ℕ) (id : Text)
      → Keeps {E = E} I (try_exec v n (revoke_devices v id))
  revoke_devices-Keeps v n id = Keeps-try_exec v n _ (s.devices_revoked v id)

  pub revoke_device-Keeps :
      {E : Type 0} (v : Env) (n : ℕ) (id : Text)
      → Keeps {E = E} I (
          try_exec v n (λ t.
            some
              (record t { devices = update_rows (is_device id) (revoke_device v.now) t.devices })))
  revoke_device-Keeps v n id = Keeps-try_exec v n _ (s.device_revoked v.now id)

  pub tokens_of-Keeps :
      {E : Type 0} (v : Env) (n : ℕ) (id : Text)
      → Keeps {E = E} I (
          try_exec v n (λ t. some (update_tokens (is_token_of id t.devices) (set_revoked v.now) t)))
  tokens_of-Keeps v n id = Keeps-try_exec v n _ (s.tokens_revoked (is_token_of id) v.now)

  pub tokens_on-Keeps :
      {E : Type 0} (v : Env) (n : ℕ) (id : Text)
      → Keeps {E = E} I
          (try_exec v n (λ t. some (update_tokens (is_token_on id) (set_revoked v.now) t)))
  tokens_on-Keeps v n id = Keeps-try_exec v n _ (s.tokens_revoked (λ ds. is_token_on id) v.now)

  used-Keeps :
      (v : Env) (n : ℕ) (id : Text)
      → Keeps I (exec v n db (λ t. some (update_tokens (is_token id) (set_used v.now) t)))
  used-Keeps v n id = Keeps-exec v n db _ (s.token_used v.now id)

  family-Keeps :
      (v : Env) (n : ℕ) (id : Text)
      → Keeps I (exec v n db (λ t. some (update_tokens (is_live_in id) (set_revoked v.now) t)))
  family-Keeps v n id = Keeps-exec v n db _ (s.tokens_revoked (λ ds. is_live_in id) v.now)

  pub refresh_issue-Keeps :
      (v : Env) (n u : ℕ) (d family : Text) (ttl : ℕ) → Keeps I (refresh_issue v n u d family ttl)
  unfolding refresh_issue
  refresh_issue-Keeps v n u d family ttl = search (keeps_rules, Keeps-exec, s.new_token) depth 12

  rotate_body-Keeps : (v : Env) (id raw : Text) (ttl : ℕ) → Keeps I (rotate_body v id raw ttl)
  unfolding rotate_body
  rotate_body-Keeps v id raw ttl =
      search (keeps_rules, used-Keeps, family-Keeps, Keeps-exec, s.new_token) depth 12

  pub refresh_rotate-Keeps :
      (v : Env) (token : Text) (ttl : ℕ) → Keeps I (refresh_rotate v token ttl)
  unfolding refresh_rotate
  refresh_rotate-Keeps v token ttl = search (keeps_rules, rotate_body-Keeps) depth 12

  validate-Keeps : (v : Env) (i : SendInput) → Keeps I (validate v i)
  unfolding validate
  validate-Keeps v i = search keeps_rules depth 12

  pub send_message-Keeps : (v : Env) (i : SendInput) → Keeps I (send_message v i)
  unfolding send_message
  send_message-Keeps v i = search (keeps_rules, validate-Keeps, Keeps-exec, s.new_message) depth 12

  pub upload_opks-Keeps :
      (v : Env) (n : ℕ) (d : Text) (ks : List OpkRequest) → Keeps I (upload_opks v n d ks)
  unfolding upload_opks
  upload_opks-Keeps v n d [] = Keeps-pure
  upload_opks-Keeps v n d (k ∷ ks) =
      Keeps-bind (Keeps-require (length (v.base64_prefix k.pubkey) == 32) (http 400 bad_key)) (λ x.
        Keeps-bind
          (Keeps-exec v n db_500 (insert_opk d k.id (v.base64_prefix k.pubkey))
            (s.new_prekey d k.id (v.base64_prefix k.pubkey)))
          (λ y. upload_opks-Keeps v (suc n) d ks))

  pub insert_keys-Keeps :
      (v : Env) (n : ℕ) (m : Text) (ks : List WrappedKey) → Keeps I (insert_keys v n m ks)
  unfolding insert_keys
  insert_keys-Keeps v n m [] = Keeps-pure
  insert_keys-Keeps v n m (k ∷ ks) =
      Keeps-bind (Keeps-require (is_good_key (key_row v m k)) (http 400 bad_key)) (λ x.
        Keeps-bind (Keeps-exec v n db_500 (insert_key (key_row v m k)) (s.new_key (key_row v m k)))
          (λ y. insert_keys-Keeps v (suc n) m ks))

  pub consume-Keeps : (v : Env) (k : Option OneTimePrekey) → Keeps I (consume v k)
  consume-Keeps v none = Keeps-pure
  consume-Keeps v (some k) = Keeps-exec v 5 db_500 _ (s.prekey_consumed v.now k.id)

  mirror_if-Keeps : (v : Env) (id : Option Text) (body : Text) → Keeps I (mirror_if v id body)
  mirror_if-Keeps v none body = Keeps-pure
  mirror_if-Keeps v (some id) body = Keeps-exec v 3 db_500 _ (s.new_reply v id body)

  pub ack_failed-Keeps : (v : Env) (id e : Text) → Keeps I (ack_failed v id e)
  ack_failed-Keeps v id e =
      Keeps-bind (Keeps-exec v 0 db_500 _ (s.row_failed id e)) (λ x. Keeps-pure)

  ack_found-Keeps :
      (v : Env) (id : Text) (server_id : Option Text) (q : Option QueueRow)
      → Keeps I (ack_found v id server_id q)
  ack_found-Keeps v id server_id none = Keeps-pure
  ack_found-Keeps v id server_id (some q) =
      search (keeps_rules, Keeps-exec v 5 db_500, mirror_if-Keeps, s.settled) depth 12

  pub ack_body-Keeps :
      (v : Env) (id : Text) (server_id : Option Text) → Keeps I (ack_body v id server_id)
  ack_body-Keeps v id server_id = search (keeps_rules, ack_found-Keeps) depth 12

  pub publish_revoked-Keeps : (v : Env) (id : Text) → Keeps I (publish_revoked v id)
  publish_revoked-Keeps v id = record {
    at = λ w i. (Keeps-publish {I = I} v 2 db_500 (device_channel id) revocation_event).at w i;
  }

  pub add_user-Keeps : (v : Env) (login hash : Text) → Keeps I (add_user v (new_user v login hash))
  add_user-Keeps v login hash = record {
    at = λ w i. elim (Bool-cases (v.fails 0)) [
      | inl b ↦ subst I (ground (arith, b)) i
      | inr b ↦ elim (Option-cases (insert_user (new_user v login hash) w.tables)) [
        | inl z ↦ subst I (ground (arith, b, z)) i
        | inr (t, z) ↦ subst I (ground (arith, b, z)) (s.new_user v login hash w.tables t z i)
      ]
    ];
  }

  revoked-Keeps : (v : Env) (n : ℕ) (d : Text) → Keeps I (refresh_revoke_device v n d)
  unfolding refresh_revoke_device
  revoked-Keeps v n d =
      Keeps-exec v n db _
        (s.tokens_revoked (λ ds r. eq_text r.device_id d && is_none r.revoked_at) v.now)

  -- The update of the device in auth_logout, whose error is dropped.
  marked : (v : Env) (d : Text) (w : World) → I w.tables → I (mark_revoked v d w).tables
  marked v d w i = elim (Bool-cases (v.fails 0)) [
    | inl b ↦ subst I (ground (arith, b)) i
    | inr b ↦
        let kept = s.device_revoked v.now d w.tables _ refl i in subst I (ground (arith, b)) kept
  ]

  pub auth_logout-Keeps : (v : Env) (c : Option Claims) → Keeps I (auth_logout v c)
  unfolding auth_logout
  auth_logout-Keeps v none = record { at = λ w i. i }
  auth_logout-Keeps v (some c) = record {
    at = λ w i. (revoked-Keeps v 1 c.sub).at (mark_revoked v c.sub w) (marked v c.sub w i);
  }

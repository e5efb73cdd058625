-- ===== src/Audit.antt =====
-- backend/internal/audit/audit.go: one row per action, without sensitive values.
use kalki_chat.Base.{
  ℕ, Bool, true, false, Option, none, some, List, [], ◌∷◌, ◌++◌, Text, lit, eq_text, update_rows,
}
use kalki_chat.Env.{Env}
use kalki_chat.Db.{
  Tables, AuditLog, Metadata, MetaValue, text, flag, World, M, Outcome, done, refused, try_exec,
}
pub mod Sanitize

-- `Event`, without the address and the user agent.
pub record AuditEvent : Type 0 where
  pub actor_kind : Text
  pub actor_id : Text
  pub action : Text
  pub target_kind : Text
  pub target_id : Text
  pub metadata : Metadata

abbrev pub redacted : Text
redacted = lit "<redacted>"

abbrev pub sensitive_keys : List Text
sensitive_keys =
    lit "envelope"
    ∷ lit "ciphertext"
    ∷ lit "body"
    ∷ lit "plaintext"
    ∷ lit "message"
    ∷ lit "password"
    ∷ lit "totp_secret"
    ∷ lit "private_key"
    ∷ lit "wrapped_key"
    ∷ []

abbrev pub has_meta : Text → Text × MetaValue → Bool
has_meta k e = eq_text (e.0) k

abbrev pub set_redacted : Text × MetaValue → Text × MetaValue
set_redacted e = (e.0, text redacted)

-- The loop of `sanitize`, for the keys that are left.
unfoldable pub redact_keys : List Text → Metadata → Metadata
redact_keys [] m = m
redact_keys (k ∷ ks) m = redact_keys ks (update_rows (has_meta k) set_redacted m)

-- `sanitize`; no metadata is the empty list.
unfoldable pub sanitize : Metadata → Metadata
unfolding redact_keys
sanitize m = redact_keys sensitive_keys m

abbrev pub audit_row : Env → AuditEvent → AuditLog
audit_row v e = record {
  actor_kind = e.actor_kind;
  actor_id = e.actor_id;
  action = e.action;
  target_kind = e.target_kind;
  target_id = e.target_id;
  metadata = sanitize e.metadata;
  created_at = v.now;
}

module _ {E : Type 0} where
  -- `Record`, as every handler calls it: call 80, whose error is dropped.
  abbrev pub record_event : Env → AuditEvent → M E (Unit {0})
  record_event v e =
      try_exec v 80 (λ t. some (record t { audit_logs = t.audit_logs ++ audit_row v e ∷ [] }))

-- An admin's action.
abbrev pub admin_event : (actor action target_kind target_id : Text) → Metadata → AuditEvent
admin_event actor action kind id m = record {
  actor_kind = lit "admin";
  actor_id = actor;
  action = action;
  target_kind = kind;
  target_id = id;
  metadata = m;
}

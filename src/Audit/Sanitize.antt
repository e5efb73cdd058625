-- ===== src/Audit/Sanitize.antt =====
-- What `sanitize` of backend/internal/audit/audit.go leaves.
use kalki_chat.Base.{
  ◌≡◌, refl, List, [], ◌∷◌, map, arith, Text, eq_text, update_rows, exists_row, ◌∙◌, if◌then◌else◌,
  Option, none, some, Bool, lit, find_row, eq_text_iff, Bool-cases, ap, inl, inr,
}
use kalki_chat.Db.{Metadata, MetaValue, text}
use kalki_chat.Env.{Env}
use kalki_chat.Audit.{
  AuditEvent, audit_row, redacted, sensitive_keys, has_meta, set_redacted, redact_keys, sanitize,
}

-- One entry, redacted if its key is in the list.
abbrev pub clean : List Text → Text × MetaValue → Text × MetaValue
clean ks e = if exists_row (λ k. eq_text (e.0) k) ks then (e.0, text redacted) else e

-- A value under a sensitive key.
abbrev pub hide : Option MetaValue → Option MetaValue
hide none = none
hide (some x) = some (text (lit "<redacted>"))

redact_none : (m : Metadata) → map (clean []) m ≡ m
redact_none [] = refl
redact_none (e ∷ m) = ground (arith, redact_none m)

clean-clean :
    (k : Text) (ks : List Text) (m : Metadata)
    → map (clean ks) (update_rows (has_meta k) set_redacted m) ≡ map (clean (k ∷ ks)) m
clean-clean k ks [] = refl
clean-clean k ks (e ∷ m) = ground (arith, clean-clean k ks m)

redact_keys-map : (ks : List Text) (m : Metadata) → redact_keys ks m ≡ map (clean ks) m
unfolding redact_keys
redact_keys-map [] m = ground (arith, redact_none m)
redact_keys-map (k ∷ ks) m =
    redact_keys-map ks (update_rows (has_meta k) set_redacted m) ∙ clean-clean k ks m

-- What is stored under a key.
abbrev pub meta_at : Text → Metadata → Option MetaValue
meta_at k m = elim (find_row (has_meta k) m) [ none ↦ none | some e ↦ some (e.1) ]

meta_at-clean :
    (ks : List Text) (k : Text) (m : Metadata)
    → meta_at k (map (clean ks) m)
      ≡ (if exists_row (λ s. eq_text k s) ks then hide (meta_at k m) else meta_at k m)
meta_at-clean ks k [] = ground arith
meta_at-clean ks k (e ∷ m) = elim (Bool-cases (eq_text (e.0) k)) [
  | inl x ↦ ground (arith, x, (eq_text_iff (e.0) k).0 x)
  | inr x ↦ ground (arith, x, meta_at-clean ks k m)
]

-- The keys under which a secret or a message could stand.
abbrev pub secrets : List Text
secrets =
    lit "password"
    ∷ lit "totp_secret"
    ∷ lit "private_key"
    ∷ lit "wrapped_key"
    ∷ lit "body"
    ∷ lit "message"
    ∷ lit "plaintext"
    ∷ lit "ciphertext"
    ∷ lit "envelope"
    ∷ []

abbrev pub is_secret : Text → Bool
is_secret k = exists_row (λ s. eq_text k s) secrets

same_keys : (k : Text) → exists_row (λ s. eq_text k s) sensitive_keys ≡ is_secret k
same_keys k = ground arith

-- Read by key, the metadata that a record stores has <redacted> in place of every value under
-- password, totp_secret, private_key, wrapped_key, body, message, plaintext, ciphertext or
-- envelope, and under any other key what the caller gave.
pub audit_row-redacted :
    (v : Env) (e : AuditEvent) (k : Text)
    → meta_at k (audit_row v e).metadata
      ≡ (if is_secret k then hide (meta_at k e.metadata) else meta_at k e.metadata)
unfolding sanitize
audit_row-redacted v e k =
    let stored =
      ap (meta_at k) (redact_keys-map sensitive_keys e.metadata)
      ∙ meta_at-clean sensitive_keys k e.metadata in
    ground (arith, stored, same_keys k)

-- ===== src/Auth/Refresh.antt =====
-- backend/internal/auth/refresh.go: refresh tokens, which are used once and come in families.
use kalki_chat.Base.{
  ℕ, suc, ◌+◌, Bool, true, false, not, ◌&&◌, Option, none, some, List, [], ◌∷◌, ◌++◌, leb, ◌==◌,
  if◌then◌else◌, is_none, is_some, is_empty, Text, eq_text, find_row, exists_row, update_rows,
}
use mathlib.Core.Option
use kalki_chat.Env.{Env}
use kalki_chat.Db.{
  Tables, RefreshToken, has_device, World, M, Outcome, done, refused, pure, refuse, ◌>>=◌, ◌>>◌,
  require, need, query, exec, try_exec, transaction,
}
use kalki_chat.Auth.ConstantTime.{ct_eq}
pub mod Split
pub mod Rotate
pub mod Family
pub mod Alive
pub mod Chain

-- `ErrBadRefresh`, `ErrReplayed`, and the errors of the database and the random generator.
pub data RefreshError : Type 0 where
  bad_refresh replayed db rng : RefreshError

-- `splitRefresh`: the text before the first '.', and the text after it.
unfoldable pub split_refresh : Text → Option (Text × Text)
split_refresh [] = none
split_refresh (c ∷ s) =
    let rest = split_refresh s in
    if c == b'.' then some ([], s) else Option.map (λ p. (c ∷ p.0, p.1)) rest

abbrev pub join_refresh : Text → Text → Text
join_refresh id raw = id ++ b'.' ∷ raw

-- `RandomBase64(n)` of backend/internal/crypto/crypto.go, at the k-th read of randomness.
abbrev pub random_base64 : Env → ℕ → ℕ → Option Text
random_base64 v k n = Option.map v.url_encode (v.random k n)

abbrev pub is_token : Text → RefreshToken → Bool
is_token id r = eq_text r.id id

-- `INSERT INTO refresh_tokens`: the id is new, and the device exists.
abbrev pub insert_token : RefreshToken → Tables → Option Tables
insert_token r t =
    if exists_row (is_token r.id) t.refresh_tokens
    then none
    else if has_device r.device_id t
    then some (record t { refresh_tokens = t.refresh_tokens ++ r ∷ [] })
    else none

abbrev pub update_tokens : (RefreshToken → Bool) → (RefreshToken → RefreshToken) → Tables → Tables
update_tokens p f t = record t { refresh_tokens = update_rows p f t.refresh_tokens }

-- A new, unused row.
abbrev pub new_token : Env → (id device_id family_id raw : Text) → ℕ → RefreshToken
new_token v id device_id family_id raw ttl = record {
  id = id;
  device_id = device_id;
  family_id = family_id;
  token_hash = v.sha256 raw;
  used_at = none;
  revoked_at = none;
  expires_at = v.now + ttl;
}

-- `RefreshIssue`, with call n of the request, and its identifiers from the u-th on.
unfoldable pub refresh_issue : Env → ℕ → ℕ → (device_id family_id : Text) → ℕ → M RefreshError Text
refresh_issue v n u device_id family_id ttl = do
  let id = v.uuid u
  let family = if is_empty family_id then v.uuid (u + 1) else family_id
  raw ← need (random_base64 v 0 32) rng
  exec v n db (insert_token (new_token v id device_id family raw ttl))
  pure (join_refresh id raw)

pub record Rotated : Type 0 where
  pub token : Text
  pub device_id : Text
  pub family_id : Text

abbrev pub set_used : ℕ → RefreshToken → RefreshToken
set_used t r = record r { used_at = some t }

abbrev pub set_revoked : ℕ → RefreshToken → RefreshToken
set_revoked t r = record r { revoked_at = some t }

-- `family_id = $1 AND revoked_at IS NULL`
abbrev pub is_live_in : Text → RefreshToken → Bool
is_live_in family r = eq_text r.family_id family && is_none r.revoked_at

-- The tests of `RefreshRotate` on the row that it found: the hash, then revocation and expiry.
abbrev pub accept_row : Env → Text → RefreshToken → M RefreshError (Unit {0})
accept_row v raw r = do
  require (ct_eq r.token_hash (v.sha256 raw)) bad_refresh
  require (is_none r.revoked_at && leb v.now r.expires_at) bad_refresh

-- A replay: the family is revoked. An error of this statement makes the commit fail.
abbrev pub revoke_family : Env → RefreshToken → M RefreshError (Option Rotated)
revoke_family v r = do
  exec v 3 db (λ t. some (update_tokens (is_live_in r.family_id) (set_revoked v.now) t))
  pure none

-- The first use: the row is marked, and a new row of the same family is added.
abbrev pub use_row : Env → RefreshToken → ℕ → M RefreshError (Option Rotated)
use_row v r ttl = do
  exec v 4 db (λ t. some (update_tokens (is_token r.id) (set_used v.now) t))
  raw_new ← need (random_base64 v 0 32) rng
  exec v 5 db (insert_token (new_token v (v.uuid 0) r.device_id r.family_id raw_new ttl))
  pure (
      some (record {
        token = join_refresh (v.uuid 0) raw_new;
        device_id = r.device_id;
        family_id = r.family_id;
      }))

-- The body of the transaction: `none` is a replay, which is committed too.
unfoldable pub rotate_body : Env → Text → Text → ℕ → M RefreshError (Option Rotated)
rotate_body v id raw ttl = do
  found ← query v 1 db (λ t. find_row (is_token id) t.refresh_tokens)
  r ← need found bad_refresh
  accept_row v raw r
  if is_some r.used_at then revoke_family v r else use_row v r ttl

-- `RefreshRotate`
unfoldable pub refresh_rotate : Env → Text → ℕ → M RefreshError Rotated
unfolding rotate_body
refresh_rotate v presented ttl = do
  parts ← need (split_refresh presented) bad_refresh
  outcome ← transaction v 0 2 db (rotate_body v (parts.0) (parts.1) ttl)
  need outcome replayed

-- `RefreshRevoke`
unfoldable pub refresh_revoke : Env → Text → M RefreshError (Unit {0})
refresh_revoke v presented = do
  parts ← need (split_refresh presented) bad_refresh
  exec v 0 db (λ t. some (update_tokens (is_token (parts.0)) (set_revoked v.now) t))

-- `RefreshRevokeDevice`, with call n of the request.
unfoldable pub refresh_revoke_device : Env → ℕ → Text → M RefreshError (Unit {0})
refresh_revoke_device v n device_id = exec v n db (λ t. some (
    update_tokens (λ r. eq_text r.device_id device_id && is_none r.revoked_at) (set_revoked v.now)
      t))

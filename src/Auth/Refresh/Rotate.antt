-- ===== src/Auth/Refresh/Rotate.antt =====
-- What RefreshRotate of backend/internal/auth/refresh.go does on each branch.
use kalki_chat.Base.{
  ℕ, ◌≤◌, ◌≡◌, true, false, none, some, [], ◌∷◌, ◌++◌, arith, ◌⊎◌, inl, inr, is_some, Text,
  find_row, update_rows, Option-cases,
}
use kalki_chat.Env.{Env}
use kalki_chat.Db.{RefreshToken, World, done, refused}
use kalki_chat.Auth.ConstantTime.{ct_eq}
use kalki_chat.Auth.Refresh.{
  RefreshError, replayed, Rotated, split_refresh, join_refresh, is_token, new_token, update_tokens,
  set_used, set_revoked, is_live_in, refresh_rotate,
}

-- A refused rotation writes nothing, but for a replay.
pub refresh_rotate_refused :
    (v : Env) (presented : Text) (ttl : ℕ) (w w' : World) (e : RefreshError)
    → refresh_rotate v presented ttl w ≡ (refused e, w')
    → (e ≡ replayed) ⊎ (w' ≡ w)
unfolding refresh_rotate
refresh_rotate_refused v presented ttl w w' e h = ground arith

-- The row that a presented token names, and the text to be hashed.
pub record Names (w : World) (presented : Text) (r : RefreshToken) (raw : Text) : Type 0 where
  pub id : Text
  pub parts : split_refresh presented ≡ some (id, raw)
  pub found : find_row (is_token id) w.tables.refresh_tokens ≡ some r

-- A successful rotation, in full: the row it used was unused, live, unexpired and of the right hash;
-- that row is marked used, and one unused row of the same device and family is added.
pub record Rotation (v : Env) (presented : Text) (ttl : ℕ) (w w' : World) (out : Rotated)
    (r : RefreshToken) (raw raw_new : Text) : Type 0 where
  pub names : Names w presented r raw
  pub hash : ct_eq r.token_hash (v.sha256 raw) ≡ true
  pub live : r.revoked_at ≡ none
  pub unused : r.used_at ≡ none
  pub in_time : v.now ≤ r.expires_at
  pub token : out.token ≡ join_refresh (v.uuid 0) raw_new
  pub device : out.device_id ≡ r.device_id
  pub family : out.family_id ≡ r.family_id
  pub rows :
      w'.tables.refresh_tokens
      ≡ update_rows (is_token r.id) (set_used v.now) w.tables.refresh_tokens
        ++ new_token v (v.uuid 0) r.device_id r.family_id raw_new ttl ∷ []

pub refresh_rotate-Rotation :
    (v : Env) (presented : Text) (ttl : ℕ) (w w' : World) (out : Rotated)
    → refresh_rotate v presented ttl w ≡ (done out, w')
    → (r : RefreshToken) × (raw raw_new : Text) × Rotation v presented ttl w w' out r raw raw_new
unfolding refresh_rotate
refresh_rotate-Rotation v presented ttl w w' out h = elim (Option-cases (split_refresh presented)) [
  | inl s ↦ ground arith
  | inr ((id, raw), s) ↦ elim (Option-cases (find_row (is_token id) w.tables.refresh_tokens)) [
    | inl f ↦ ground arith
    | inr (r, f) ↦ elim (Option-cases (v.random 0 32)) [
      | inl n ↦ ground arith
      | inr (bytes, n) ↦
          let nm : Names w presented r raw = record { id = id; parts = s; found = f } in
          (
            r,
            raw,
            v.url_encode bytes,
            record {
              names = nm;
              hash = ground arith;
              live = ground arith;
              unused = ground arith;
              in_time = ground arith;
              token = ground arith;
              device = ground arith;
              family = ground arith;
              rows = ground arith;
            },
          )
    ]
  ]
]

-- A replay, in full: the row was already used, and every live row of its family is revoked; no
-- other row and no other table changes.
pub record Replay (v : Env) (presented : Text) (w w' : World) (r : RefreshToken) (raw : Text)
    : Type 0 where
  pub names : Names w presented r raw
  pub hash : ct_eq r.token_hash (v.sha256 raw) ≡ true
  pub used : is_some r.used_at ≡ true
  pub world :
      w' ≡ record w { tables = update_tokens (is_live_in r.family_id) (set_revoked v.now) w.tables }

-- Every rotation that ends with `ErrReplayed` is of this form.
pub refresh_rotate-Replay :
    (v : Env) (presented : Text) (ttl : ℕ) (w w' : World)
    → refresh_rotate v presented ttl w ≡ (refused replayed, w')
    → (r : RefreshToken) × (raw : Text) × Replay v presented w w' r raw
unfolding refresh_rotate
refresh_rotate-Replay v presented ttl w w' h = elim (Option-cases (split_refresh presented)) [
  | inl s ↦ ground arith
  | inr ((id, raw), s) ↦ elim (Option-cases (find_row (is_token id) w.tables.refresh_tokens)) [
    | inl f ↦ ground arith
    | inr (r, f) ↦ (
      r,
      raw,
      record {
        names = record { id = id; parts = s; found = f };
        hash = ground arith;
        used = ground arith;
        world = ground arith;
      },
    )
  ]
]

-- If no call fails, a presented token that names a used row, of the right hash, unrevoked and in
-- time, is refused as a replay, and every live row of its family is revoked.
pub refresh_rotate_replays :
    (v : Env) (presented raw : Text) (ttl : ℕ) (w : World) (r : RefreshToken)
    → Names w presented r raw
    → ct_eq r.token_hash (v.sha256 raw) ≡ true
    → r.revoked_at ≡ none
    → v.now ≤ r.expires_at
    → is_some r.used_at ≡ true
    → ((n : ℕ) → v.fails n ≡ false)
    → refresh_rotate v presented ttl w ≡ (
      refused replayed,
      record w { tables = update_tokens (is_live_in r.family_id) (set_revoked v.now) w.tables },
    )
unfolding refresh_rotate
refresh_rotate_replays v presented raw ttl w r n hash live time used up =
    ground (arith, n.parts, n.found, up 0, up 1, up 2, up 3)

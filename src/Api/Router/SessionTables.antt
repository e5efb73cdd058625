-- ===== src/Api/Router/SessionTables.antt =====
-- Predicates on one table, and the few statements that they have to survive (backend/internal/api).
use kalki_chat.Base.{
  ℕ, ◌≡◌, subst, Bool, false, some, List, [], ◌∷◌, ◌++◌, arith, update_rows, exists_row, Bool-cases,
  inl, inr,
}
use kalki_chat.Db.{Tables, Device, RefreshToken, has_device}
use kalki_chat.Auth.Refresh.{insert_token, new_token, set_revoked, set_used, is_token}
use kalki_chat.Messages.{is_device}
use kalki_chat.Api.Session.{insert_device, new_device, revoke_device}
use kalki_chat.Api.Middleware.{set_seen}
use kalki_chat.Api.AdminUsers.{is_live_of}
use kalki_chat.Api.Router.Stable.{Stable}

-- An insert that is carried out adds a row with a new key, or finds it and changes nothing.
module _ (P : List Device → Type 0)
    (added : (d : Device) (ds : List Device)
      → exists_row (is_device d.id) ds ≡ false
      → P ds
      → P (ds ++ d ∷ [])) where
  inserted : (d : Device) (t t' : Tables) → insert_device d t ≡ some t' → P t.devices → P t'.devices
  inserted d t t' h j = elim (Bool-cases (exists_row (is_device d.id) t.devices)) [
    | inl b ↦ subst P (ground (arith, h, b)) j
    | inr b ↦ subst P (ground (arith, h, b)) (added d t.devices b j)
  ]

module _ (P : List RefreshToken → Type 0)
    (added : (r : RefreshToken) (rs : List RefreshToken)
      → exists_row (is_token r.id) rs ≡ false
      → P rs
      → P (rs ++ r ∷ [])) where
  token_inserted :
      (r : RefreshToken) (t t' : Tables)
      → insert_token r t ≡ some t'
      → P t.refresh_tokens
      → P t'.refresh_tokens
  token_inserted r t t' h j = elim (Bool-cases (exists_row (is_token r.id) t.refresh_tokens)) [
    | inl b ↦ subst P (ground (arith, h, b)) j
    | inr b ↦ elim (Bool-cases (has_device r.device_id t)) [
      | inl c ↦ subst P (ground (arith, h, b, c)) (added r t.refresh_tokens b j)
      | inr c ↦ subst P (ground (arith, h, b, c)) j
    ]
  ]

-- A predicate on devices.
module _ (P : List Device → Type 0) where
  pub devices-Stable :
      (seen : (n : ℕ) (p : Device → Bool) (ds : List Device)
        → P ds
        → P (update_rows p (set_seen n) ds))
      → (revoked : (n : ℕ) (p : Device → Bool) (ds : List Device)
          → P ds
          → P (update_rows p (revoke_device n) ds))
      → (added : (d : Device) (ds : List Device)
          → exists_row (is_device d.id) ds ≡ false
          → P ds
          → P (ds ++ d ∷ []))
      → Stable (λ t. P t.devices)
  devices-Stable seen revoked added = record {
    status = λ id st t t' h j. subst P (ground (arith, h)) j;
    password = λ id hash t t' h j. subst P (ground (arith, h)) j;
    login_time = λ n id t t' h j. subst P (ground (arith, h)) j;
    admin_time = λ n id t t' h j. subst P (ground (arith, h)) j;
    seen = λ n id t t' h j. subst P (ground (arith, h)) (seen n (is_device id) t.devices j);
    device_revoked =
        λ n id t t' h j. subst P (ground (arith, h)) (revoked n (is_device id) t.devices j);
    devices_revoked =
        λ v id t t' h j. subst P (ground (arith, h)) (revoked v.now (is_live_of id) t.devices j);
    tokens_revoked = λ p n t t' h j. subst P (ground (arith, h)) j;
    token_used = λ n id t t' h j. subst P (ground (arith, h)) j;
    prekey_consumed = λ n id t t' h j. subst P (ground (arith, h)) j;
    row_failed = λ id e t t' h j. subst P (ground (arith, h)) j;
    delivered = λ n id d t t' h j. subst P (ground (arith, h)) j;
    read = λ n id d t t' h j. subst P (ground (arith, h)) j;
    audit = λ x t t' h j. subst P (ground (arith, h)) j;
    failure = λ f t t' h j. subst P (ground (arith, h)) j;
    new_user = λ v login hash t t' h j. subst P (ground (arith, h)) j;
    new_device = λ v id kind owner r ed x t t' h j.
        inserted P added (new_device v id kind owner r ed x) t t' h j;
    new_conversation = λ c t t' h j. subst P (ground (arith, h)) j;
    new_token = λ v id device family raw ttl t t' h j. subst P (ground (arith, h)) j;
    new_message = λ v id i t t' h j. subst P (ground (arith, h)) j;
    new_blob = λ b t t' h j. subst P (ground (arith, h)) j;
    new_key = λ k t t' h j. subst P (ground (arith, h)) j;
    new_signed = λ k t t' h j. subst P (ground (arith, h)) j;
    new_prekey = λ d n pubkey t t' h j. subst P (ground (arith, h)) j;
    new_mirror = λ v id conversation direction body t t' h j. subst P (ground (arith, h)) j;
    new_reply = λ v id body t t' h j. subst P (ground (arith, h)) j;
    new_queued = λ v user admin body t t' h j. subst P (ground (arith, h)) j;
    settled = λ v id server_id t t' h j. subst P (ground (arith, h)) j;
    whatsapp = λ c admin t t' h j. subst P (ground (arith, h)) j;
  }

-- A predicate on refresh_tokens.
module _ (P : List RefreshToken → Type 0) where
  pub tokens-Stable :
      (used : (n : ℕ) (p : RefreshToken → Bool) (rs : List RefreshToken)
        → P rs
        → P (update_rows p (set_used n) rs))
      → (revoked : (n : ℕ) (p : RefreshToken → Bool) (rs : List RefreshToken)
          → P rs
          → P (update_rows p (set_revoked n) rs))
      → (added : (r : RefreshToken) (rs : List RefreshToken)
          → exists_row (is_token r.id) rs ≡ false
          → P rs
          → P (rs ++ r ∷ []))
      → Stable (λ t. P t.refresh_tokens)
  tokens-Stable used revoked added = record {
    status = λ id st t t' h j. subst P (ground (arith, h)) j;
    password = λ id hash t t' h j. subst P (ground (arith, h)) j;
    login_time = λ n id t t' h j. subst P (ground (arith, h)) j;
    admin_time = λ n id t t' h j. subst P (ground (arith, h)) j;
    seen = λ n id t t' h j. subst P (ground (arith, h)) j;
    device_revoked = λ n id t t' h j. subst P (ground (arith, h)) j;
    devices_revoked = λ v id t t' h j. subst P (ground (arith, h)) j;
    tokens_revoked =
        λ p n t t' h j. subst P (ground (arith, h)) (revoked n (p t.devices) t.refresh_tokens j);
    token_used =
        λ n id t t' h j. subst P (ground (arith, h)) (used n (is_token id) t.refresh_tokens j);
    prekey_consumed = λ n id t t' h j. subst P (ground (arith, h)) j;
    row_failed = λ id e t t' h j. subst P (ground (arith, h)) j;
    delivered = λ n id d t t' h j. subst P (ground (arith, h)) j;
    read = λ n id d t t' h j. subst P (ground (arith, h)) j;
    audit = λ x t t' h j. subst P (ground (arith, h)) j;
    failure = λ f t t' h j. subst P (ground (arith, h)) j;
    new_user = λ v login hash t t' h j. subst P (ground (arith, h)) j;
    new_device = λ v id kind owner r ed x t t' h j. subst P (ground (arith, h)) j;
    new_conversation = λ c t t' h j. subst P (ground (arith, h)) j;
    new_token = λ v id device family raw ttl t t' h j.
        token_inserted P added (new_token v id device family raw ttl) t t' h j;
    new_message = λ v id i t t' h j. subst P (ground (arith, h)) j;
    new_blob = λ b t t' h j. subst P (ground (arith, h)) j;
    new_key = λ k t t' h j. subst P (ground (arith, h)) j;
    new_signed = λ k t t' h j. subst P (ground (arith, h)) j;
    new_prekey = λ d n pubkey t t' h j. subst P (ground (arith, h)) j;
    new_mirror = λ v id conversation direction body t t' h j. subst P (ground (arith, h)) j;
    new_reply = λ v id body t t' h j. subst P (ground (arith, h)) j;
    new_queued = λ v user admin body t t' h j. subst P (ground (arith, h)) j;
    settled = λ v id server_id t t' h j. subst P (ground (arith, h)) j;
    whatsapp = λ c admin t t' h j. subst P (ground (arith, h)) j;
  }

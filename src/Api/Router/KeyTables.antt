-- ===== src/Api/Router/KeyTables.antt =====
-- Predicates on one table, and the few statements that they have to survive (backend/internal/api).
use kalki_chat.Base.{ℕ, ◌≡◌, subst, some, List, Text, arith, update_rows, ◌==◌}
use kalki_chat.Db.{Tables, OneTimePrekey}
use kalki_chat.Api.Prekeys.{set_consumed, insert_opk}
use kalki_chat.Api.Router.Stable.{Stable}

-- A predicate on one_time_prekeys.
module _ (P : List OneTimePrekey → Type 0) where
  pub prekeys-Stable :
      (used : (n id : ℕ) (ks : List OneTimePrekey)
        → P ks
        → P (update_rows (λ (o : OneTimePrekey). o.id == id) (set_consumed n) ks))
      → (added : (d : Text) (n : ℕ) (pubkey : Text) (t t' : Tables)
          → insert_opk d n pubkey t ≡ some t'
          → P t.one_time_prekeys
          → P t'.one_time_prekeys)
      → Stable (λ t. P t.one_time_prekeys)
  prekeys-Stable used added = record {
    status = λ id st t t' h j. subst P (ground (arith, h)) j;
    password = λ id hash t t' h j. subst P (ground (arith, h)) j;
    login_time = λ n id t t' h j. subst P (ground (arith, h)) j;
    admin_time = λ n id t t' h j. subst P (ground (arith, h)) j;
    seen = λ n id t t' h j. subst P (ground (arith, h)) j;
    device_revoked = λ n id t t' h j. subst P (ground (arith, h)) j;
    devices_revoked = λ v id t t' h j. subst P (ground (arith, h)) j;
    tokens_revoked = λ p n t t' h j. subst P (ground (arith, h)) j;
    token_used = λ n id t t' h j. subst P (ground (arith, h)) j;
    prekey_consumed = λ n id t t' h j. subst P (ground (arith, h)) (used n id t.one_time_prekeys j);
    row_failed = λ id e t t' h j. subst P (ground (arith, h)) j;
    delivered = λ n id d t t' h j. subst P (ground (arith, h)) j;
    read = λ n id d t t' h j. subst P (ground (arith, h)) j;
    audit = λ x t t' h j. subst P (ground (arith, h)) j;
    failure = λ f t t' h j. subst P (ground (arith, h)) j;
    new_user = λ v login hash t t' h j. subst P (ground (arith, h)) j;
    new_device = λ v id kind owner r ed x t t' h j. subst P (ground (arith, h)) j;
    new_conversation = λ c t t' h j. subst P (ground (arith, h)) j;
    new_token = λ v id device family raw ttl t t' h j. subst P (ground (arith, h)) j;
    new_message = λ v id i t t' h j. subst P (ground (arith, h)) j;
    new_blob = λ b t t' h j. subst P (ground (arith, h)) j;
    new_key = λ k t t' h j. subst P (ground (arith, h)) j;
    new_signed = λ k t t' h j. subst P (ground (arith, h)) j;
    new_prekey = λ d n pubkey t t' h j. added d n pubkey t t' h j;
    new_mirror = λ v id conversation direction body t t' h j. subst P (ground (arith, h)) j;
    new_reply = λ v id body t t' h j. subst P (ground (arith, h)) j;
    new_queued = λ v user admin body t t' h j. subst P (ground (arith, h)) j;
    settled = λ v id server_id t t' h j. subst P (ground (arith, h)) j;
    whatsapp = λ c admin t t' h j. subst P (ground (arith, h)) j;
  }

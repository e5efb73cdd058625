-- ===== src/Api/AdminAuth/Register.antt =====
-- What the registration of an admin's device checks and stores
-- (backend/internal/api/admin_device_register.go).
use kalki_chat.Base.{
  ◌≡◌, true, some, [], ◌∷◌, ◌++◌, arith, Text, find_row, inl, inr, lit, Option-cases,
}
use kalki_chat.Env.{Env}
use kalki_chat.Db.{Outcome-cases, World, done, Admin}
use kalki_chat.Crypto.Jwt.{Signer, Json}
use kalki_chat.Crypto.Seal.{totp_open_sealed}
use kalki_chat.Auth.Refresh.{refresh_issue, new_token, random_base64, join_refresh}
use kalki_chat.Api.Session.{password_matches, key_32, new_device}
use kalki_chat.Api.AdminAuth.{
  RegisterRequest, RegisterResponse, has_email, totp_enc_key, opened, identify_admin, enrol_admin,
  admin_device_register,
}

-- The three factors: the admin of that address, the password, and a code for the sealed secret.
pub record Identified (v : Env) (r : RegisterRequest) (w : World) (a : Admin) : Type 0 where
  pub found : find_row (has_email (v.to_lower (v.trim_space r.email))) w.tables.admins ≡ some a
  pub word : password_matches v r.password a.password_hash ≡ true
  pub key : Text
  pub key_at : totp_enc_key v ≡ some key
  pub secret : Text
  pub secret_at : opened (totp_open_sealed v key a.totp_secret_enc) ≡ some secret
  pub valid : v.totp_valid r.totp_code secret v.now ≡ true

identify-Identified :
    (v : Env) (r : RegisterRequest) (w w' : World) (a : Admin)
    → identify_admin v r w ≡ (done a, w')
    → (w' ≡ w) × Identified v r w a
unfolding identify_admin
identify-Identified v r w w' a h = elim (Option-cases (totp_enc_key v)) [
  | inl q ↦ absurd (ground arith)
  | inr (key, q) ↦ elim (Option-cases (opened (totp_open_sealed v key a.totp_secret_enc))) [
    | inl x ↦ absurd (ground arith)
    | inr (secret, x) ↦ (
      ground arith,
      record {
        found = ground arith;
        word = ground arith;
        key = key;
        key_at = q;
        secret = secret;
        secret_at = x;
        valid = ground arith;
      },
    )
  ]
]

-- One device of the admin's, with the keys of the request, and one refresh token for it.
pub record AdminEnrolled (v : Env) (r : RegisterRequest) (a : Admin) (o : RegisterResponse)
    (w w' : World) : Type 0 where
  pub ed : Text
  pub x : Text
  pub raw : Text
  pub key_ed : key_32 v r.device.identity_ed25519 ≡ some ed
  pub key_x : key_32 v r.device.identity_x25519 ≡ some x
  pub random : random_base64 v 0 32 ≡ some raw
  pub devices :
      w'.tables.devices
      ≡ w.tables.devices ++ new_device v o.device_id (lit "admin") a.id r.device ed x ∷ []
  pub tokens :
      w'.tables.refresh_tokens
      ≡ w.tables.refresh_tokens
        ++ new_token v (v.uuid 1) o.device_id (v.uuid 2) raw v.refresh_ttl ∷ []
  pub answered : o.refresh_token ≡ join_refresh (v.uuid 1) raw
  pub for_admin : o.admin_id ≡ a.id

enrol-AdminEnrolled :
    (v : Env) (j : Json) (s : Signer) (r : RegisterRequest) (a : Admin) (w w' : World)
    (o : RegisterResponse)
    → enrol_admin v j s r a w ≡ (done o, w')
    → AdminEnrolled v r a o w w'
unfolding enrol_admin refresh_issue
enrol-AdminEnrolled v j s r a w w' o h = elim (Option-cases (key_32 v r.device.identity_ed25519)) [
  | inl p ↦ ground (arith, h, p)
  | inr (ed, p) ↦ elim (Option-cases (key_32 v r.device.identity_x25519)) [
    | inl q ↦ ground (arith, h, p, q)
    | inr (x, q) ↦ elim (Option-cases (random_base64 v 0 32)) [
      | inl z ↦ ground (arith, h, p, q, z)
      | inr (raw, z) ↦ record {
        ed = ed;
        x = x;
        raw = raw;
        key_ed = p;
        key_x = q;
        random = z;
        devices = ground (arith, h, p, q, z);
        tokens = ground (arith, h, p, q, z);
        answered = ground (arith, h, p, q, z);
        for_admin = ground (arith, h, p, q, z);
      }
    ]
  ]
]

-- If the registration of an admin's device is answered, the address is an admin's, the password and
-- the TOTP code were right, and one device of that admin's and one refresh token for it are added.
pub admin_device_register-AdminEnrolled :
    (v : Env) (j : Json) (s : Signer) (r : RegisterRequest) (w w' : World) (o : RegisterResponse)
    → admin_device_register v j s (some r) w ≡ (done o, w')
    → (a : Admin) × Identified v r w a × AdminEnrolled v r a o w w'
unfolding admin_device_register
admin_device_register-AdminEnrolled v j s r w w' o h = elim (Outcome-cases (identify_admin v r w)) [
  | inl (a, x, e) ↦
      let (same, known) = identify-Identified v r w x a e in
      (a, known, enrol-AdminEnrolled v j s r a w w' o (ground (arith, h, e, same)))
  | inr (x, y, e) ↦ absurd (ground (arith, h, e))
]

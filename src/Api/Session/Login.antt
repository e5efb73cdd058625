-- ===== src/Api/Session/Login.antt =====
-- What a login of backend/internal/api/auth.go checks and stores.
use kalki_chat.Base.{
  ◌≡◌, true, some, [], ◌∷◌, ◌++◌, arith, Text, eq_text, eq_text_iff, find_row, inl, inr, lit,
  Option-cases,
}
use kalki_chat.Env.{Env}
use kalki_chat.Db.{Outcome-cases, World, done, refused, User}
use kalki_chat.Crypto.Jwt.{Signer, Json}
use kalki_chat.Auth.Refresh.{refresh_issue, new_token, random_base64, join_refresh}
use kalki_chat.Api.Http.{HttpError}
use kalki_chat.Api.Session.{
  authenticate, enrol, auth_login, LoginRequest, LoginResponse, has_login, password_matches, key_32,
  new_device,
}

-- Who is let in.
authenticate_sound :
    (v : Env) (r : LoginRequest) (w w' : World) (u : User)
    → authenticate v r w ≡ (done u, w')
    → (w' ≡ w)
      × (find_row (has_login v (v.trim_space r.user_id)) w.tables.users ≡ some u)
      × (eq_text u.status (lit "active") ≡ true)
      × (password_matches v r.password u.password_hash ≡ true)
unfolding authenticate
authenticate_sound v r w w' u h = ground arith

authenticate_refused :
    (v : Env) (r : LoginRequest) (w w' : World) (e : HttpError)
    → authenticate v r w ≡ (refused e, w')
    → (w'.tables.devices ≡ w.tables.devices) × (w'.tables.refresh_tokens ≡ w.tables.refresh_tokens)
unfolding authenticate
authenticate_refused v r w w' e h = ground arith

-- What a login leaves: one device, of the user that was found, with the keys it came with, and one
-- refresh token, for that device.
pub record Enrolled (v : Env) (r : LoginRequest) (u : User) (a : LoginResponse) (w w' : World)
    : Type 0 where
  pub ed : Text
  pub x : Text
  pub raw : Text
  pub key_ed : key_32 v r.device.identity_ed25519 ≡ some ed
  pub key_x : key_32 v r.device.identity_x25519 ≡ some x
  pub random : random_base64 v 0 32 ≡ some raw
  pub devices :
      w'.tables.devices
      ≡ w.tables.devices ++ new_device v a.device_id (lit "user") u.id r.device ed x ∷ []
  pub tokens :
      w'.tables.refresh_tokens
      ≡ w.tables.refresh_tokens
        ++ new_token v (v.uuid 2) a.device_id (v.uuid 3) raw v.refresh_ttl ∷ []
  pub answered : a.refresh_token ≡ join_refresh (v.uuid 2) raw

enrol-Enrolled :
    (v : Env) (j : Json) (s : Signer) (r : LoginRequest) (u : User) (w w' : World)
    (a : LoginResponse)
    → enrol v j s r u w ≡ (done a, w')
    → Enrolled v r u a w w'
unfolding enrol refresh_issue
enrol-Enrolled v j s r u w w' a h = elim (Option-cases (key_32 v r.device.identity_ed25519)) [
  | inl p ↦ ground (arith, h, p)
  | inr (ed, p) ↦ elim (Option-cases (key_32 v r.device.identity_x25519)) [
    | inl q ↦ ground (arith, h, p, q)
    | inr (x, q) ↦ elim (Option-cases (random_base64 v 0 32)) [
      | inl z ↦ ground (arith, h, p, q, z)
      | inr (raw, z) ↦ record {
        ed = ed;
        x = x;
        raw = raw;
        key_ed = p;
        key_x = q;
        random = z;
        devices = ground (arith, h, p, q, z);
        tokens = ground (arith, h, p, q, z);
        answered = ground (arith, h, p, q, z);
      }
    ]
  ]
]

admitted :
    (v : Env) (j : Json) (s : Signer) (r : LoginRequest) (w w' : World) (a : LoginResponse)
    → auth_login v j s (some r) w ≡ (done a, w')
    → (u : User) × (authenticate v r w ≡ (done u, w)) × (enrol v j s r u w ≡ (done a, w'))
unfolding auth_login
admitted v j s r w w' a h = elim (Outcome-cases (authenticate v r w)) [
  | inl (u, x, e) ↦
      let same = (authenticate_sound v r w x u e).0 in
      (u, ground (arith, e, same), ground (arith, h, e, same))
  | inr (x, y, e) ↦ ground (arith, h, e)
]

-- If a login succeeds, the user found under the trimmed login name is active and the password
-- matches; both identity keys decode to 32 bytes; one device of that user with these keys is
-- added, and one refresh token, for that device, which is the one that is answered.
pub auth_login-Enrolled :
    (v : Env) (j : Json) (s : Signer) (r : LoginRequest) (w w' : World) (a : LoginResponse)
    → auth_login v j s (some r) w ≡ (done a, w')
    → (u : User) × (find_row (has_login v (v.trim_space r.user_id)) w.tables.users ≡ some u)
      × (u.status ≡ lit "active")
      × (password_matches v r.password u.password_hash ≡ true)
      × Enrolled v r u a w w'
unfolding auth_login
auth_login-Enrolled v j s r w w' a h =
    let (u, e, enrolled) = admitted v j s r w w' a h in
    let (same, found, status, word) = authenticate_sound v r w w u e in
    (
      u,
      found,
      ground (arith, eq_text_iff u.status (lit "active")),
      word,
      enrol-Enrolled v j s r u w w' a enrolled,
    )

-- ===== src/Api/Session/Ending.antt =====
-- Refresh and logout (backend/internal/api/auth.go): what a refresh asks of the device, and what a
-- logout leaves of it.
use kalki_chat.Base.{
  ℕ, ◌≡◌, ◌≢◌, refl, false, none, some, List, [], ◌∷◌, ◌++◌, arith, Text, lit, find_row, inl, inr,
  ◌⊎◌, update_rows, Option-cases, ◌∙◌,
}
use kalki_chat.Env.{Env}
use kalki_chat.Db.{World, Outcome, done, refused, Device}
use kalki_chat.Crypto.Jwt.{Claims, Signer, Json, sign}
use kalki_chat.Auth.Refresh.{RefreshError, Rotated, refresh_rotate, refresh_revoke_device}
use kalki_chat.Messages.{is_device, is_live_device}
use kalki_chat.Api.Session.{
  LoginResponse, auth_refresh, auth_logout, revoke_device, mark_revoked, device_claims,
}

rotate-devices :
    (v : Env) (presented : Text) (ttl : ℕ) (w w' : World) (o : Outcome RefreshError Rotated)
    → refresh_rotate v presented ttl w ≡ (o, w')
    → w'.tables.devices ≡ w.tables.devices
unfolding refresh_rotate
rotate-devices v presented ttl w w' o h = ground arith

RotateResult-cases :
    (p : Outcome RefreshError Rotated × World)
    → ((r : Rotated) × (w : World) × (p ≡ (done r, w)))
      ⊎ ((e : RefreshError) × (w : World) × (p ≡ (refused e, w)))
RotateResult-cases (done r, w) = inl (r, w, refl)
RotateResult-cases (refused e, w) = inr (e, w, refl)

-- A refresh that succeeds is for a device that is there and not revoked, and its access token is
-- signed for the owner that the device has.
pub auth_refresh-live :
    (v : Env) (j : Json) (s : Signer) (presented : Text) (w w' : World) (a : LoginResponse)
    → auth_refresh v j s (some presented) w ≡ (done a, w')
    → (d : Device) × (find_row (is_live_device a.device_id) w.tables.devices ≡ some d)
      × (sign v j s
            (device_claims a.device_id d.owner_id d.owner_kind (lit "kalki." ++ d.owner_kind))
          ≡ some a.access_token)
unfolding auth_refresh
auth_refresh-live v j s presented w w' a h =
    elim (RotateResult-cases (refresh_rotate v presented v.refresh_ttl w)) [
      | inr (e, x, p) ↦ ground (arith, h, p)
      | inl (r, x, p) ↦
          let same = rotate-devices v presented v.refresh_ttl w x (done r) p in
          elim (Option-cases (find_row (is_live_device r.device_id) w.tables.devices)) [
            | inl n ↦ ground (arith, h, p, n, same)
            | inr (d, n) ↦ (d, ground (arith, h, p, n, same), ground (arith, h, p, n, same))
          ]
    ]

find-revoked :
    (id : Text) (t : ℕ) (ds : List Device)
    → find_row (is_live_device id) (update_rows (is_device id) (revoke_device t) ds) ≡ none
find-revoked id t [] = refl
find-revoked id t (d ∷ ds) = ground (arith, find-revoked id t ds)

revoke-devices :
    (v : Env) (n : ℕ) (d : Text) (w : World)
    → (refresh_revoke_device v n d w).1.tables.devices ≡ w.tables.devices
unfolding refresh_revoke_device
revoke-devices v n d w = ground arith

logout-devices :
    (v : Env) (c : Claims) (w : World)
    → v.fails 0 ≡ false
    → (auth_logout v (some c) w).1.tables.devices
      ≡ update_rows (is_device c.sub) (revoke_device v.now) w.tables.devices
unfolding auth_logout
logout-devices v c w works = revoke-devices v 1 c.sub (mark_revoked v c.sub w) ∙ ground arith

-- If the update of the device in a logout does not fail, the next request for a refresh is never
-- answered for that device.
pub auth_logout_ends :
    (v v' : Env) (j : Json) (s : Signer) (c : Claims) (presented : Text) (w w' : World)
    (a : LoginResponse)
    → v.fails 0 ≡ false
    → auth_refresh v' j s (some presented) (auth_logout v (some c) w).1 ≡ (done a, w')
    → a.device_id ≢ c.sub
auth_logout_ends v v' j s c presented w w' a works h same =
    let (d, found, signed) =
      auth_refresh-live v' j s presented (auth_logout v (some c) w).1 w' a h in
    let gone = find-revoked c.sub v.now w.tables.devices in
    ground (arith, found, gone, same, logout-devices v c w works)

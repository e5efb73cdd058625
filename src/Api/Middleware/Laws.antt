-- ===== src/Api/Middleware/Laws.antt =====
-- What passes the two middlewares of backend/internal/api/middleware.go.
use kalki_chat.Base.{
  ◌≡◌, ◌≢◌, refl, false, Option, none, some, arith, is_empty, Text, lit, eq_text_iff, inl, inr, ◌⊎◌,
}
use kalki_chat.Env.{Env}
use kalki_chat.Db.{World, done}
use kalki_chat.Crypto.Jwt.{Claims, Signer, Json, Verified, ok, err, verify}
use kalki_chat.Api.Middleware.{bearer, auth_middleware, admin_auth_middleware, admin_token}

Verified-cases : (x : Verified) → ((c : Claims) × (x ≡ ok c)) ⊎ ((c : Claims) → x ≢ ok c)
Verified-cases (ok c) = inl (c, refl)
Verified-cases (err e) = inr (λ c h. cc)

-- If the middleware of the admin routes lets claims pass, a signing key is configured, the
-- session cookie, or else the bearer token, verifies under it with these claims, and their owner
-- is `admin`.
pub admin_auth_admits :
    (v : Env) (j : Json) (signer : Option Signer) (cookie : Option Text) (authorization : Text)
    (w w' : World) (c : Claims)
    → admin_auth_middleware v j signer cookie authorization w ≡ (done c, w')
    → (s : Signer) × (signer ≡ some s)
      × (verify v j s (admin_token cookie authorization).0 ≡ ok c)
      × (c.owner ≡ lit "admin")
unfolding admin_auth_middleware
admin_auth_admits v j none cookie authorization w w' c h = ground arith
admin_auth_admits v j (some s) cookie authorization w w' c h =
    (s, refl, ground arith, ground (arith, eq_text_iff c.owner (lit "admin")))

-- The other middleware asks nothing of the claims: every token that verifies is let in, that of an
-- admin who has given a password but no TOTP code yet ("admin-pre2fa") included.
pub auth_admits_any_owner :
    (v : Env) (j : Json) (s : Signer) (authorization : Text) (w : World) (c : Claims)
    → is_empty (bearer authorization) ≡ false
    → verify v j s (bearer authorization) ≡ ok c
    → (auth_middleware v j (some s) authorization w).0 ≡ done c
unfolding auth_middleware
auth_admits_any_owner v j s authorization w c full h = ground arith

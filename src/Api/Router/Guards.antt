-- ===== src/Api/Router/Guards.antt =====
-- What is served to whom (backend/internal/api/router.go).
use kalki_chat.Base.{◌≡◌, ◌≢◌, refl, arith, is_empty, lit, eq_text_iff, inl, inr, Bool-cases}
use kalki_chat.Env.{Env}
use kalki_chat.Db.{World, refused}
use kalki_chat.Crypto.Jwt.{Claims, Signer, Json, Verified, ok, err, verify}
use kalki_chat.Api.Http.{http, Code, missing_token, invalid_token, missing_session, invalid_session}
use kalki_chat.Api.Middleware.{bearer, auth_middleware, admin_auth_middleware, admin_token}
use kalki_chat.Api.Router.{
  Route, BearerRoute, AdminRoute, open_route, bearer_route, admin_route, Credentials, serve,
}

-- What a route asks of the credentials.
abbrev pub IsAdmitted : Env → Json → Signer → Credentials → Route → Type 0
IsAdmitted v j s k (open_route r) = Unit
IsAdmitted v j s k (bearer_route r) = (c : Claims) × (verify v j s (bearer k.authorization) ≡ ok c)
IsAdmitted v j s k (admin_route r) =
    (c : Claims) × (verify v j s (admin_token k.session k.authorization).0 ≡ ok c)
    × (c.owner ≡ lit "admin")

bearer_refused :
    (v : Env) (j : Json) (s : Signer) (k : Credentials) (r : BearerRoute) (w : World) (x : Verified)
    → verify v j s (bearer k.authorization) ≡ x
    → ((c : Claims) → x ≢ ok c)
    → ((code : Code) × ((serve v j s k (bearer_route r) w) ≡ (refused (http 401 code), w)))
unfolding serve auth_middleware
bearer_refused v j s k r w (ok c) e n = absurd (n c refl)
bearer_refused v j s k r w (err y) e n = elim (Bool-cases (is_empty (bearer k.authorization))) [
  | inl full ↦ (missing_token, ground (arith, e, full))
  | inr full ↦ (invalid_token, ground (arith, e, full))
]

admin_refused :
    (v : Env) (j : Json) (s : Signer) (k : Credentials) (r : AdminRoute) (w : World) (x : Verified)
    → verify v j s (admin_token k.session k.authorization).0 ≡ x
    → ((c : Claims) → x ≡ ok c → c.owner ≢ lit "admin")
    → ((code : Code) × ((serve v j s k (admin_route r) w) ≡ (refused (http 401 code), w)))
unfolding serve admin_auth_middleware
admin_refused v j s k r w (ok c) e n =
    elim (Bool-cases (is_empty (admin_token k.session k.authorization).0)) [
      | inl full ↦ (missing_session, ground (arith, e, full))
      | inr full ↦
          (invalid_session, ground (arith, e, full, n c refl, eq_text_iff c.owner (lit "admin")))
    ]
admin_refused v j s k r w (err y) e n =
    elim (Bool-cases (is_empty (admin_token k.session k.authorization).0)) [
      | inl full ↦ (missing_session, ground (arith, e, full))
      | inr full ↦ (invalid_session, ground (arith, e, full))
    ]

-- If the credentials of a request do not verify as its route asks (any verified token for the
-- routes of devices, one whose owner is `admin` for those of admins), the answer is a 401, and
-- neither the tables nor what was published changes.
pub serve_guarded :
    (v : Env) (j : Json) (s : Signer) (k : Credentials) (r : Route) (w : World)
    → ¬ (IsAdmitted v j s k r)
    → (code : Code) × (serve v j s k r w ≡ (refused (http 401 code), w))
serve_guarded v j s k (open_route r) w n = absurd (n tt)
serve_guarded v j s k (bearer_route r) w n =
    bearer_refused v j s k r w (verify v j s (bearer k.authorization)) refl (λ c e. n (c, e))
serve_guarded v j s k (admin_route r) w n =
    admin_refused v j s k r w (verify v j s (admin_token k.session k.authorization).0) refl
      (λ c e o. n (c, e, o))

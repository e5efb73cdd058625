-- ===== src/Api/Middleware.antt =====
-- backend/internal/api/middleware.go: who may call.
use kalki_chat.Base.{
  ℕ, ◌+◌, ◌≡◌, ◌≢◌, refl, Bool, true, false, not, ◌&&◌, Option, none, some, List, [], ◌∷◌, ◌++◌,
  map, arith, leb, ◌==◌, if◌then◌else◌, is_empty, Text, lit, eq_text, eq_text_iff, update_rows,
  Option-cases, inl, inr, ◌⊎◌,
}
use kalki_chat.Env.{Env}
use kalki_chat.Db.{
  Tables, Device, World, M, Outcome, done, refused, pure, refuse, ◌>>=◌, ◌>>◌, require, need,
  try_exec,
}
use kalki_chat.Crypto.Jwt.{Claims, Signer, Json, Verified, ok, err, verify}
use kalki_chat.Api.Http.{
  H, HttpError, http, missing_token, invalid_token, jwt_not_configured, missing_session,
  invalid_session,
}
pub mod Laws

-- ASCII folding is all that `strings.EqualFold` can use against "Bearer".
abbrev pub fold_byte : ℕ → ℕ
fold_byte c = if leb b'A' c && leb c b'Z' then c + 32 else c

-- `strings.SplitN(h, " ", 2)`, where a space is in the header.
unfoldable pub split_space : Text → Option (Text × Text)
split_space [] = none
split_space (c ∷ s) =
    let rest = split_space s in
    if c == b' ' then some ([], s) else elim rest [ none ↦ none | some p ↦ some (c ∷ p.0, p.1) ]

-- `bearer`: the token of the Authorization header, or nothing.
unfoldable pub bearer : Text → Text
unfolding split_space eq_text
bearer h = elim (split_space h) [
  | none ↦ []
  | some p ↦ if eq_text (map fold_byte (p.0)) (lit "bearer") then p.1 else []
]

abbrev pub set_seen : ℕ → Device → Device
set_seen t d = record d { last_seen_at = t }

-- `UPDATE devices SET last_seen_at = NOW()`, whose error is dropped.
abbrev pub touch : Env → ℕ → Text → H (Unit {0})
touch v n id = try_exec v n (λ t. some (record t {
  devices = update_rows (λ (d : Device). eq_text d.id id) (set_seen v.now) t.devices;
}))

abbrev pub verified_or : Verified → HttpError → H Claims
verified_or (ok c) e = pure c
verified_or (err x) e = refuse e

-- `authMiddleware`: the claims that the handler behind it gets. The update is call 90.
unfoldable pub auth_middleware : Env → Json → Option Signer → (authorization : Text) → H Claims
unfolding bearer
auth_middleware v j signer authorization = do
  s ← need signer (http 500 jwt_not_configured)
  let token = bearer authorization
  require (not (is_empty token)) (http 401 missing_token)
  c ← verified_or (verify v j s token) (http 401 invalid_token)
  if is_empty c.sub then pure tt else touch v 90 c.sub
  pure c

-- The token that `adminAuthMiddleware` reads, and whether it came as a bearer token.
abbrev pub admin_token : Option Text → Text → Text × Bool
admin_token (some cookie) authorization = (cookie, false)
admin_token none authorization = (bearer authorization, not (is_empty (bearer authorization)))

-- `adminAuthMiddleware`
unfoldable pub admin_auth_middleware :
    Env → Json → Option Signer → (cookie : Option Text) → (authorization : Text) → H Claims
admin_auth_middleware v j signer cookie authorization = do
  s ← need signer (http 500 jwt_not_configured)
  let token = (admin_token cookie authorization).0
  let is_bearer = (admin_token cookie authorization).1
  require (not (is_empty token)) (http 401 missing_session)
  c ← verified_or (verify v j s token) (http 401 invalid_session)
  require (eq_text c.owner (lit "admin")) (http 401 invalid_session)
  if is_bearer && not (is_empty c.sub) then touch v 90 c.sub else pure tt
  pure c

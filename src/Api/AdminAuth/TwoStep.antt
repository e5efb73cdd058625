-- ===== src/Api/AdminAuth/TwoStep.antt =====
-- What the two steps of an admin's login prove together (adminLogin and adminTOTP of
-- backend/internal/api/admin.go).
use kalki_chat.Base.{
  ◌≡◌, refl, sym, ap, ◌+◌, ◌*◌, ◌≤◌, false, is_empty, ◌∙◌, true, some, [], ◌∷◌, ◌++◌, arith, Text,
  lit, eq_text, find_row, eq_text_iff, Option-cases, inl, inr, ◌⊎◌,
}
use kalki_chat.Env.{Env, second, unix}
use kalki_chat.Db.{World, Admin, done, refused}
use kalki_chat.Crypto.Jwt.{
  Claims, Signer, Json, Verified, JwtError, ok, err, sign, verify, stamp, split_on,
}
use kalki_chat.Crypto.Jwt.Laws.{IsLawful, SameLibraries, sign-verify_only, verify-sign}
use kalki_chat.Crypto.Seal.{totp_open_sealed}
use kalki_chat.Api.Http.{http, invalid_session}
use kalki_chat.Api.Middleware.{bearer, split_space, auth_middleware, admin_auth_middleware}
use kalki_chat.Api.Session.{password_matches}
use kalki_chat.Api.AdminAuth.{
  AdminLoginRequest, pre_signer, has_email, is_admin_row, pre_claims, session_claims, admin_login,
  totp_enc_key, opened, admin_totp,
}

-- What the first step has checked.
pub record FirstStep (v : Env) (j : Json) (s : Signer) (r : AdminLoginRequest) (w : World)
    (cookie : Text) : Type 0 where
  pub admin : Admin
  pub found : find_row (has_email (v.to_lower r.email)) w.tables.admins ≡ some admin
  pub word : password_matches v r.password admin.password_hash ≡ true
  pub signed : sign v j (pre_signer s) (pre_claims admin.id) ≡ some cookie

admin_login-FirstStep :
    (v : Env) (j : Json) (s : Signer) (r : AdminLoginRequest) (w w' : World) (cookie : Text)
    → admin_login v j (some s) (some r) w ≡ (done cookie, w')
    → FirstStep v j s r w cookie
unfolding admin_login
admin_login-FirstStep v j s r w w' cookie h =
    elim (Option-cases (find_row (has_email (v.to_lower r.email)) w.tables.admins)) [
      | inl n ↦ absurd (ground arith)
      | inr (a, n) ↦ record { admin = a; found = n; word = ground arith; signed = ground arith }
    ]

Verified-split : (x : Verified) → ((c : Claims) × (x ≡ ok c)) ⊎ ((e : JwtError) × (x ≡ err e))
Verified-split (ok c) = inl (c, refl)
Verified-split (err e) = inr (e, refl)

-- What the second step has checked: the cookie's claims `c`, and a code against the secret of the
-- admin that they name.
pub record SecondStep (v : Env) (j : Json) (s : Signer) (cookie code : Text) (w : World)
    (session : Text) (c : Claims) : Type 0 where
  pub verified : verify v j (pre_signer s) cookie ≡ ok c
  pub kind : c.owner ≡ lit "admin-pre2fa"
  pub admin : Admin
  pub found : find_row (is_admin_row c.sub) w.tables.admins ≡ some admin
  pub key : Text
  pub key_at : totp_enc_key v ≡ some key
  pub secret : Text
  pub secret_at : opened (totp_open_sealed v key admin.totp_secret_enc) ≡ some secret
  pub valid : v.totp_valid code secret v.now ≡ true
  pub signed : sign v j s (session_claims c.sub) ≡ some session

admin_totp-SecondStep :
    (v : Env) (j : Json) (s : Signer) (cookie code : Text) (w w' : World) (session : Text)
    → admin_totp v j (some s) (some cookie) (some code) w ≡ (done session, w')
    → (c : Claims) × SecondStep v j s cookie code w session c
unfolding admin_totp
admin_totp-SecondStep v j s cookie code w w' session h =
    elim (Verified-split (verify v j (pre_signer s) cookie)) [
      | inr (e, n) ↦ absurd (ground arith)
      | inl (c, n) ↦ elim (Option-cases (find_row (is_admin_row c.sub) w.tables.admins)) [
        | inl m ↦ absurd (ground arith)
        | inr (a, m) ↦ elim (Option-cases (totp_enc_key v)) [
          | inl q ↦ absurd (ground arith)
          | inr (key, q) ↦ elim (Option-cases (opened (totp_open_sealed v key a.totp_secret_enc))) [
            | inl x ↦ absurd (ground arith)
            | inr (secret, x) ↦ (
              c,
              record {
                verified = n;
                kind = ground (arith, eq_text_iff c.owner (lit "admin-pre2fa"));
                admin = a;
                found = m;
                key = key;
                key_at = q;
                secret = secret;
                secret_at = x;
                valid = ground arith;
                signed = ground arith;
              },
            )
          ]
        ]
      ]
    ]

-- JSON reads the claims of a first step's token as they were written.
abbrev pub IsReadable : Env → Json → Signer → Type 0
IsReadable v j s =
    (id jti : Text)
    → j.decode_claims (j.encode_claims (stamp v (pre_signer s) jti (pre_claims id)))
      ≡ some (stamp v (pre_signer s) jti (pre_claims id))

-- If the first step of an admin's login gives out a token and the second step, perhaps later,
-- accepts it with a code, then the session is signed for the admin whose password the first step
-- has checked, and the code was valid for the secret of the admin row with that identifier; this
-- needs lawful encodings and signatures, and claims that survive JSON.
pub two_step_same_admin :
    (v v' : Env) (j : Json) (s : Signer) (r : AdminLoginRequest) (cookie code session : Text)
    (w x w' x' : World)
    → SameLibraries v v'
    → IsLawful v' s
    → IsReadable v j s
    → admin_login v j (some s) (some r) w ≡ (done cookie, x)
    → admin_totp v' j (some s) (some cookie) (some code) w' ≡ (done session, x')
    → (first : FirstStep v j s r w cookie) × (c : Claims) × (second : SecondStep v' j s cookie code
        w' session c)
      × (c.sub ≡ first.admin.id)
      × (sign v' j s (session_claims first.admin.id) ≡ some session)
two_step_same_admin v v' j s r cookie code session w x w' x' same l round h k =
    let first = admin_login-FirstStep v j s r w x cookie h in
    let (c, second) = admin_totp-SecondStep v' j s cookie code w' x' session k in
    let l' : IsLawful v' (pre_signer s) = record {
      no_dot = l.no_dot;
      decodes = l.decodes;
      verifies = l.verifies;
    } in
    let (jti, e) =
      sign-verify_only v v' j (pre_signer s) (pre_claims first.admin.id) c cookie same l' refl
        (round first.admin.id) first.signed second.verified in
    let sub = ap (λ d. d.sub) e in
    (first, c, second, sub, sym (ap (λ i. sign v' j s (session_claims i)) sub) ∙ second.signed)

not_empty :
    (v : Env) (j : Json) (s : Signer) (t : Text) (c : Claims)
    → verify v j s t ≡ ok c
    → is_empty t ≡ false
unfolding verify split_on
not_empty v j s [] c h = absurd (ground arith)
not_empty v j s (x ∷ t) c h = refl

-- The first step's signer has the same key.
verify-pre_signer :
    (v : Env) (j : Json) (s : Signer) (t : Text) → verify v j s t ≡ verify v j (pre_signer s) t
unfolding verify
verify-pre_signer v j s t = refl

bearer_lem : (t : Text) → bearer (lit "Bearer " ++ t) ≡ t
unfolding bearer split_space eq_text
bearer_lem t = refl

-- The token that the first step of an admin's login gives out is refused by the middleware of the
-- admin routes, but the middleware of the other routes lets it pass from 30 seconds before its
-- issue until it expires; this needs lawful encodings and signatures, and claims that survive
-- JSON.
pub pre2fa_opens_user_routes :
    (v v' : Env) (j : Json) (s : Signer) (r : AdminLoginRequest) (cookie authorization : Text)
    (w x w' : World)
    → SameLibraries v v'
    → IsLawful v' s
    → IsReadable v j s
    → admin_login v j (some s) (some r) w ≡ (done cookie, x)
    → unix v'.now ≤ unix (v.now + 300 * second)
    → unix v.now ≤ unix v'.now + 30
    → (c : Claims) × (c.owner ≡ lit "admin-pre2fa")
      × ((auth_middleware v' j (some s) (lit "Bearer " ++ cookie) w').0 ≡ done c)
      × ((admin_auth_middleware v' j (some s) (some cookie) authorization w').0
          ≡ refused (http 401 invalid_session))
unfolding sign auth_middleware admin_auth_middleware
pre2fa_opens_user_routes v v' j s r cookie authorization w x w' same l round h alive early =
    let first = admin_login-FirstStep v j s r w x cookie h in
    elim (Option-cases (v.random 1 16)) [
      | inl n ↦ absurd (ground (arith, first.signed))
      | inr (bytes, n) ↦
          let c = stamp v (pre_signer s) (v.url_encode bytes) (pre_claims first.admin.id) in
          let (t, signed, verified) =
            verify-sign v v' j (pre_signer s) (pre_claims first.admin.id) bytes same
              (record { no_dot = l.no_dot; decodes = l.decodes; verifies = l.verifies }) n
              (round first.admin.id (v.url_encode bytes)) alive early in
          let is_t : t ≡ cookie = ground (arith, first.signed, signed) in
          let read : verify v' j s cookie ≡ ok c =
            sym (ap (verify v' j s) is_t) ∙ verify-pre_signer v' j s t ∙ verified in
          (
            c,
            refl,
            ground (arith, read, bearer_lem cookie, not_empty v' j s cookie c read),
            ground (arith, read, not_empty v' j s cookie c read),
          )
    ]

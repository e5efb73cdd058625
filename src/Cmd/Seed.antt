-- ===== src/Cmd/Seed.antt =====
-- backend/cmd/seed/main.go: the first admin, and whether that admin can then sign in.
use kalki_chat.Base.{
  ◌≡◌, refl, sym, ap, ◌∙◌, Bool, true, false, not, ◌||◌, Option, none, some, List, [], ◌∷◌, ◌++◌,
  arith, if◌then◌else◌, is_empty, length, Text, lit, eq_text, eq_text_refl, find_row, exists_row,
  update_rows, Bool-cases, Option-cases, inl, inr, find_row-append_none, exists-find_row,
}
use kalki_chat.Env.{Env}
use kalki_chat.Db.{
  Tables, Admin, has_admin, World, M, done, refused, pure, ◌>>=◌, ◌>>◌, require, need, exec,
}
use kalki_chat.Crypto.Seal.{
  Opened, ok, err, IsAead, totp_sealed_secret, totp_open_sealed, totp_open-sealed,
}
use kalki_chat.Api.Password.{hash_password}
use kalki_chat.Api.Session.{valid_platform}
use kalki_chat.Api.AdminAuth.{has_email, totp_enc_key, opened, RegisterRequest, identify_admin}
pub mod Identified

-- The flags.
pub record SeedArgs : Type 0 where
  pub email : Text
  pub password : Text
  pub totp : Text
  pub role : Text

-- What only this program calls: the configuration and the connection, which may fail, the
-- generation of a secret for an account, encoding/base32 without padding, LOWER of Postgres, and
-- `URL.String` of a scheme, a host, a path and the values of a query.
pub record Tools : Type 0 where
  pub loads : Bool
  pub connects : Bool
  pub generate : Text → Option Text
  pub is_base32 : Text → Bool
  pub lower : Text → Text
  pub url_string : (scheme host path : Text) → List (Text × Text) → Text

-- The calls of log.Fatalf.
pub data SeedError : Type 0 where
  load_config enc_key generate_totp not_base32 bad_password seal_totp connect_db insert_admin :
      SeedError

abbrev pub resolve_secret : Tools → SeedArgs → Option Text
resolve_secret g a = if eq_text a.totp (lit "auto") then g.generate a.email else some a.totp

-- `CHECK (role IN ('admin','super_admin'))`
abbrev pub valid_role : Text → Bool
valid_role r = eq_text r (lit "admin") || eq_text r (lit "super_admin")

abbrev pub set_credentials : Admin → Admin → Admin
set_credentials new old = record old {
  password_hash = new.password_hash;
  totp_secret_enc = new.totp_secret_enc;
  role = new.role;
}

-- `INSERT INTO admins ... ON CONFLICT (email) DO UPDATE`
abbrev pub upsert_admin : Admin → Tables → Option Tables
upsert_admin a t =
    if not (valid_role a.role)
    then none
    else if exists_row (has_email a.email) t.admins
    then some (record t { admins = update_rows (has_email a.email) (set_credentials a) t.admins })
    else if has_admin a.id t
    then none
    else some (record t { admins = t.admins ++ a ∷ [] })

-- `buildOtpauth`
abbrev pub build_otpauth : Tools → (account secret : Text) → Text
build_otpauth g account secret =
    g.url_string (lit "otpauth") (lit "totp") (lit "/KalkiChat:" ++ account) (
      (lit "secret", secret)
      ∷ (lit "issuer", lit "KalkiChat")
      ∷ (lit "algorithm", lit "SHA1")
      ∷ (lit "digits", lit "6")
      ∷ (lit "period", lit "30")
      ∷ [])

-- What is printed.
pub record Seeded : Type 0 where
  pub email : Text
  pub password : Text
  pub secret : Text
  pub otpauth : Text

abbrev pub admin_row : Env → Tools → SeedArgs → (hash sealed : Text) → Admin
admin_row v g a hash sealed = record {
  id = lit "adm_" ++ v.uuid 0;
  email = g.lower a.email;
  password_hash = hash;
  totp_secret_enc = sealed;
  role = a.role;
  last_login_at = none;
}

-- `main`: the insert is call 0.
unfoldable pub seed : Env → Tools → SeedArgs → M SeedError Seeded
seed v g a = do
  require g.loads load_config
  key ← need (totp_enc_key v) enc_key
  secret ← need (resolve_secret g a) generate_totp
  require (g.is_base32 secret) not_base32
  hash ← need (hash_password v a.password) bad_password
  sealed ← need (opened (totp_sealed_secret v g.is_base32 key secret)) seal_totp
  require g.connects connect_db
  exec v 0 insert_admin (upsert_admin (admin_row v g a hash sealed))
  pure (record {
    email = a.email;
    password = a.password;
    secret = secret;
    otpauth = build_otpauth g a.email secret;
  })

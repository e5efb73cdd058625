-- ===== src/Config.antt =====
-- backend/internal/config/config.go: the configuration from environment variables, and the lifetimes
-- that backend/cmd/retention/main.go makes of it. A `time.Duration` or an `int` is the pattern of its
-- 64 bits, a number below 2 ^ 64.
use kalki_chat.Base.{
  ℕ, ◌+◌, ◌*◌, ◌%◌, ◌^◌, Bool, true, false, not, ◌&&◌, ◌||◌, Option, none, some, List, [], ◌∷◌,
  ◌++◌, ltb, if◌then◌else◌, is_empty, Text, lit,
}
use kalki_chat.Env.{Env, second, hour}
use kalki_chat.Crypto.Jwt.{split_on}
pub mod Laws

-- What `Load` reads: the variables (the empty text if unset), the files, and the parsers of strconv
-- and time; `none` is an error.
pub record Source : Type 0 where
  pub getenv : Text → Text
  pub read_file : Text → Option Text
  pub parse_duration : Text → Option ℕ
  pub atoi : Text → Option ℕ
  -- `strconv.ParseUint(s, 10, bits)`
  pub parse_uint : Text → ℕ → Option ℕ
  pub parse_bool : Text → Option Bool
  pub trim_space : Text → Text

pub record S3Config : Type 0 where
  pub endpoint : Text
  pub region : Text
  pub bucket : Text
  pub access_key : Text
  pub secret_key : Text
  pub force_path_style : Bool

pub record Argon2Config : Type 0 where
  pub memory_kib : ℕ
  pub time : ℕ
  pub parallelism : ℕ

pub record PushConfig : Type 0 where
  pub fcm_service_account_json : Text
  pub apns_key_id : Text
  pub apns_team_id : Text
  pub apns_key_p8_path : Text
  pub apns_topic : Text

pub record Settings : Type 0 where
  pub server_addr : Text
  pub public_base_url : Text
  pub allowed_origins : List Text
  pub database_url : Text
  pub redis_url : Text
  pub s3 : S3Config
  pub jwt_private_key_pem : Text
  pub jwt_public_key_pem : Text
  pub jwt_access_ttl : ℕ
  pub jwt_refresh_ttl : ℕ
  pub argon2 : Argon2Config
  pub totp_enc_key_hex : Text
  pub push : PushConfig
  pub retention_days : ℕ
  pub retention_sweep : ℕ

pub data ConfigError : Type 0 where
  bad_duration : Text → ConfigError
  bad_retention_days no_private_key_file no_public_key_file : ConfigError
  no_database_url no_redis_url no_bucket : ConfigError

pub data Loaded (A : Type 0) : Type 0 where
  loaded : A → Loaded A
  invalid : ConfigError → Loaded A

infixl 5 ◌>>=◌
abbrev pub ◌>>=◌ : {A B : Type 0} → Loaded A → (A → Loaded B) → Loaded B
loaded a >>= f = f a
invalid e >>= f = invalid e

-- `getEnv`
abbrev pub get_env : Source → Text → Text → Text
get_env o key def = if is_empty (o.getenv key) then def else o.getenv key

abbrev pub or_default {ℓ} : {A : Type ℓ} → Bool → Option A → A → A
or_default unset none def = def
or_default unset (some a) def = if unset then def else a

-- `getEnvUint32` and `getEnvUint8`
abbrev pub get_env_uint32 : Source → Text → ℕ → ℕ
get_env_uint32 o key def = or_default (is_empty (o.getenv key)) (o.parse_uint (o.getenv key) 32) def

abbrev pub get_env_uint8 : Source → Text → ℕ → ℕ
get_env_uint8 o key def = or_default (is_empty (o.getenv key)) (o.parse_uint (o.getenv key) 8) def

-- `getEnvBool`
abbrev pub get_env_bool : Source → Text → Bool → Bool
get_env_bool o key def = or_default (is_empty (o.getenv key)) (o.parse_bool (o.getenv key)) def

-- `getEnvDuration`
abbrev pub get_env_duration : Source → Text → ℕ → Loaded ℕ
get_env_duration o key def =
    if is_empty (o.getenv key) then loaded def else elim (o.parse_duration (o.getenv key)) [
      | none ↦ invalid (bad_duration key)
      | some d ↦ loaded d
    ]

-- The loop of `splitCSV`.
unfoldable pub keep_parts : Source → List Text → List Text
keep_parts o [] = []
keep_parts o (p ∷ ps) =
    let rest = keep_parts o ps in if is_empty (o.trim_space p) then rest else o.trim_space p ∷ rest

-- `splitCSV`
unfoldable pub split_csv : Source → Text → List Text
unfolding keep_parts split_on
split_csv o s = if is_empty s then [] else keep_parts o (split_on b',' s)

-- 24 hours.
abbrev pub day_ns : ℕ
day_ns = 24 * hour

-- The product of two values of 64 bits.
abbrev pub mul_64 : ℕ → ℕ → ℕ
mul_64 a b = (a * b) % 18446744073709551616

-- RETENTION_DAYS: a duration, or a number of days.
unfoldable pub load_retention : Source → Loaded ℕ
load_retention o =
    let rd = o.getenv (lit "RETENTION_DAYS") in
    if is_empty rd then loaded (30 * day_ns) else elim (o.parse_duration rd) [
      | some d ↦ loaded d
      | none ↦ elim (o.atoi rd) [
        | some n ↦ loaded (mul_64 (mul_64 n 24) hour)
        | none ↦ invalid bad_retention_days
      ]
    ]

-- A PEM that is not given itself is read from a file, where one is named.
abbrev pub load_pem : Source → (key file_key : Text) → ConfigError → Loaded Text
load_pem o key file_key e =
    if not (is_empty (o.getenv file_key)) && is_empty (o.getenv key)
    then elim (o.read_file (o.getenv file_key)) [ none ↦ invalid e | some b ↦ loaded b ]
    else loaded (o.getenv key)

-- `validate`
unfoldable pub validate_settings : Settings → Loaded Settings
validate_settings c =
    if is_empty c.database_url
    then invalid no_database_url
    else if is_empty c.redis_url
    then invalid no_redis_url
    else if is_empty c.s3.bucket
    then invalid no_bucket
    else loaded c

abbrev pub load_s3 : Source → S3Config
load_s3 o = record {
  endpoint = o.getenv (lit "S3_ENDPOINT");
  region = get_env o (lit "S3_REGION") (lit "us-east-1");
  bucket = o.getenv (lit "S3_BUCKET");
  access_key = o.getenv (lit "S3_ACCESS_KEY");
  secret_key = o.getenv (lit "S3_SECRET_KEY");
  force_path_style = get_env_bool o (lit "S3_FORCE_PATH_STYLE") true;
}

abbrev pub load_argon2 : Source → Argon2Config
load_argon2 o = record {
  memory_kib = get_env_uint32 o (lit "ARGON2_MEMORY_KIB") 65536;
  time = get_env_uint32 o (lit "ARGON2_TIME") 3;
  parallelism = get_env_uint8 o (lit "ARGON2_PARALLELISM") 2;
}

abbrev pub load_push : Source → PushConfig
load_push o = record {
  fcm_service_account_json = o.getenv (lit "FCM_SERVICE_ACCOUNT_JSON");
  apns_key_id = o.getenv (lit "APNS_KEY_ID");
  apns_team_id = o.getenv (lit "APNS_TEAM_ID");
  apns_key_p8_path = o.getenv (lit "APNS_KEY_P8_PATH");
  apns_topic = get_env o (lit "APNS_TOPIC") (lit "com.kalkichat.app");
}

-- What `Load` puts together, with the parts that can be invalid.
abbrev pub settings : Source → (access refresh sweep days : ℕ) → (private public : Text) → Settings
settings o access refresh sweep days private public = record {
  server_addr = get_env o (lit "SERVER_ADDR") (lit ":8080");
  public_base_url = get_env o (lit "PUBLIC_BASE_URL") (lit "http://localhost:8080");
  allowed_origins = split_csv o (get_env o (lit "ALLOWED_ORIGINS") (lit "http://localhost:3000"));
  database_url = o.getenv (lit "DATABASE_URL");
  redis_url = o.getenv (lit "REDIS_URL");
  s3 = load_s3 o;
  jwt_private_key_pem = private;
  jwt_public_key_pem = public;
  jwt_access_ttl = access;
  jwt_refresh_ttl = refresh;
  argon2 = load_argon2 o;
  totp_enc_key_hex = o.getenv (lit "TOTP_ENC_KEY_HEX");
  push = load_push o;
  retention_days = days;
  retention_sweep = sweep;
}

-- `Load`
unfoldable pub load : Source → Loaded Settings
unfolding load_retention validate_settings
load o = do
  access ← get_env_duration o (lit "JWT_ACCESS_TTL") (15 * 60 * second)
  refresh ← get_env_duration o (lit "JWT_REFRESH_TTL") (168 * hour)
  sweep ← get_env_duration o (lit "RETENTION_SWEEP_INTERVAL") (60 * second)
  days ← load_retention o
  private ←
      load_pem o (lit "JWT_PRIVATE_KEY_PEM") (lit "JWT_PRIVATE_KEY_PEM_FILE") no_private_key_file
  public ← load_pem o (lit "JWT_PUBLIC_KEY_PEM") (lit "JWT_PUBLIC_KEY_PEM_FILE") no_public_key_file
  validate_settings (settings o access refresh sweep days private public)

-- `MessageTTL` and `MediaTTL` of cmd/retention: `cfg.RetentionDays * 24 * time.Hour`.
abbrev pub worker_ttl : Settings → ℕ
worker_ttl c = mul_64 (mul_64 c.retention_days 24) hour

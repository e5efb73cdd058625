-- ===== src/Env.antt =====
-- What the backend calls and does not implement: the clock, the database's failures, the libraries
-- for cryptography, encodings and identifiers. Every function that uses one of them takes an `Env`.
use kalki_chat.Base.{ℕ, ◌*◌, ◌/◌, Bool, Option, Text}

pub record Env : Type 0 where
  -- The time of the request, in nanoseconds since the epoch (`time.Now()` and `NOW()`).
  pub now : ℕ
  -- Whether the n-th call of the request to Postgres or Redis fails.
  pub fails : ℕ → Bool
  -- The n-th `uuid.NewString()` of the request.
  pub uuid : ℕ → Text
  -- The n-th read of `rand.Reader`, for so many bytes; `none` if it fails.
  pub random : ℕ → ℕ → Option Text
  -- The n-th `rand.Int(rand.Reader, max)`.
  pub random_below : ℕ → ℕ → Option ℕ
  -- encoding/base64 (standard, and raw URL) and encoding/hex; `none` is a decoding error.
  pub base64_encode : Text → Text
  pub base64_decode : Text → Option Text
  -- What `DecodeString` returns beside an error: the bytes decoded so far.
  pub base64_prefix : Text → Text
  pub url_encode : Text → Text
  pub url_decode : Text → Option Text
  pub hex_decode : Text → Option Text
  -- crypto/sha256, crypto/ed25519, AES-GCM (key, nonce, text, additional data), argon2id, totp.
  pub sha256 : Text → Text
  pub ed25519_verify : Text → Text → Text → Bool
  pub ed25519_sign : Text → Text → Text
  pub gcm_seal : Text → Text → Text → Text → Text
  pub gcm_open : Text → Text → Text → Text → Option Text
  pub argon2_compare : Text → Text → Option Bool
  pub argon2_hash : Text → Option Text
  pub totp_valid : Text → Text → ℕ → Bool
  -- strings.ToLower, strings.TrimSpace, url.QueryEscape, and LIKE of Postgres (text, pattern).
  pub to_lower : Text → Text
  pub trim_space : Text → Text
  pub query_escape : Text → Text
  pub like : Text → Text → Bool
  -- The `media.Store` (S3): a signed URL for a key, or a failure; whether deleting a key fails.
  pub presign_put : Text → ℕ → Option Text
  pub presign_get : Text → Option Text
  pub delete_fails : Text → Bool
  -- The TTLs, in nanoseconds, and the key for TOTP secrets, of the configuration.
  pub access_ttl : ℕ
  pub refresh_ttl : ℕ
  pub totp_enc_key_hex : Text

abbrev pub nanosecond : ℕ
nanosecond = 1

abbrev pub second : ℕ
second = 1000000000

abbrev pub hour : ℕ
hour = 3600 * second

abbrev pub day : ℕ
day = 24 * hour

-- `Unix()` and `UnixMilli()` of a time.
abbrev pub unix : ℕ → ℕ
unix t = t / second

abbrev pub unix_milli : ℕ → ℕ
unix_milli t = t / 1000000

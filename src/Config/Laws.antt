-- ===== src/Config/Laws.antt =====
-- What `Load` of backend/internal/config/config.go guarantees, and the lifetimes of the worker.
use kalki_chat.Base.{
  ℕ, ◌*◌, ◌≤◌, ◌≡◌, ◌≢◌, refl, false, List, [], ◌∷◌, ◌++◌, arith, is_empty, Text, lit, All, ◌∙◌, ap,
}
use kalki_chat.Env.{second, hour}
use kalki_chat.Crypto.Jwt.{split_on}
use kalki_chat.Config.{
  Source, Settings, Loaded, loaded, invalid, load, settings, load_retention, validate_settings,
  split_csv, keep_parts, get_env_duration, load_pem, no_private_key_file, no_public_key_file, ◌>>=◌,
  worker_ttl, day_ns,
}

-- For a retention of 1 to 106751 days, as the configuration holds it, the lifetime that the
-- retention worker is given is not that time.
pub worker_ttl_wrong :
    (c : Settings) (days : ℕ)
    → 1 ≤ days
    → days ≤ 106751
    → c.retention_days ≡ days * day_ns
    → worker_ttl c ≢ days * day_ns
worker_ttl_wrong c days some_days few e h = omega arith

-- An item of a list that is separated by commas: not empty, without commas, and not padded.
pub record IsItem (o : Source) (s : Text) : Type 0 where
  pub full : is_empty s ≡ false
  pub no_comma : All (λ (c : ℕ). c ≢ b',') s
  pub trimmed : o.trim_space s ≡ s

abbrev pub join_csv : List Text → Text
join_csv [] = []
join_csv (s ∷ []) = s
join_csv (s ∷ t ∷ ts) = s ++ b',' ∷ join_csv (t ∷ ts)

split_on-one : (s : Text) → All (λ (c : ℕ). c ≢ b',') s → split_on b',' s ≡ s ∷ []
unfolding split_on
split_on-one [] a = refl
split_on-one (c ∷ s) a = ground (arith, split_on-one s a.1, a.0)

split_on-cons :
    (s t : Text) → All (λ (c : ℕ). c ≢ b',') s → split_on b',' (s ++ b',' ∷ t) ≡ s ∷ split_on b',' t
unfolding split_on
split_on-cons [] t a = refl
split_on-cons (c ∷ s) t a = ground (arith, split_on-cons s t a.1, a.0)

split-join_csv :
    (o : Source) (s : Text) (ts : List Text)
    → All (IsItem o) (s ∷ ts)
    → split_on b',' (join_csv (s ∷ ts)) ≡ s ∷ ts
split-join_csv o s [] a = split_on-one s a.0.no_comma
split-join_csv o s (t ∷ ts) a =
    split_on-cons s (join_csv (t ∷ ts)) a.0.no_comma ∙ ap (λ r. s ∷ r) (split-join_csv o t ts a.1)

keep_items : (o : Source) (ts : List Text) → All (IsItem o) ts → keep_parts o ts ≡ ts
unfolding keep_parts
keep_items o [] a = refl
keep_items o (t ∷ ts) a = ground (arith, keep_items o ts a.1, a.0.full, a.0.trimmed)

join_full : (s : Text) (ts : List Text) → is_empty s ≡ false → is_empty (join_csv (s ∷ ts)) ≡ false
join_full s [] h = h
join_full [] (t ∷ ts) h = ground arith
join_full (c ∷ s) (t ∷ ts) h = refl

-- Splitting items that were joined by commas gives the items back, if none is empty, holds a
-- comma or is padded.
pub split_csv-join :
    (o : Source) (ts : List Text) → All (IsItem o) ts → split_csv o (join_csv ts) ≡ ts
unfolding split_csv
split_csv-join o [] a = refl
split_csv-join o (s ∷ ts) a =
    ground (arith, join_full s ts a.0.full, split-join_csv o s ts a, keep_items o (s ∷ ts) a)

chain-loaded :
    (a r s d : Loaded ℕ) (p q : Loaded Text) (f : ℕ → ℕ → ℕ → ℕ → Text → Text → Settings)
    (c : Settings)
    → (a >>= λ a.
        r >>= λ r. s >>= λ s. d >>= λ d. p >>= λ p. q >>= λ q. validate_settings (f a r s d p q))
      ≡ loaded c
    → (access refresh sweep days : ℕ) × (private public : Text) × (d ≡ loaded days)
      × (validate_settings (f access refresh sweep days private public) ≡ loaded c)
chain-loaded (invalid e) r s d p q f c h = absurd (ground arith)
chain-loaded (loaded a) (invalid e) s d p q f c h = absurd (ground arith)
chain-loaded (loaded a) (loaded r) (invalid e) d p q f c h = absurd (ground arith)
chain-loaded (loaded a) (loaded r) (loaded s) (invalid e) p q f c h = absurd (ground arith)
chain-loaded (loaded a) (loaded r) (loaded s) (loaded d) (invalid e) q f c h = absurd (ground arith)
chain-loaded (loaded a) (loaded r) (loaded s) (loaded d) (loaded p) (invalid e) f c h =
    absurd (ground arith)
chain-loaded (loaded a) (loaded r) (loaded s) (loaded d) (loaded p) (loaded q) f c h =
    (a, r, s, d, p, q, refl, h)

validate_lem :
    (c d : Settings)
    → validate_settings c ≡ loaded d
    → (d ≡ c)
      × (is_empty c.database_url ≡ false)
      × (is_empty c.redis_url ≡ false)
      × (is_empty c.s3.bucket ≡ false)
unfolding validate_settings
validate_lem c d h = ground arith

-- If `Load` gives a configuration, the addresses of the database and of Redis and the bucket are not
-- empty, and the retention is what load_retention read.
pub load-required :
    (o : Source) (c : Settings)
    → load o ≡ loaded c
    → (is_empty c.database_url ≡ false)
      × (is_empty c.redis_url ≡ false)
      × (is_empty c.s3.bucket ≡ false)
      × (load_retention o ≡ loaded c.retention_days)
unfolding load
load-required o c h =
    let (access, refresh, sweep, days, private, public, e, v) =
      chain-loaded (get_env_duration o (lit "JWT_ACCESS_TTL") (15 * 60 * second))
        (get_env_duration o (lit "JWT_REFRESH_TTL") (168 * hour))
        (get_env_duration o (lit "RETENTION_SWEEP_INTERVAL") (60 * second)) (load_retention o)
        (load_pem o (lit "JWT_PRIVATE_KEY_PEM") (lit "JWT_PRIVATE_KEY_PEM_FILE")
          no_private_key_file)
        (load_pem o (lit "JWT_PUBLIC_KEY_PEM") (lit "JWT_PUBLIC_KEY_PEM_FILE") no_public_key_file)
        (settings o) c h in
    let (same, database, redis, bucket) =
      validate_lem (settings o access refresh sweep days private public) c v in
    ground (arith, same, database, redis, bucket, e)

-- ===== src/Cmd/Seed/Identified.antt =====
-- The admin that backend/cmd/seed/main.go has seeded is the one that a registration of a device finds.
use kalki_chat.Base.{
  ◌≡◌, refl, sym, ap, ◌∙◌, true, false, some, List, [], ◌∷◌, arith, is_empty, length, Text, eq_text,
  eq_text_refl, find_row, exists_row, update_rows, Bool-cases, Option-cases, inl, inr,
  find_row-append_none, exists-find_row,
}
use kalki_chat.Env.{Env}
use kalki_chat.Db.{Tables, Admin, World, done, refused}
use kalki_chat.Crypto.Seal.{
  Opened, ok, err, IsAead, totp_sealed_secret, totp_open_sealed, totp_open-sealed,
}
use kalki_chat.Api.Password.{hash_password}
use kalki_chat.Api.Session.{valid_platform}
use kalki_chat.Api.AdminAuth.{has_email, totp_enc_key, opened, RegisterRequest, identify_admin}
use kalki_chat.Cmd.Seed.{
  resolve_secret, set_credentials, upsert_admin, admin_row, seed, SeedArgs, Tools, SeedError,
  Seeded,
}

-- The row of the seeded admin.
pub record IsSeeded (v : Env) (g : Tools) (a : SeedArgs) (x : World) (out : Seeded) : Type 0 where
  pub row : Admin
  pub key : Text
  pub found : find_row (has_email (g.lower a.email)) x.tables.admins ≡ some row
  pub key_at : totp_enc_key v ≡ some key
  pub hash : hash_password v a.password ≡ some row.password_hash
  pub sealed : totp_sealed_secret v g.is_base32 key out.secret ≡ ok row.totp_secret_enc
  pub role : row.role ≡ a.role

find-updated :
    (new : Admin) (rows : List Admin)
    → exists_row (has_email new.email) rows ≡ true
    → (old : Admin) × (find_row
          (has_email new.email)
          (update_rows (has_email new.email) (set_credentials new) rows)
        ≡ some (set_credentials new old))
find-updated new [] h = absurd (ground arith)
find-updated new (y ∷ rows) h = elim (Bool-cases (eq_text y.email new.email)) [
  | inl e ↦ (y, ground (arith, e))
  | inr e ↦
      let (old, q) = find-updated new rows (ground (arith, h, e)) in (old, ground (arith, e, q))
]

-- Either way of the upsert, the first row with the email has the new credentials.
upsert-found :
    (new : Admin) (t t' : Tables)
    → upsert_admin new t ≡ some t'
    → (row : Admin) × (find_row (has_email new.email) t'.admins ≡ some row)
      × (row.password_hash ≡ new.password_hash)
      × (row.totp_secret_enc ≡ new.totp_secret_enc)
      × (row.role ≡ new.role)
upsert-found new t t' h = elim (Bool-cases (exists_row (has_email new.email) t.admins)) [
  | inl e ↦
      let (old, q) = find-updated new t.admins e in
      (set_credentials new old, ground (arith, h, e, q), refl, refl, refl)
  | inr e ↦
      let q =
        find_row-append_none (has_email new.email) t.admins (new ∷ [])
          (exists-find_row (has_email new.email) t.admins e) in
      (new, ground (arith, h, e, q, eq_text_refl new.email), refl, refl, refl)
]

opened-ok : (o : Opened) (s : Text) → opened o ≡ some s → o ≡ ok s
opened-ok (ok x) s h = ground arith
opened-ok (err e) s h = absurd (ground arith)

-- From the row that the upsert leaves.
upserted :
    (v : Env) (g : Tools) (a : SeedArgs) (x : World) (out : Seeded) (key secret : Text)
    (new : Admin)
    → totp_enc_key v ≡ some key
    → hash_password v a.password ≡ some new.password_hash
    → totp_sealed_secret v g.is_base32 key secret ≡ ok new.totp_secret_enc
    → out.secret ≡ secret
    → new.email ≡ g.lower a.email
    → new.role ≡ a.role
    → (row : Admin) × (find_row (has_email new.email) x.tables.admins ≡ some row)
      × (row.password_hash ≡ new.password_hash)
      × (row.totp_secret_enc ≡ new.totp_secret_enc)
      × (row.role ≡ new.role)
    → IsSeeded v g a x out
upserted v g a x out key secret new k p o s e r (row, found, word, hidden, role) = record {
  row = row;
  key = key;
  found = ap (λ m. find_row (has_email m) x.tables.admins) (sym e) ∙ found;
  key_at = k;
  hash = p ∙ ap some (sym word);
  sealed = ap (totp_sealed_secret v g.is_base32 key) s ∙ o ∙ ap ok (sym hidden);
  role = role ∙ r;
}

seed-IsSeeded :
    (v : Env) (g : Tools) (a : SeedArgs) (w x : World) (out : Seeded)
    → seed v g a w ≡ (done out, x)
    → IsSeeded v g a x out
unfolding seed
seed-IsSeeded v g a w x out h = elim (Option-cases (totp_enc_key v)) [
  | inl k ↦ absurd (ground (arith, h, k))
  | inr (key, k) ↦ elim (Option-cases (resolve_secret g a)) [
    | inl s ↦ absurd (ground (arith, h, k, s))
    | inr (secret, s) ↦ elim (Option-cases (hash_password v a.password)) [
      | inl p ↦ absurd (ground (arith, h, k, s, p))
      | inr (hash, p) ↦ elim (Option-cases (opened (totp_sealed_secret v g.is_base32 key secret))) [
        | inl o ↦ absurd (ground (arith, h, k, s, p, o))
        | inr (sealed, o) ↦
            upserted v g a x out key secret (admin_row v g a hash sealed) k p
              (opened-ok (totp_sealed_secret v g.is_base32 key secret) sealed o)
              (ground (arith, h, k, s, p, o)) refl refl
              (upsert-found (admin_row v g a hash sealed) w.tables x.tables
                (ground (arith, h, k, s, p, o)))
      ]
    ]
  ]
]

-- A refused seeding changes nothing.
pub seed_refused :
    (v : Env) (g : Tools) (a : SeedArgs) (w x : World) (e : SeedError)
    → seed v g a w ≡ (refused e, x)
    → x ≡ w
unfolding seed
seed_refused v g a w x e h = ground arith

-- The libraries, the key for secrets and the passwords of the server are those of the seeding.
pub record IsShared (v v' : Env) : Type 0 where
  pub key : totp_enc_key v' ≡ totp_enc_key v
  pub opens : (k s : Text) → totp_open_sealed v' k s ≡ totp_open_sealed v k s
  pub argon2 : (p h : Text) → v.argon2_hash p ≡ some h → v'.argon2_compare p h ≡ some true
  pub aead : IsAead v
  pub nonce : (n : Text) → v.random 2 12 ≡ some n → length n ≡ 12

hash-argon2 : (v : Env) (p h : Text) → hash_password v p ≡ some h → v.argon2_hash p ≡ some h
hash-argon2 v p h e = ground (arith, e)

hashed-not_empty : (v : Env) (p h : Text) → hash_password v p ≡ some h → is_empty p ≡ false
hashed-not_empty v [] h e = absurd (ground (arith, e))
hashed-not_empty v (c ∷ p) h e = refl

-- If the seeding succeeds, a registration of a device with the seeded email and password, a
-- platform that is known and a code that is valid for the printed secret is identified as the
-- seeded row, whose role is the given one; this needs a server with the same libraries and key,
-- an authenticated cipher, nonces of 12 bytes, and that the query does not fail.
pub seed_identifies :
    (v v' : Env) (g : Tools) (a : SeedArgs) (w x : World) (out : Seeded) (r : RegisterRequest)
    → seed v g a w ≡ (done out, x)
    → IsShared v v'
    → v'.to_lower (v'.trim_space r.email) ≡ g.lower a.email
    → is_empty (g.lower a.email) ≡ false
    → r.password ≡ a.password
    → is_empty r.totp_code ≡ false
    → v'.totp_valid r.totp_code out.secret v'.now ≡ true
    → valid_platform r.device.platform ≡ true
    → v'.fails 0 ≡ false
    → (row : Admin) × (identify_admin v' r x ≡ (done row, x)) × (row.role ≡ a.role)
unfolding identify_admin
seed_identifies v v' g a w x out r h same email named password coded valid platform up =
    let s = seed-IsSeeded v g a w x out h in
    let opening : totp_open_sealed v' s.key s.row.totp_secret_enc ≡ ok out.secret =
      same.opens s.key s.row.totp_secret_enc
      ∙ totp_open-sealed v g.is_base32 s.key out.secret s.row.totp_secret_enc same.aead same.nonce
          s.sealed in
    let compared =
      same.argon2 a.password s.row.password_hash
        (hash-argon2 v a.password s.row.password_hash s.hash) in
    let word : is_empty a.password ≡ false =
      hashed-not_empty v a.password s.row.password_hash s.hash in
    (
      s.row,
      ground (
        arith, email, named, password, coded, valid, platform, up, s.found, s.key_at, same.key,
        opening, compared, word,
      ),
      s.role,
    )

-- ===== src/Api/AdminUsers/Create.antt =====
-- New accounts and their passwords (backend/internal/api/admin_users.go).
use kalki_chat.Base.{
  if◌then◌else◌, ℕ, zero, suc, ◌≤◌, ◌<◌, ◌≡◌, lit, refl, true, none, some, [], ◌∷◌, ◌++◌, arith,
  leb, Text, exists_row, is_empty, length, inl, inr, ◌⊎◌, Option-cases, All, Bool-cases, ◌==◌, ap,
}
use mathlib.Core.Path.{ap₂}
use kalki_chat.Env.{Env}
use kalki_chat.Db.{World, Outcome, done, refused, User}
use kalki_chat.Crypto.Jwt.{Claims}
use kalki_chat.Api.Http.{HttpError, http, bad_login, weak_password, rng_error}
use kalki_chat.Api.AdminUsers.{
  CreateRequest, CreateResponse, admin_create_user, create_account, is_login, alphabet, byte_at,
  pick, put_byte, generate_from, generate_password, new_user,
}

-- The account that a successful request makes.
pub record Created (v : Env) (r : CreateRequest) (w w' : World) (a : CreateResponse) : Type 0 where
  pub row : User
  pub password : Text
  pub users : w'.tables.users ≡ w.tables.users ++ row ∷ []
  pub named : a.login ≡ row.login
  pub identified : a.id ≡ row.id
  pub normal : row.login ≡ v.to_lower (v.trim_space r.login)
  pub formed : is_login row.login ≡ true
  pub active : row.status ≡ lit "active"
  pub temporary : row.must_change_password ≡ true
  pub hashed : v.argon2_hash password ≡ some row.password_hash
  pub long_enough : 10 ≤ length password
  pub given : (r.initial_password ≡ []) ⊎ (password ≡ r.initial_password)
  pub shown : a.initial_password ≡ (if is_empty r.initial_password then some password else none)

account-Created :
    (v : Env) (c : Claims) (r : CreateRequest) (password : Text) (w w' : World) (a : CreateResponse)
    → is_login (v.to_lower (v.trim_space r.login)) ≡ true
    → (r.initial_password ≡ []) ⊎ (password ≡ r.initial_password)
    → create_account v c r (v.to_lower (v.trim_space r.login)) password w ≡ (done a, w')
    → Created v r w w' a
unfolding create_account
account-Created v c r password w w' a good same h = elim (Option-cases (v.argon2_hash password)) [
  | inl e ↦ absurd (ground (arith, h, e))
  | inr (hash, e) ↦ record {
    row = new_user v (v.to_lower (v.trim_space r.login)) hash;
    password = password;
    users = ground (arith, h, e);
    named = ground (arith, h, e);
    identified = ground (arith, h, e);
    normal = refl;
    formed = good;
    active = refl;
    temporary = refl;
    hashed = e;
    long_enough = ground (arith, h, e);
    given = same;
    shown = ground (arith, h, e);
  }
]

-- What the request comes to: a refusal, or the account for some password.
create-cases :
    (v : Env) (c : Claims) (r : CreateRequest) (w w' : World) (o : Outcome HttpError CreateResponse)
    → admin_create_user v c (some r) w ≡ (o, w')
    → ((e : HttpError) × (o ≡ refused e) × (w' ≡ w))
      ⊎ ((password : Text) × (is_login (v.to_lower (v.trim_space r.login)) ≡ true)
          × ((r.initial_password ≡ []) ⊎ (password ≡ r.initial_password))
          × (create_account v c r (v.to_lower (v.trim_space r.login)) password w ≡ (o, w')))
unfolding admin_create_user
create-cases v c r w w' o h = elim (Bool-cases (is_login (v.to_lower (v.trim_space r.login)))) [
  | inr bad ↦ inl (http 400 bad_login, ground (arith, h, bad), ground (arith, h, bad))
  | inl good ↦ elim (Bool-cases (is_empty r.initial_password)) [
    | inr given ↦ elim (Bool-cases (leb 10 (length r.initial_password))) [
      | inl long ↦ inr (r.initial_password, good, inr refl, ground (arith, h, good, given, long))
      | inr short ↦ inl (
        http 400 weak_password,
        ground (arith, h, good, given, short),
        ground (arith, h, good, given, short),
      )
    ]
    | inl new ↦ elim (Option-cases (generate_password v 16)) [
      | inl e ↦
          inl (http 500 rng_error, ground (arith, h, good, new, e), ground (arith, h, good, new, e))
      | inr (p, e) ↦ inr (p, good, inl (ground (arith, new)), ground (arith, h, good, new, e))
    ]
  ]
]

-- If a request to create an account is answered, exactly one account is added: its login is the
-- one asked for, trimmed and in lower case, and well-formed, it is active, its password is
-- temporary, and its hash is that of a password of at least 10 bytes, which is the one the admin
-- gave and then is not answered, or, where none was given, the one that is answered.
pub admin_create_user-Created :
    (v : Env) (c : Claims) (r : CreateRequest) (w w' : World) (a : CreateResponse)
    → admin_create_user v c (some r) w ≡ (done a, w')
    → Created v r w w' a
admin_create_user-Created v c r w w' a h = elim (create-cases v c r w w' (done a) h) [
  | inl (e, is, same) ↦ absurd (ground arith)
  | inr (p, good, same, made) ↦ account-Created v c r p w w' a good same made
]

-- The documented behaviour of rand.Int: below the bound, if that is positive.
pub record IsUniform (v : Env) : Type 0 where
  pub below : (i m k : ℕ) → 1 ≤ m → v.random_below i m ≡ some k → k < m

byte_at-some : (s : Text) (k : ℕ) → k < length s → (c : ℕ) × (byte_at s k ≡ some c)
unfolding byte_at
byte_at-some [] k h = absurd (omega arith)
byte_at-some (c ∷ s) zero h = (c, refl)
byte_at-some (c ∷ s) (suc k) h = byte_at-some s k (omega arith)

-- Every byte of the text is one of the alphabet.
abbrev pub IsSpoken : Text → Type 0
IsSpoken s = All (λ (c : ℕ). exists_row (λ x. x == c) alphabet ≡ true) s

byte_at-member : (s : Text) (k c : ℕ) → byte_at s k ≡ some c → exists_row (λ x. x == c) s ≡ true
unfolding byte_at
byte_at-member [] k c h = cc
byte_at-member (x ∷ s) zero c h = ground arith
byte_at-member (x ∷ s) (suc k) c h = ground (arith, byte_at-member s k c)

pick-some :
    (v : Env) (i : ℕ)
    → IsUniform v
    → ((k : ℕ) × (v.random_below i (length alphabet) ≡ some k))
    → (c : ℕ) × (pick v i ≡ some c) × (exists_row (λ x. x == c) alphabet ≡ true)
pick-some v i u (k, e) =
    let (c, f) = byte_at-some alphabet k (u.below i (length alphabet) k (omega arith) e) in
    let there = byte_at-member alphabet k c f in (c, rw (e, pick) f, there)

generate_from_total :
    (v : Env) (i n : ℕ)
    → IsUniform v
    → ((i : ℕ) → (k : ℕ) × (v.random_below i (length alphabet) ≡ some k))
    → (p : Text) × (generate_from v i n ≡ some p) × (length p ≡ n) × IsSpoken p
unfolding generate_from
generate_from_total v i zero u r = ([], refl, refl, tt)
generate_from_total v i (suc n) u r =
    let (c, e, spoken) = pick-some v i u (r i) in
    let (p, f, l, all) = generate_from_total v (suc i) n u r in
    (c ∷ p, ap₂ put_byte e f, ap suc l, (spoken, all))

-- If the random numbers are drawn and are below their bound, a password of any length is made,
-- without an index out of range: it has that length, and each of its bytes is one of the
-- alphabet.
pub generate_password_total :
    (v : Env) (n : ℕ)
    → IsUniform v
    → ((i : ℕ) → (k : ℕ) × (v.random_below i (length alphabet) ≡ some k))
    → (p : Text) × (generate_password v n ≡ some p) × (length p ≡ n) × IsSpoken p
unfolding generate_password
generate_password_total v n u r = generate_from_total v 0 n u r

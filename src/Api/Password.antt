-- ===== src/Api/Password.antt =====
-- backend/internal/api/auth_password.go and backend/internal/auth/password.go: a user changes the
-- password.
use kalki_chat.Base.{
  ◌≤◌, ◌≡◌, ◌≢◌, Bool, true, false, not, ◌&&◌, ◌||◌, Option, none, some, arith, ltb, inl, inr,
  if◌then◌else◌, is_empty, length, Text, lit, eq_text, eq_text_iff, find_row, update_rows,
  Option-cases,
}
use kalki_chat.Env.{Env}
use kalki_chat.Db.{User, World, done, refused, ◌>>=◌, ◌>>◌, require, need, query, exec}
use kalki_chat.Crypto.Jwt.{Claims}
use kalki_chat.Api.Http.{
  H, HttpError, http, db_500, bad_json, missing_fields, not_user, password_reused, user_unknown,
  bad_credentials, weak_password,
}
use kalki_chat.Api.Session.{password_matches}

-- `Argon2idParams.Hash`: `none` is the password policy, or an error of the library.
abbrev pub hash_password : Env → Text → Option Text
hash_password v p = if ltb (length p) 10 || ltb 1024 (length p) then none else v.argon2_hash p

pub record PasswordRequest : Type 0 where
  pub current_password : Text
  pub new_password : Text

abbrev pub is_user : Text → User → Bool
is_user id u = eq_text u.id id

abbrev pub set_password : Text → User → User
set_password hash u = record u { password_hash = hash; must_change_password = false }

-- `authChangePassword`: calls 0 and 1.
unfoldable pub auth_change_password : Env → Option Claims → Option PasswordRequest → H (Unit {0})
auth_change_password v claims body = do
  c ← need claims (http 401 not_user)
  require (eq_text c.owner (lit "user")) (http 401 not_user)
  r ← need body (http 400 bad_json)
  require (not (is_empty r.current_password) && not (is_empty r.new_password))
      (http 400 missing_fields)
  require (not (eq_text r.current_password r.new_password)) (http 400 password_reused)
  found ← query v 0 db_500 (λ t. find_row (is_user c.owner_id) t.users)
  u ← need found (http 401 user_unknown)
  require (password_matches v r.current_password u.password_hash) (http 401 bad_credentials)
  hash ← need (hash_password v r.new_password) (http 400 weak_password)
  exec v 1 db_500 (λ t.
      some (record t { users = update_rows (is_user c.owner_id) (set_password hash) t.users }))

-- A refused change of password changes nothing.
pub auth_change_password_refused :
    (v : Env) (claims : Option Claims) (body : Option PasswordRequest) (w w' : World)
    (e : HttpError)
    → auth_change_password v claims body w ≡ (refused e, w')
    → w' ≡ w
unfolding auth_change_password
auth_change_password_refused v claims body w w' e h = ground arith

-- What a change of password took: a user's token, the current password of that user's row, and a new
-- one that differs from it and has 10 to 1024 bytes; the row gets the hash of the new password and
-- no longer has to change it.
pub record Changed (v : Env) (c : Claims) (r : PasswordRequest) (w w' : World) (u : User)
    (hash : Text) : Type 0 where
  pub owner : c.owner ≡ lit "user"
  pub found : find_row (is_user c.owner_id) w.tables.users ≡ some u
  pub proved : password_matches v r.current_password u.password_hash ≡ true
  pub differs : r.current_password ≢ r.new_password
  pub long_enough : 10 ≤ length r.new_password
  pub short_enough : length r.new_password ≤ 1024
  pub hashed : v.argon2_hash r.new_password ≡ some hash
  pub world : w' ≡ record w {
    tables = record w.tables {
      users = update_rows (is_user c.owner_id) (set_password hash) w.tables.users;
    };
  }

-- If a change of password succeeds, the token is a user's, the current password matches that
-- user's row, the new one differs from it and has 10 to 1024 bytes, and all that changes is that
-- the row gets its hash and need not change it any more.
pub auth_change_password-Changed :
    (v : Env) (c : Claims) (r : PasswordRequest) (w w' : World)
    → auth_change_password v (some c) (some r) w ≡ (done tt, w')
    → (u : User) × (hash : Text) × Changed v c r w w' u hash
unfolding auth_change_password
auth_change_password-Changed v c r w w' h =
    elim (Option-cases (find_row (is_user c.owner_id) w.tables.users)) [
      | inl n ↦ ground arith
      | inr (u, e) ↦ elim (Option-cases (v.argon2_hash r.new_password)) [
        | inl n ↦ ground arith
        | inr (hash, n) ↦ (
          u,
          hash,
          record {
            owner = ground (arith, eq_text_iff c.owner (lit "user"));
            found = e;
            proved = ground arith;
            differs = λ s. ground (arith, eq_text_iff r.current_password r.new_password);
            long_enough = ground arith;
            short_enough = ground arith;
            hashed = n;
            world = ground arith;
          },
        )
      ]
    ]

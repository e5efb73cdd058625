-- ===== src/Tests/Handlers.antt =====
-- Runs of the handlers.
use kalki_chat.Base.{◌≡◌, refl, true, false, some, [], ◌∷◌, ◌++◌, Text, lit, eq_text, find_row}
use kalki_chat.Db.{World, done, User}
use kalki_chat.Auth.ConstantTime.{ct_eq, ct_loop}
use kalki_chat.Auth.Refresh.{
  refresh_issue, refresh_rotate, rotate_body, split_refresh, refresh_revoke_device,
}
use kalki_chat.Crypto.Jwt.{Json, sign}
use kalki_chat.Api.Session.{
  LoginRequest, LoginResponse, auth_login, authenticate, enrol, auth_logout, auth_refresh,
  has_login, password_matches,
}
use kalki_chat.Api.Session.Login.{Enrolled, auth_login-Enrolled}
use kalki_chat.Api.Password.{
  PasswordRequest, auth_change_password, auth_change_password-Changed, Changed,
}
use kalki_chat.Tests.{env, alice, desk, key, tables, world, token, claims, boss_claims, signer}

abbrev json : Json
json = record {
  encode_header = λ kid. kid;
  encode_claims = λ c. c.sub;
  decode_claims = λ s. some (record boss_claims { exp = env.now });
}

abbrev login : LoginRequest
login = record {
  user_id = alice;
  password = lit "password-1";
  device = record {
    name = lit "tablet";
    platform = lit "ios";
    identity_ed25519 = key;
    identity_x25519 = key;
    fcm_token = [];
    apns_token = lit "a";
  };
}

abbrev logged_in : World
logged_in = (auth_login env json signer (some login) world).1

abbrev response : LoginResponse
response = record {
  access_token =
      env.url_encode (lit "k1")
      ++ b'.' ∷ env.url_encode (lit "dev_" ++ 0 ∷ [])
      ++ b'.'
        ∷ env.url_encode
            (env.url_encode (lit "k1") ++ b'.' ∷ env.url_encode (lit "dev_" ++ 0 ∷ []));
  refresh_token = 2 ∷ b'.' ∷ 54 ∷ [];
  device_id = lit "dev_" ++ 0 ∷ [];
  expires_in = 86400;
  must_change_password = true;
}

logged : auth_login env json signer (some login) world ≡ (done response, logged_in)
unfolding auth_login authenticate enrol refresh_issue sign eq_text
logged = refl

auth_login-Enrolled_example :
    (u : User) × (find_row (has_login env (env.trim_space login.user_id)) world.tables.users
      ≡ some u)
    × (u.status ≡ lit "active")
    × (password_matches env login.password u.password_hash ≡ true)
    × Enrolled env login u response world logged_in
auth_login-Enrolled_example =
    auth_login-Enrolled env json signer login world logged_in response logged

abbrev password_request : PasswordRequest
password_request = record { current_password = lit "password-1"; new_password = lit "password-2" }

abbrev changed : World
changed = (auth_change_password env (some claims) (some password_request) world).1

changes : auth_change_password env (some claims) (some password_request) world ≡ (done tt, changed)
unfolding auth_change_password eq_text
changes = refl

auth_change_password-Changed_example :
    (u : User) × (hash : Text) × Changed env claims password_request world changed u hash
auth_change_password-Changed_example =
    auth_change_password-Changed env claims password_request world changed changes

abbrev session : Text
session =
    env.url_encode (lit "k1")
    ++ b'.' ∷ env.url_encode desk
    ++ b'.' ∷ env.url_encode (env.url_encode (lit "k1") ++ b'.' ∷ env.url_encode desk)

-- One device logs out, and another refreshes its token.
abbrev two_tokens : World
two_tokens = record world {
  tables = record tables {
    refresh_tokens = token ∷ record token { id = lit "t2"; device_id = desk } ∷ [];
  };
}

abbrev logged_out : World
logged_out = (auth_logout env (some claims) two_tokens).1

abbrev refreshed : LoginResponse
refreshed = record {
  access_token = session;
  refresh_token = 0 ∷ b'.' ∷ 54 ∷ [];
  device_id = desk;
  expires_in = 86400;
  must_change_password = false;
}

refreshes :
    auth_refresh env json signer (some (lit "t2.raw")) logged_out
    ≡ (done refreshed, (auth_refresh env json signer (some (lit "t2.raw")) logged_out).1)
unfolding auth_refresh auth_logout refresh_revoke_device refresh_rotate rotate_body split_refresh
    sign eq_text ct_eq ct_loop
refreshes = refl

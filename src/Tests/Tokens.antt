-- ===== src/Tests/Tokens.antt =====
-- Runs of the refresh tokens, of the JWTs and of the comparison of hashes.
use Prim.Native.Nat.{◌-◌}
use kalki_chat.Base.{
  List, ◌+◌, ◌≡◌, ◌≢◌, ◌↔◌, refl, true, none, some, [], ◌∷◌, ◌++◌, map, arith, Text, lit, eq_text,
  eq_text_refl,
}
use kalki_chat.Env.{day}
use kalki_chat.Db.{World, done, refused, RefreshToken}
use kalki_chat.Auth.ConstantTime.{ct_eq, ct_loop, ct_eq_iff}
use kalki_chat.Auth.Refresh.{replayed, Rotated, refresh_rotate, rotate_body, split_refresh}
use kalki_chat.Env.{Env}
use kalki_chat.Auth.ConstantTime.{IsByte}
use kalki_chat.Base.{◌*◌, ◌%◌, All}
use kalki_chat.Auth.Refresh.{refresh_issue}
use kalki_chat.Auth.Refresh.Chain.{Turn, rotate_all, IsSteady, refresh_never_lost}
use kalki_chat.Auth.Refresh.Rotate.{Names}
use kalki_chat.Auth.Refresh.Family.{replay_ends_family}
use kalki_chat.Crypto.Jwt.{Claims, Json, ok, sign, verify, split_on, stamp}
use kalki_chat.Crypto.Jwt.Laws.{
  IsLawful, SameLibraries, IsSigned, NoDot, verify-sign, verify-IsSigned,
}
use kalki_chat.Tests.{env, later, phone, token, world, claims, signer}

abbrev pub presented : Text
presented = lit "t1.raw"

abbrev pub rotated : World
rotated = (refresh_rotate env presented day world).1

abbrev pub out : Rotated
out = record { token = 0 ∷ b'.' ∷ 54 ∷ []; device_id = phone; family_id = lit "f1" }

pub first : refresh_rotate env presented day world ≡ (done out, rotated)
unfolding refresh_rotate rotate_body split_refresh eq_text ct_eq ct_loop
first = refl

abbrev replay : World
replay = (refresh_rotate later presented day rotated).1

abbrev used : RefreshToken
used = record token { used_at = some env.now }

used-Names : Names rotated presented used (lit "raw")
unfolding refresh_rotate rotate_body split_refresh eq_text ct_eq ct_loop
used-Names = record { id = lit "t1"; parts = refl; found = refl }

abbrev fresh : RefreshToken
fresh = record {
  id = 0 ∷ [];
  device_id = phone;
  family_id = lit "f1";
  token_hash = 54 ∷ [];
  used_at = none;
  revoked_at = some later.now;
  expires_at = env.now + day;
}

second : refresh_rotate later presented day rotated ≡ (refused replayed, replay)
unfolding refresh_rotate rotate_body split_refresh eq_text ct_eq ct_loop
second = refl

fresh-Names : Names replay out.token fresh (54 ∷ [])
unfolding refresh_rotate rotate_body split_refresh eq_text ct_eq ct_loop
fresh-Names = record { id = 0 ∷ []; parts = refl; found = refl }

replay_ends_family_example : refresh_rotate later out.token day replay ≢ (done out, replay)
replay_ends_family_example =
    replay_ends_family later later presented out.token (lit "raw") (54 ∷ []) day day rotated replay
      replay used fresh out second used-Names fresh-Names refl

ct_eq_iff_example : (ct_eq (lit "abc") (lit "abd") ≡ true) ↔ (lit "abc" ≡ lit "abd")
ct_eq_iff_example =
    ct_eq_iff (lit "abc") (lit "abd") (omega arith, (omega arith, (omega arith, tt)))
      (omega arith, (omega arith, (omega arith, tt)))

-- The one claim set of this run.
abbrev stamped : Claims
stamped = stamp env signer (54 ∷ []) claims

abbrev pub json : Json
json = record {
  encode_header = λ kid. kid;
  encode_claims = λ c. c.sub;
  decode_claims = λ s. some stamped;
}

shifted-NoDot : (s : Text) → NoDot (env.url_encode s)
shifted-NoDot [] = tt
shifted-NoDot (c ∷ s) = (λ e. omega arith, shifted-NoDot s)

unshift : (s : Text) → map (λ c. c - 47) (map (λ c. c + 47) s) ≡ s
unshift [] = refl
unshift (c ∷ s) = ground (arith, unshift s)

pub env-IsLawful : IsLawful env signer
env-IsLawful = record {
  no_dot = shifted-NoDot;
  decodes = λ t. ground (arith, unshift t);
  verifies = λ t. eq_text_refl t;
}

pub same : SameLibraries env env
same = record { url_encode = refl; ed25519_sign = refl }

verify-sign_example :
    (t : Text) × (sign env json signer claims ≡ some t) × (verify env json signer t ≡ ok stamped)
verify-sign_example =
    verify-sign env env json signer claims (7 ∷ []) same env-IsLawful refl refl (omega arith)
      (omega arith)

abbrev header : Text
header = env.url_encode (lit "k1") ++ b'.' ∷ env.url_encode phone

abbrev jwt : Text
jwt = header ++ b'.' ∷ env.url_encode header

verified : verify env json signer jwt ≡ ok stamped
unfolding verify split_on eq_text
verified = refl

verify-IsSigned_example : IsSigned env json signer jwt stamped
verify-IsSigned_example = verify-IsSigned env json signer jwt stamped verified

-- A hash with bytes in it, a token that it issues, and two rotations, a day apart.
abbrev sha : Text → Text
sha s = map (λ c. c % 256) s

sha-IsByte : (s : Text) → All IsByte (sha s)
sha-IsByte [] = tt
sha-IsByte (c ∷ s) = (omega arith, sha-IsByte s)

abbrev today : Env
today = record env { sha256 = sha }

abbrev tomorrow : Env
tomorrow = record later { sha256 = sha }

-- Before each rotation all messages go.
abbrev turns : List Turn
turns =
    record { before = λ w. record w { tables = record w.tables { messages = [] } }; env = today }
    ∷ record {
      before = λ w. record w { tables = record w.tables { messages = [] } };
      env = tomorrow;
    }
    ∷ []

abbrev issued : World
issued = (refresh_issue today 0 3 phone [] (2 * day) world).1

issue : refresh_issue today 0 3 phone [] (2 * day) world ≡ (done (3 ∷ b'.' ∷ 54 ∷ []), issued)
unfolding refresh_issue eq_text
issue = refl

issued-IsSteady :
    IsSteady sha phone turns (2 * day) (today.now + 2 * day) issued (3 ∷ b'.' ∷ 54 ∷ [])
unfolding refresh_issue refresh_rotate rotate_body split_refresh eq_text ct_eq ct_loop
issued-IsSteady = (
  omega arith,
  record { row = λ id raw e. refl; device_row = refl },
  record {
    hashes = refl;
    dotless = (λ e. omega arith, tt);
    up = λ n. refl;
    bytes = 7 ∷ [];
    random = refl;
    fresh = refl;
  },
  (
    omega arith,
    record { row = λ id raw e. refl; device_row = refl },
    record {
      hashes = refl;
      dotless = (λ e. omega arith, tt);
      up = λ n. refl;
      bytes = 7 ∷ [];
      random = refl;
      fresh = refl;
    },
    tt,
  ),
)

refresh_never_lost_example :
    (last : Text) × (w : World) × (rotate_all turns (2 * day) (3 ∷ b'.' ∷ 54 ∷ []) issued
      ≡ (done last, w))
refresh_never_lost_example =
    refresh_never_lost sha today 0 3 phone [] (2 * day) world issued (3 ∷ b'.' ∷ 54 ∷ []) turns
      issue (λ e. omega arith, tt) refl sha-IsByte issued-IsSteady

-- ===== src/Crypto/Jwt.antt =====
-- backend/internal/crypto/jwt.go: access tokens, signed with Ed25519. JSON is a parameter.
use kalki_chat.Base.{
  ℕ, ◌+◌, ◌/◌, Bool, true, false, Option, none, some, List, [], ◌∷◌, ◌++◌, leb, ◌==◌, if◌then◌else◌,
  is_empty, Text, lit,
}
use mathlib.Core.Option
use kalki_chat.Env.{Env, unix}
pub mod Laws

pub record Claims : Type 0 where
  pub sub : Text
  pub owner_id : Text
  pub owner : Text
  pub iat : ℕ
  pub exp : ℕ
  pub jti : Text
  pub audience : Text

pub record Signer : Type 0 where
  pub priv : Text
  pub pub_key : Text
  pub kid : Text
  pub ttl : ℕ

-- encoding/json on the header (by its key id) and on the claims.
pub record Json : Type 0 where
  pub encode_header : Text → Text
  pub encode_claims : Claims → Text
  pub decode_claims : Text → Option Claims

pub data JwtError : Type 0 where
  bad_shape bad_sig_encoding bad_signature bad_claims bad_json expired issued_in_future : JwtError

pub data Verified : Type 0 where
  ok : Claims → Verified
  err : JwtError → Verified

abbrev pub dot : ℕ
dot = b'.'

-- The defaults of `Sign`: a field that is zero or empty is filled in.
abbrev pub stamp : Env → Signer → Text → Claims → Claims
stamp v s jti c = record c {
  iat = if c.iat == 0 then unix v.now else c.iat;
  exp = if c.exp == 0 then unix (v.now + s.ttl) else c.exp;
  jti = if is_empty c.jti then jti else c.jti;
}

abbrev pub signing_input : Env → Json → Signer → Claims → Text
signing_input v j s c =
    v.url_encode (j.encode_header s.kid) ++ dot ∷ v.url_encode (j.encode_claims c)

abbrev pub compact : Env → Json → Signer → Claims → Text
compact v j s c =
    signing_input v j s c ++ dot ∷ v.url_encode (v.ed25519_sign s.priv (signing_input v j s c))

-- `JWTSigner.Sign`: `none` if there is no randomness for the identifier that is wanted.
unfoldable pub sign : Env → Json → Signer → Claims → Option Text
sign v j s c =
    if is_empty c.jti
    then Option.map (λ b. compact v j s (stamp v s (v.url_encode b) c)) (v.random 1 16)
    else some (compact v j s (stamp v s [] c))

abbrev pub cons_head : ℕ → List Text → List Text
cons_head x [] = (x ∷ []) ∷ []
cons_head x (p ∷ ps) = (x ∷ p) ∷ ps

-- `strings.Split(token, ".")`
unfoldable pub split_on : ℕ → Text → List Text
split_on c [] = [] ∷ []
split_on c (x ∷ s) = let rest = split_on c s in if x == c then [] ∷ rest else cons_head x rest

-- The tests of `Verify` on the claims.
abbrev pub check_times : Env → Claims → Verified
check_times v c =
    if leb (unix v.now) c.exp
    then if leb c.iat (unix v.now + 30) then ok c else err issued_in_future
    else err expired

-- From the claims part on.
abbrev pub open_claims : Env → Json → Text → Verified
open_claims v j part = elim (v.url_decode part) [
  | none ↦ err bad_claims
  | some cb ↦ elim (j.decode_claims cb) [ none ↦ err bad_json | some c ↦ check_times v c ]
]

abbrev pub verify_parts : Env → Json → Signer → Text → Text → Text → Verified
verify_parts v j s header claims sig64 = elim (v.url_decode sig64) [
  | none ↦ err bad_sig_encoding
  | some sig ↦
      if v.ed25519_verify s.pub_key (header ++ dot ∷ claims) sig
      then open_claims v j claims
      else err bad_signature
]

abbrev pub verify_split : Env → Json → Signer → List Text → Verified
verify_split v j s (header ∷ claims ∷ sig64 ∷ []) = verify_parts v j s header claims sig64
verify_split v j s _ = err bad_shape

-- `JWTSigner.Verify`
unfoldable pub verify : Env → Json → Signer → Text → Verified
unfolding split_on
verify v j s token = verify_split v j s (split_on dot token)

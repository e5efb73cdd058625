-- ===== src/Crypto/Keys.antt =====
-- backend/internal/crypto/jwt.go: a signer from PEM texts, and the key set that the router shows.
use kalki_chat.Base.{
  ℕ, ◌≡◌, refl, ◌∙◌, Option, none, some, List, [], ◌∷◌, Text, lit, take, arith, Option-cases, ◌⊎◌,
  inl, inr,
}
use kalki_chat.Env.{Env}
use kalki_chat.Crypto.Jwt.{Signer}

-- encoding/pem and crypto/x509: the bytes of the first block, and a key of the kind that is wanted or of
-- another one.
pub data Parsed : Type 0 where
  ed25519 : Text → Parsed
  other unreadable : Parsed

pub record Pem : Type 0 where
  pub decode : Text → Option Text
  pub parse_pkcs8 : Text → Parsed
  pub parse_pkix : Text → Parsed

pub data KeyError : Type 0 where
  bad_private_pem bad_public_pem x509 not_ed25519 : KeyError

pub data Key : Type 0 where
  key : Text → Key
  no_key : KeyError → Key

abbrev pub only_ed25519 : Parsed → Key
only_ed25519 (ed25519 k) = key k
only_ed25519 other = no_key not_ed25519
only_ed25519 unreadable = no_key x509

-- `parsePrivateEd25519`
abbrev pub parse_private : Pem → Text → Key
parse_private p s = elim (p.decode s) [
  | none ↦ no_key bad_private_pem
  | some block ↦ only_ed25519 (p.parse_pkcs8 block)
]

-- `parsePublicEd25519`
abbrev pub parse_public : Pem → Text → Key
parse_public p s = elim (p.decode s) [
  | none ↦ no_key bad_public_pem
  | some block ↦ only_ed25519 (p.parse_pkix block)
]

pub data NewSigner : Type 0 where
  signer : Signer → NewSigner
  failed : KeyError → NewSigner

abbrev pub with_public : Env → Text → ℕ → Key → NewSigner
with_public v priv ttl (no_key e) = failed e
with_public v priv ttl (key k) =
    signer
      (record { priv = priv; pub_key = k; kid = v.url_encode (take 8 (v.sha256 k)); ttl = ttl })

abbrev pub with_private : Env → ℕ → Key → Key → NewSigner
with_private v ttl (no_key e) p = failed e
with_private v ttl (key k) p = with_public v k ttl p

-- `NewJWTSigner`
unfoldable pub new_signer : Env → Pem → (priv_pem pub_pem : Text) → ℕ → NewSigner
new_signer v p priv public ttl = with_private v ttl (parse_private p priv) (parse_public p public)

-- `signer` of `NewRouter`: without keys that can be read there is none.
abbrev pub signer_or_none : NewSigner → Option Signer
signer_or_none (signer s) = some s
signer_or_none (failed e) = none

-- An entry of the key set.
pub record Jwk : Type 0 where
  pub kty : Text
  pub crv : Text
  pub alg : Text
  pub kid : Text
  pub x : Text
  pub use_for : Text

-- `JWKS`
abbrev pub jwks : Env → Signer → List Jwk
jwks v s =
    record {
      kty = lit "OKP";
      crv = lit "Ed25519";
      alg = lit "EdDSA";
      kid = s.kid;
      x = v.url_encode s.pub_key;
      use_for = lit "sig";
    }
    ∷ []

-- What a signer is made from.
pub record IsMade (v : Env) (p : Pem) (priv public : Text) (ttl : ℕ) (s : Signer) : Type 0 where
  pub priv_block : Text
  pub pub_block : Text
  pub priv_read : p.decode priv ≡ some priv_block
  pub pub_read : p.decode public ≡ some pub_block
  pub priv_key : p.parse_pkcs8 priv_block ≡ ed25519 s.priv
  pub pub_key : p.parse_pkix pub_block ≡ ed25519 s.pub_key
  pub kid : s.kid ≡ v.url_encode (take 8 (v.sha256 s.pub_key))
  pub lifetime : s.ttl ≡ ttl

Parsed-ed25519 : (x : Parsed) (k : Text) → only_ed25519 x ≡ key k → x ≡ ed25519 k
Parsed-ed25519 (ed25519 y) k h = ground arith
Parsed-ed25519 other k h = absurd (ground arith)
Parsed-ed25519 unreadable k h = absurd (ground arith)

Key-cases : (k : Key) → ((t : Text) × (k ≡ key t)) ⊎ ((e : KeyError) × (k ≡ no_key e))
Key-cases (key t) = inl (t, refl)
Key-cases (no_key e) = inr (e, refl)

-- A signer is made only of two PEM texts that hold Ed25519 keys, and has those keys, a key id that is
-- the start of the hash of the public one, and the given lifetime.
pub new_signer-IsMade :
    (v : Env) (p : Pem) (priv public : Text) (ttl : ℕ) (s : Signer)
    → new_signer v p priv public ttl ≡ signer s
    → IsMade v p priv public ttl s
unfolding new_signer
new_signer-IsMade v p priv public ttl s h = elim (Option-cases (p.decode priv)) [
  | inl a ↦ absurd (ground (arith, h, a))
  | inr (b, a) ↦ elim (Key-cases (only_ed25519 (p.parse_pkcs8 b))) [
    | inr (e, k) ↦ absurd (ground (arith, h, a, k))
    | inl (x, k) ↦ elim (Option-cases (p.decode public)) [
      | inl c ↦ absurd (ground (arith, h, a, k, c))
      | inr (d, c) ↦ elim (Key-cases (only_ed25519 (p.parse_pkix d))) [
        | inr (e, l) ↦ absurd (ground (arith, h, a, k, c, l))
        | inl (y, l) ↦ record {
          priv_block = b;
          pub_block = d;
          priv_read = a;
          pub_read = c;
          priv_key = Parsed-ed25519 (p.parse_pkcs8 b) x k ∙ ground (arith, h, a, k, c, l);
          pub_key = Parsed-ed25519 (p.parse_pkix d) y l ∙ ground (arith, h, a, k, c, l);
          kid = ground (arith, h, a, k, c, l);
          lifetime = ground (arith, h, a, k, c, l);
        }
      ]
    ]
  ]
]

-- ===== src/Crypto/Seal.antt =====
-- AESGCMSeal and AESGCMOpen of backend/internal/crypto/crypto.go, and their use for TOTP secrets and
-- passwords in backend/internal/auth.
use kalki_chat.Base.{
  ℕ, ◌≤◌, ◌≡◌, refl, Bool, none, some, List, [], ◌∷◌, ◌++◌, arith, ltb, ◌==◌, if◌then◌else◌, length,
  length-append, take, drop, Text, lit, Option-cases, inl, inr, ap,
}
use kalki_chat.Env.{Env}

pub data CryptoError : Type 0 where
  bad_key too_short rng not_authentic not_base32 : CryptoError

pub data Opened : Type 0 where
  ok : Text → Opened
  err : CryptoError → Opened

-- `AESGCMSeal`: a random nonce of 12 bytes, then the ciphertext with its tag.
unfoldable pub aes_gcm_seal : Env → (key plaintext aad : Text) → Opened
aes_gcm_seal v key pt aad =
    if length key == 32
    then elim (v.random 2 12) [
      | none ↦ err rng
      | some nonce ↦ ok (nonce ++ v.gcm_seal key nonce pt aad)
    ]
    else err bad_key

-- `AESGCMOpen`
unfoldable pub aes_gcm_open : Env → (key sealed aad : Text) → Opened
aes_gcm_open v key sealed aad =
    if length key == 32
    then if ltb (length sealed) 28
      then err too_short
      else elim (v.gcm_open key (take 12 sealed) (drop 12 sealed) aad) [
        | none ↦ err not_authentic
        | some pt ↦ ok pt
      ]
    else err bad_key

-- `TOTPSealedSecret` and `TOTPOpenSealed` of backend/internal/auth/totp.go; whether a text is base32
-- is a parameter.
unfoldable pub totp_sealed_secret : Env → (Text → Bool) → (enc_key secret : Text) → Opened
unfolding aes_gcm_seal
totp_sealed_secret v is_base32 key secret =
    if is_base32 secret then aes_gcm_seal v key secret (lit "totp") else err not_base32

unfoldable pub totp_open_sealed : Env → (enc_key sealed : Text) → Opened
unfolding aes_gcm_open
totp_open_sealed v key sealed = aes_gcm_open v key sealed (lit "totp")

pub take-exact {ℓ} : {A : Type ℓ} (n : ℕ) (xs ys : List A) → length xs ≡ n → take n (xs ++ ys) ≡ xs
take-exact n [] ys h = rw (← h)
take-exact n (x ∷ xs) ys h = rw (← h) (ap (λ l. x ∷ l) (take-exact (length xs) xs ys refl))

pub drop-exact {ℓ} : {A : Type ℓ} (n : ℕ) (xs ys : List A) → length xs ≡ n → drop n (xs ++ ys) ≡ ys
drop-exact n [] ys h = rw (← h)
drop-exact n (x ∷ xs) ys h = rw (← h) (drop-exact (length xs) xs ys refl)

-- AES-GCM, as documented: what was sealed is opened under the same key, nonce and data, and a
-- ciphertext carries a tag of 16 bytes. Reads give as many bytes as were asked for.
pub record IsAead (v : Env) : Type 0 where
  pub opens : (k n p a : Text) → v.gcm_open k n (v.gcm_seal k n p a) a ≡ some p
  pub tagged : (k n p a : Text) → 16 ≤ length (v.gcm_seal k n p a)

open-seal :
    (v : Env) (key nonce pt aad : Text)
    → IsAead v
    → length key ≡ 32
    → length nonce ≡ 12
    → aes_gcm_open v key (nonce ++ v.gcm_seal key nonce pt aad) aad ≡ ok pt
unfolding aes_gcm_open
open-seal v key nonce pt aad l k n = ground (
  arith,
  take-exact 12 nonce (v.gcm_seal key nonce pt aad) n,
  drop-exact 12 nonce (v.gcm_seal key nonce pt aad) n,
  l.opens key nonce pt aad,
  l.tagged key nonce pt aad,
  length-append nonce (v.gcm_seal key nonce pt aad),
)

-- A TOTP secret that was sealed for storage is read back when it is opened under the same key.
pub totp_open-sealed :
    (v : Env) (is_base32 : Text → Bool) (key secret sealed : Text)
    → IsAead v
    → ((n : Text) → v.random 2 12 ≡ some n → length n ≡ 12)
    → totp_sealed_secret v is_base32 key secret ≡ ok sealed
    → totp_open_sealed v key sealed ≡ ok secret
unfolding totp_sealed_secret totp_open_sealed
totp_open-sealed v is_base32 key secret sealed l sized h = elim (Option-cases (v.random 2 12)) [
  | inl n ↦ ground arith
  | inr (nonce, n) ↦
      ground (arith, open-seal v key nonce secret (lit "totp") l (ground arith) (sized nonce n))
]

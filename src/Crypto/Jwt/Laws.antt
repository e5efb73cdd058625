-- ===== src/Crypto/Jwt/Laws.antt =====
-- Signing and verifying access tokens (backend/internal/crypto/jwt.go).
use kalki_chat.Base.{
  ◌+◌, ◌≤◌, ◌≡◌, ◌≢◌, refl, true, some, List, [], ◌∷◌, ◌++◌, arith, is_empty, Text, All,
  Option-cases, Bool-cases, inl, inr, ◌∙◌, ap, sym,
}
use mathlib.Core.List.{append_assoc}
use kalki_chat.Env.{Env, unix}
use kalki_chat.Crypto.Jwt.{
  Claims, Signer, Json, ok, dot, stamp, signing_input, compact, sign, split_on, verify,
  verify_split, verify_parts,
}

abbrev pub NoDot : Text → Type 0
NoDot s = All (λ c. c ≢ dot) s

-- What the code relies on in its libraries: base64url text has no dot and decodes to what was
-- encoded, and a signature by the private key verifies under the public key.
pub record IsLawful (v : Env) (s : Signer) : Type 0 where
  pub no_dot : (t : Text) → NoDot (v.url_encode t)
  pub decodes : (t : Text) → v.url_decode (v.url_encode t) ≡ some t
  pub verifies : (t : Text) → v.ed25519_verify s.pub_key t (v.ed25519_sign s.priv t) ≡ true

split-part : (p s : Text) → NoDot p → split_on dot (p ++ dot ∷ s) ≡ p ∷ split_on dot s
unfolding split_on
split-part [] s n = refl
split-part (c ∷ p) s n = ground (arith, split-part p s n.1, n.0)

split-last : (p : Text) → NoDot p → split_on dot p ≡ p ∷ []
unfolding split_on
split-last [] n = refl
split-last (c ∷ p) n = ground (arith, split-last p n.1, n.0)

split-three :
    (a b c : Text)
    → NoDot a
    → NoDot b
    → NoDot c
    → split_on dot ((a ++ dot ∷ b) ++ dot ∷ c) ≡ a ∷ b ∷ c ∷ []
split-three a b c na nb nc =
    ap (split_on dot) (append_assoc a (dot ∷ b) (dot ∷ c))
    ∙ split-part a (b ++ dot ∷ c) na
    ∙ ap (λ l. a ∷ l) (split-part b c nb ∙ ap (λ l. b ∷ l) (split-last c nc))

verify-compact :
    (v : Env) (j : Json) (s : Signer) (c : Claims)
    → IsLawful v s
    → j.decode_claims (j.encode_claims c) ≡ some c
    → unix v.now ≤ c.exp
    → c.iat ≤ unix v.now + 30
    → verify v j s (compact v j s c) ≡ ok c
unfolding verify
verify-compact v j s c l d e i =
    let h = v.url_encode (j.encode_header s.kid) in
    let b = v.url_encode (j.encode_claims c) in
    let g = v.ed25519_sign s.priv (signing_input v j s c) in
    rw
      (split-three h b (v.url_encode g) (l.no_dot (j.encode_header s.kid))
        (l.no_dot (j.encode_claims c)) (l.no_dot g))
      (ground
        (arith, l.decodes g, l.decodes (j.encode_claims c), l.verifies (signing_input v j s c)))

-- Whatever is read of a token that was signed is what was signed.
verify-compact_only :
    (v : Env) (j : Json) (s : Signer) (c d : Claims)
    → IsLawful v s
    → j.decode_claims (j.encode_claims c) ≡ some c
    → verify v j s (compact v j s c) ≡ ok d
    → d ≡ c
unfolding verify
verify-compact_only v j s c d l e k =
    let h = v.url_encode (j.encode_header s.kid) in
    let b = v.url_encode (j.encode_claims c) in
    let g = v.ed25519_sign s.priv (signing_input v j s c) in
    let split =
      split-three h b (v.url_encode g) (l.no_dot (j.encode_header s.kid))
        (l.no_dot (j.encode_claims c)) (l.no_dot g) in
    let opened : verify_parts v j s h b (v.url_encode g) ≡ ok d =
      sym (ap (verify_split v j s) split) ∙ k in
    ground (
      arith,
      opened,
      l.decodes g,
      l.decodes (j.encode_claims c),
      l.verifies (signing_input v j s c),
    )

-- The libraries agree at two moments.
pub record SameLibraries (v v' : Env) : Type 0 where
  pub url_encode : v'.url_encode ≡ v.url_encode
  pub ed25519_sign : v'.ed25519_sign ≡ v.ed25519_sign

compact-same :
    (v v' : Env) (j : Json) (s : Signer) (c : Claims)
    → SameLibraries v v'
    → compact v j s c ≡ compact v' j s c
compact-same v v' j s c same = rw (same.url_encode, same.ed25519_sign)

sign-compact :
    (v : Env) (j : Json) (s : Signer) (c : Claims) (bytes : Text)
    → v.random 1 16 ≡ some bytes
    → sign v j s c ≡ some (compact v j s (stamp v s (v.url_encode bytes) c))
unfolding sign
sign-compact v j s c bytes r = elim (Bool-cases (is_empty c.jti)) [
  | inl e ↦ rw (e, r)
  | inr e ↦ rw e
]

-- If the encodings are lawful, randomness is at hand and the stamped claims survive their
-- encoding, a claim set is signed, and the token verifies with the stamped claims at any time
-- from 30 seconds before its issue to its expiry.
pub verify-sign :
    (v v' : Env) (j : Json) (s : Signer) (c : Claims) (bytes : Text)
    → SameLibraries v v'
    → IsLawful v' s
    → v.random 1 16 ≡ some bytes
    → j.decode_claims (j.encode_claims (stamp v s (v.url_encode bytes) c))
      ≡ some (stamp v s (v.url_encode bytes) c)
    → unix v'.now ≤ (stamp v s (v.url_encode bytes) c).exp
    → (stamp v s (v.url_encode bytes) c).iat ≤ unix v'.now + 30
    → (token : Text) × (sign v j s c ≡ some token)
      × (verify v' j s token ≡ ok (stamp v s (v.url_encode bytes) c))
verify-sign v v' j s c bytes same l r d e i =
    let stamped = stamp v s (v.url_encode bytes) c in
    (
      compact v j s stamped,
      sign-compact v j s c bytes r,
      ap (verify v' j s) (compact-same v v' j s stamped same)
          ∙ verify-compact v' j s stamped l d e i,
    )

-- What a token was found to be when it verifies: three parts, of which the third is a signature of
-- the first two by the key, and the second the claims, not expired and not issued in the future.
pub record IsSigned (v : Env) (j : Json) (s : Signer) (token : Text) (c : Claims) : Type 0 where
  pub header : Text
  pub claims : Text
  pub sig64 : Text
  pub sig : Text
  pub parts : split_on dot token ≡ header ∷ claims ∷ sig64 ∷ []
  pub signature : v.url_decode sig64 ≡ some sig
  pub verified : v.ed25519_verify s.pub_key (header ++ dot ∷ claims) sig ≡ true
  pub body : Text
  pub decoded : v.url_decode claims ≡ some body
  pub content : j.decode_claims body ≡ some c
  pub not_expired : unix v.now ≤ c.exp
  pub not_early : c.iat ≤ unix v.now + 30

verify_parts_sound :
    (v : Env) (j : Json) (s : Signer) (token : Text) (c : Claims) (parts : List Text)
    → split_on dot token ≡ parts
    → verify_split v j s parts ≡ ok c
    → IsSigned v j s token c
verify_parts_sound v j s token c (h ∷ b ∷ g ∷ []) e k = elim (Option-cases (v.url_decode g)) [
  | inl n ↦ absurd (ground arith)
  | inr (sig, n) ↦ elim (Option-cases (v.url_decode b)) [
    | inl m ↦ absurd (ground arith)
    | inr (cb, m) ↦ elim (Option-cases (j.decode_claims cb)) [
      | inl q ↦ absurd (ground arith)
      | inr (c', q) ↦ record {
        header = h;
        claims = b;
        sig64 = g;
        sig = sig;
        parts = e;
        signature = n;
        verified = ground arith;
        body = cb;
        decoded = m;
        content = ground arith;
        not_expired = ground arith;
        not_early = ground arith;
      }
    ]
  ]
]
verify_parts_sound v j s token c [] e k = absurd (ground arith)
verify_parts_sound v j s token c (h ∷ []) e k = absurd (ground arith)
verify_parts_sound v j s token c (h ∷ b ∷ []) e k = absurd (ground arith)
verify_parts_sound v j s token c (h ∷ b ∷ g ∷ x ∷ r) e k = absurd (ground arith)

-- If a token verifies, it has three parts, the third is a signature of the first two under the
-- key, the second holds the claims that are returned, and these are neither expired nor issued
-- more than 30 seconds in the future.
pub verify-IsSigned :
    (v : Env) (j : Json) (s : Signer) (token : Text) (c : Claims)
    → verify v j s token ≡ ok c
    → IsSigned v j s token c
unfolding verify
verify-IsSigned v j s token c h = verify_parts_sound v j s token c (split_on dot token) refl h

-- What is read of a token that was signed earlier is what was signed.
pub sign-verify_only :
    (v v' : Env) (j : Json) (s : Signer) (c d : Claims) (token : Text)
    → SameLibraries v v'
    → IsLawful v' s
    → c.jti ≡ []
    → ((jti : Text) → j.decode_claims (j.encode_claims (stamp v s jti c)) ≡ some (stamp v s jti c))
    → sign v j s c ≡ some token
    → verify v' j s token ≡ ok d
    → (jti : Text) × (d ≡ stamp v s jti c)
unfolding sign
sign-verify_only v v' j s c d token same l z round h k = elim (Option-cases (v.random 1 16)) [
  | inl n ↦ absurd (ground arith)
  | inr (bytes, n) ↦
      let stamped = stamp v s (v.url_encode bytes) c in
      let made : compact v j s stamped ≡ token = ground arith in
      (
        v.url_encode bytes,
        verify-compact_only v' j s stamped d l (round (v.url_encode bytes))
            (ap (verify v' j s) (sym (compact-same v v' j s stamped same) ∙ made) ∙ k),
      )
]

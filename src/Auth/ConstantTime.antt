-- ===== src/Auth/ConstantTime.antt =====
-- `ctEq` of backend/internal/auth/refresh.go.
use Prim.Native.Nat.{bit_or, bit_xor}
use kalki_chat.Base.{
  ℕ, zero, suc, ◌<◌, ◌≡◌, ◌↔◌, refl, Bool, true, false, ◌&&◌, [], ◌∷◌, arith, ◌==◌, ltb,
  if◌then◌else◌, length, Text, All,
}

-- `v |= a[i] ^ b[i]` over the bytes.
unfoldable pub ct_loop : ℕ → Text → Text → ℕ
ct_loop v [] bs = v
ct_loop v (a ∷ as') [] = v
ct_loop v (a ∷ as') (b ∷ bs) = ct_loop (bit_or v (bit_xor a b)) as' bs

unfoldable pub ct_eq : Text → Text → Bool
unfolding ct_loop
ct_eq a b = if length a == length b then ct_loop 0 a b == 0 else false

abbrev pub IsByte : ℕ → Type 0
IsByte n = n < 256

-- Whether a test holds of each number under a bound; the bytes are tried one by one.
holds_under : (ℕ → Bool) → ℕ → Bool
holds_under test zero = true
holds_under test (suc top) = if test top then holds_under test top else false

holds_under_lem :
    (test : ℕ → Bool) (bound byte : ℕ)
    → holds_under test bound ≡ true
    → byte < bound
    → test byte ≡ true
unfolding holds_under
holds_under_lem test zero byte all below = absurd (omega arith)
holds_under_lem test (suc top) byte all below = ground (arith, holds_under_lem test top byte)

abbrev same : Bool → Bool → Bool
same true b = b
same false true = false
same false false = true

abbrev or_fact : ℕ → ℕ → Bool
or_fact v z = ltb (bit_or v z) 256 && same (bit_or v z == 0) (v == 0 && z == 0)

abbrev xor_fact : ℕ → ℕ → Bool
xor_fact x y = ltb (bit_xor x y) 256 && same (bit_xor x y == 0) (x == y)

or_table : holds_under (λ v. holds_under (or_fact v) 256) 256 ≡ true
unfolding holds_under
or_table = refl

xor_table : holds_under (λ x. holds_under (xor_fact x) 256) 256 ≡ true
unfolding holds_under
xor_table = refl

or_byte : (v z : ℕ) → IsByte v → IsByte z → or_fact v z ≡ true
or_byte v z hv hz =
    holds_under_lem (or_fact v) 256 z
      (holds_under_lem (λ v. holds_under (or_fact v) 256) 256 v or_table hv) hz

xor_byte : (x y : ℕ) → IsByte x → IsByte y → xor_fact x y ≡ true
xor_byte x y hx hy =
    holds_under_lem (xor_fact x) 256 y
      (holds_under_lem (λ x. holds_under (xor_fact x) 256) 256 x xor_table hx) hy

or_zero :
    (v z : ℕ) → IsByte v → IsByte z → IsByte (bit_or v z) × ((bit_or v z ≡ 0) ↔ ((v ≡ 0) × (z ≡ 0)))
or_zero v z hv hz = ground (arith, or_byte v z hv hz)

xor_zero : (x y : ℕ) → IsByte x → IsByte y → IsByte (bit_xor x y) × ((bit_xor x y ≡ 0) ↔ (x ≡ y))
xor_zero x y hx hy = ground (arith, xor_byte x y hx hy)

ct_loop_zero :
    (v : ℕ) (a b : Text)
    → IsByte v
    → All IsByte a
    → All IsByte b
    → length a ≡ length b
    → (ct_loop v a b ≡ 0) ↔ ((v ≡ 0) × (a ≡ b))
unfolding ct_loop
ct_loop_zero v [] [] hv ha hb l = ((λ e. (e, refl)), λ p. p.0)
ct_loop_zero v [] (y ∷ ys) hv ha hb l = absurd (omega arith)
ct_loop_zero v (x ∷ xs) [] hv ha hb l = absurd (omega arith)
ct_loop_zero v (x ∷ xs) (y ∷ ys) hv ha hb l =
    let z = xor_zero x y ha.0 hb.0 in
    let o = or_zero v (bit_xor x y) hv z.0 in
    ground (arith, ct_loop_zero (bit_or v (bit_xor x y)) xs ys o.0 ha.1 hb.1 (omega arith))

-- On byte strings the constant-time comparison says true exactly when the two are equal.
pub ct_eq_iff : (a b : Text) → All IsByte a → All IsByte b → (ct_eq a b ≡ true) ↔ (a ≡ b)
unfolding ct_eq
ct_eq_iff a b ha hb = ground (arith, ct_loop_zero 0 a b (omega arith) ha hb)

-- A byte string equals itself.
pub ct_eq_refl : (a : Text) → All IsByte a → ct_eq a a ≡ true
ct_eq_refl a h = (ct_eq_iff a a h h).1 refl

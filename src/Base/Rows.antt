-- ===== src/Base/Rows.antt =====
-- Tables as lists of rows: what the SQL statements of the backend do with them.
use Prim.Native.Nat.{ℕ, ◌+◌}
use mathlib.Core.Path.{◌≡◌, refl}
use mathlib.Core.Bool.{Bool, true, false, ◌||◌}
use mathlib.Core.Option.{Option, none, some}
use mathlib.Core.List.{List, [], ◌∷◌, ◌++◌}
use native.Mathlib.Omega.{arith}
use mathlib.Core.Logic.{inl, inr}
use kalki_chat.Base.Tests.{if◌then◌else◌, Bool-cases}

module _ {ℓ} {A : Type ℓ} where
  -- `SELECT ... WHERE p LIMIT 1`
  abbrev pub find_row : (A → Bool) → List A → Option A
  find_row p [] = none
  find_row p (x ∷ xs) = if p x then some x else find_row p xs

  -- `SELECT EXISTS (SELECT 1 ... WHERE p)`
  abbrev pub exists_row : (A → Bool) → List A → Bool
  exists_row p [] = false
  exists_row p (x ∷ xs) = p x || exists_row p xs

  -- `SELECT ... WHERE p`
  abbrev pub select_rows : (A → Bool) → List A → List A
  select_rows p [] = []
  select_rows p (x ∷ xs) = let rest = select_rows p xs in if p x then x ∷ rest else rest

  -- `DELETE ... WHERE p`
  abbrev pub delete_rows : (A → Bool) → List A → List A
  delete_rows p [] = []
  delete_rows p (x ∷ xs) = let rest = delete_rows p xs in if p x then rest else x ∷ rest

  -- `UPDATE ... SET f WHERE p`
  abbrev pub update_rows : (A → Bool) → (A → A) → List A → List A
  update_rows p f [] = []
  update_rows p f (x ∷ xs) = (if p x then f x else x) ∷ update_rows p f xs

  -- `SELECT COUNT(*) ... WHERE p`
  abbrev pub count_rows : (A → Bool) → List A → ℕ
  count_rows p [] = 0
  count_rows p (x ∷ xs) = (if p x then 1 else 0) + count_rows p xs

  -- A stable insertion: `le x y` says that `x` may stand before `y`.
  abbrev pub insert_row : (A → A → Bool) → A → List A → List A
  insert_row le x [] = x ∷ []
  insert_row le x (y ∷ ys) = if le x y then x ∷ y ∷ ys else y ∷ insert_row le x ys

  -- `ORDER BY`
  abbrev pub order_rows : (A → A → Bool) → List A → List A
  order_rows le [] = []
  order_rows le (x ∷ xs) = insert_row le x (order_rows le xs)

module _ {ℓ} {A : Type ℓ} where
  pub find_row_sound : (p : A → Bool) (xs : List A) (x : A) → find_row p xs ≡ some x → p x ≡ true
  find_row_sound p [] x h = cc
  find_row_sound p (y ∷ ys) x h = elim (Bool-cases (p y)) [
    | inl e ↦ ground (arith, e)
    | inr e ↦ find_row_sound p ys x (ground (arith, e))
  ]

  pub count-append :
      (p : A → Bool) (xs ys : List A) → count_rows p (xs ++ ys) ≡ count_rows p xs + count_rows p ys
  count-append p [] ys = omega arith
  count-append p (x ∷ xs) ys = omega (arith, count-append p xs ys)

  pub find_row-append_some :
      (p : A → Bool) (xs ys : List A) (x : A)
      → find_row p xs ≡ some x
      → find_row p (xs ++ ys) ≡ some x
  find_row-append_some p [] ys x h = cc
  find_row-append_some p (y ∷ xs) ys x h = ground (arith, find_row-append_some p xs ys x)

  pub find_row-append_none :
      (p : A → Bool) (xs ys : List A) → find_row p xs ≡ none → find_row p (xs ++ ys) ≡ find_row p ys
  find_row-append_none p [] ys h = refl
  find_row-append_none p (y ∷ xs) ys h = ground (arith, find_row-append_none p xs ys)

  pub exists-find_row :
      (p : A → Bool) (xs : List A) → exists_row p xs ≡ false → find_row p xs ≡ none
  exists-find_row p [] h = refl
  exists-find_row p (y ∷ xs) h = ground (arith, exists-find_row p xs)

  pub find-exists_row :
      (p : A → Bool) (xs : List A) → find_row p xs ≡ none → exists_row p xs ≡ false
  find-exists_row p [] h = refl
  find-exists_row p (y ∷ xs) h = ground (arith, find-exists_row p xs)

  pub exists-append :
      (p : A → Bool) (xs : List A) (y : A) → exists_row p (xs ++ y ∷ []) ≡ (exists_row p xs || p y)
  exists-append p [] y = ground arith
  exists-append p (x ∷ xs) y = ground (arith, exists-append p xs y)

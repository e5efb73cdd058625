-- ===== src/Auth/Refresh/Split.antt =====
-- The text of a refresh token (splitRefresh in backend/internal/auth/refresh.go).
use kalki_chat.Base.{◌≡◌, ◌≢◌, refl, some, [], ◌∷◌, arith, Text, All, inl, inr, Option-cases}
use kalki_chat.Auth.Refresh.{split_refresh, join_refresh}

-- Splitting what `id + "." + raw` joined gives the two parts back, if the id has no dot.
pub split-join_refresh :
    (id raw : Text) → All (λ c. c ≢ b'.') id → split_refresh (join_refresh id raw) ≡ some (id, raw)
unfolding split_refresh
split-join_refresh [] raw h = refl
split-join_refresh (c ∷ s) raw h = ground (arith, split-join_refresh s raw h.1, h.0)

-- Whatever is split was joined so.
pub join-split_refresh :
    (s id raw : Text)
    → split_refresh s ≡ some (id, raw)
    → (s ≡ join_refresh id raw) × All (λ c. c ≢ b'.') id
unfolding split_refresh
join-split_refresh [] id raw e = cc
join-split_refresh (c ∷ s) [] raw e = ground (arith, Option-cases (split_refresh s))
join-split_refresh (c ∷ s) (d ∷ id) raw e = elim (Option-cases (split_refresh s)) [
  | inl n ↦ ground arith
  | inr (p, n) ↦ ground (arith, join-split_refresh s id raw)
]

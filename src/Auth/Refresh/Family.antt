-- ===== src/Auth/Refresh/Family.antt =====
-- Families of refresh tokens (backend/internal/auth/refresh.go): a token is used once, a family has
-- one usable token at most, and a replay ends the family.
use kalki_chat.Base.{
  ℕ, ◌+◌, ◌≤◌, ◌≡◌, ◌≢◌, Bool, true, false, ◌&&◌, some, List, [], ◌∷◌, arith, inl, inr, is_none,
  Text, eq_text, eq_text_refl, eq_text_iff, find_row, find_row_sound, find_row-append_some,
  update_rows, count_rows, count-append, All, ◌∙◌, sym, subst,
}
use kalki_chat.Env.{Env}
use kalki_chat.Db.{RefreshToken, World, Outcome, done, refused}
use kalki_chat.Auth.Refresh.{
  RefreshError, replayed, Rotated, is_token, new_token, set_used, set_revoked, is_live_in,
  refresh_rotate,
}
use kalki_chat.Auth.Refresh.Rotate.{
  Names, refresh_rotate-Rotation, refresh_rotate-Replay, refresh_rotate_refused,
}

-- An update by the key of the row that was found is seen by the next search for that key.
pub find-update_found :
    (id : Text) (t : ℕ) (xs : List RefreshToken) (r : RefreshToken)
    → find_row (is_token id) xs ≡ some r
    → find_row (is_token id) (update_rows (is_token r.id) (set_used t) xs) ≡ some (set_used t r)
find-update_found id t [] r h = cc
find-update_found id t (x ∷ xs) r h = ground (
  arith,
  find-update_found id t xs r,
  eq_text_iff x.id id,
  eq_text_iff x.id r.id,
  eq_text_iff r.id id,
  find_row_sound (is_token id) (x ∷ xs) r h,
)

-- A refresh token whose rotation succeeded is never rotated again by the next request, whatever
-- that request's time, randomness and failures.
pub refresh_rotate_single_use :
    (v v' : Env) (presented : Text) (ttl ttl' : ℕ) (w w' w'' : World) (out out' : Rotated)
    → refresh_rotate v presented ttl w ≡ (done out, w')
    → refresh_rotate v' presented ttl' w' ≢ (done out', w'')
refresh_rotate_single_use v v' presented ttl ttl' w w' w'' out out' h h' =
    let (r, raw, raw_new, a) = refresh_rotate-Rotation v presented ttl w w' out h in
    let (r', raw', raw_new', b) = refresh_rotate-Rotation v' presented ttl' w' w'' out' h' in
    let seen =
      find_row-append_some (is_token a.names.id)
        (update_rows (is_token r.id) (set_used v.now) w.tables.refresh_tokens)
        (new_token v (v.uuid 0) r.device_id r.family_id raw_new ttl ∷ []) (set_used v.now r)
        (find-update_found a.names.id v.now w.tables.refresh_tokens r a.names.found) in
    ground (arith, seen, a.names.parts, b.names.parts, b.names.found, a.rows, b.unused)

-- A token that the code would still take for a first use.
abbrev pub is_usable : Text → RefreshToken → Bool
is_usable family r = eq_text r.family_id family && (is_none r.used_at && is_none r.revoked_at)

abbrev pub usable_in : Text → World → ℕ
usable_in family w = count_rows (is_usable family) w.tables.refresh_tokens

count-used_le :
    (f id : Text) (t : ℕ) (xs : List RefreshToken)
    → count_rows (is_usable f) (update_rows (is_token id) (set_used t) xs)
      ≤ count_rows (is_usable f) xs
count-used_le f id t [] = omega arith
count-used_le f id t (x ∷ xs) = ground (arith, count-used_le f id t xs)

count-used :
    (f id : Text) (t : ℕ) (xs : List RefreshToken) (r : RefreshToken)
    → find_row (is_token id) xs ≡ some r
    → is_usable f r ≡ true
    → count_rows (is_usable f) (update_rows (is_token r.id) (set_used t) xs) + 1
      ≤ count_rows (is_usable f) xs
count-used f id t [] r h u = cc
count-used f id t (x ∷ xs) r h u = ground (
  arith,
  count-used f id t xs r,
  count-used_le f r.id t xs,
  eq_text_iff x.id r.id,
  eq_text_refl x.id,
)

count-revoked_le :
    (f : Text) (p : RefreshToken → Bool) (t : ℕ) (xs : List RefreshToken)
    → count_rows (is_usable f) (update_rows p (set_revoked t) xs) ≤ count_rows (is_usable f) xs
count-revoked_le f p t [] = omega arith
count-revoked_le f p t (x ∷ xs) = ground (arith, count-revoked_le f p t xs)

-- A rotation, successful or refused, never raises the number of usable tokens (unused and
-- unrevoked) of any family.
pub refresh_rotate_keeps_usable :
    (v : Env) (presented f : Text) (ttl : ℕ) (w w' : World) (o : Outcome RefreshError Rotated)
    → refresh_rotate v presented ttl w ≡ (o, w')
    → usable_in f w' ≤ usable_in f w
refresh_rotate_keeps_usable v presented f ttl w w' (done out) h =
    let (r, raw, raw_new, a) = refresh_rotate-Rotation v presented ttl w w' out h in
    let xs = w.tables.refresh_tokens in
    let fresh = new_token v (v.uuid 0) r.device_id r.family_id raw_new ttl in
    ground (
      arith,
      a.rows,
      count-append (is_usable f) (update_rows (is_token r.id) (set_used v.now) xs) (fresh ∷ []),
      count-used f a.names.id v.now xs r a.names.found,
      count-used_le f r.id v.now xs,
      a.live,
      a.unused,
    )
refresh_rotate_keeps_usable v presented f ttl w w' (refused e) h =
    elim (refresh_rotate_refused v presented ttl w w' e h) [
      | inl again ↦
          let (r, raw, a) = refresh_rotate-Replay v presented ttl w w' (h ∙ ground arith) in
          ground (
            arith,
            a.world,
            count-revoked_le f (is_live_in r.family_id) v.now w.tables.refresh_tokens,
          )
      | inr same ↦ ground arith
    ]

-- No row of the family is live.
abbrev pub IsRevoked : Text → List RefreshToken → Type 0
IsRevoked f xs = All (λ (r : RefreshToken). is_live_in f r ≡ false) xs

revoke-IsRevoked :
    (f : Text) (t : ℕ) (xs : List RefreshToken)
    → IsRevoked f (update_rows (is_live_in f) (set_revoked t) xs)
revoke-IsRevoked f t [] = tt
revoke-IsRevoked f t (x ∷ xs) = ground (arith, revoke-IsRevoked f t xs)

find-IsRevoked :
    (f id : Text) (xs : List RefreshToken) (r : RefreshToken)
    → IsRevoked f xs
    → find_row (is_token id) xs ≡ some r
    → is_live_in f r ≡ false
find-IsRevoked f id [] r a h = cc
find-IsRevoked f id (x ∷ xs) r a h = ground (arith, find-IsRevoked f id xs r a.1, a.0)

-- After a rotation that ended as a replay, no token that names a row of the same family can be
-- rotated by the next request, the one that was issued last included.
pub replay_ends_family :
    (v v' : Env) (presented other raw raw' : Text) (ttl ttl' : ℕ) (w w' w'' : World)
    (r r' : RefreshToken) (out : Rotated)
    → refresh_rotate v presented ttl w ≡ (refused replayed, w')
    → Names w presented r raw
    → Names w' other r' raw'
    → r'.family_id ≡ r.family_id
    → refresh_rotate v' other ttl' w' ≢ (done out, w'')
replay_ends_family v v' presented other raw raw' ttl ttl' w w' w'' r r' out h n n' same h' =
    let (s, sraw, a) = refresh_rotate-Replay v presented ttl w w' h in
    let (t, traw, traw_new, b) = refresh_rotate-Rotation v' other ttl' w' w'' out h' in
    let one : s ≡ r = ground (arith, a.names.parts, a.names.found, n.parts, n.found) in
    let two : t ≡ r' = ground (arith, b.names.parts, b.names.found, n'.parts, n'.found) in
    let gone : IsRevoked s.family_id w'.tables.refresh_tokens =
      subst (λ (u : World). IsRevoked s.family_id u.tables.refresh_tokens) (sym a.world)
        (revoke-IsRevoked s.family_id v.now w.tables.refresh_tokens) in
    let off = find-IsRevoked s.family_id n'.id w'.tables.refresh_tokens r' gone n'.found in
    ground (arith, off, one, two, b.live, eq_text_iff r'.family_id s.family_id)

-- ===== src/Auth/Refresh/Chain.antt =====
-- Rotations one after the other (backend/internal/auth/refresh.go).
use kalki_chat.Base.{
  ℕ, subst, ◌+◌, ◌≤◌, ◌≡◌, ◌≢◌, refl, sym, ap, ◌∙◌, some, List, [], ◌∷◌, arith, Text, All, find_row,
}
use kalki_chat.Env.{Env}
use kalki_chat.Db.{World, Outcome, done, refused, has_device}
use kalki_chat.Auth.ConstantTime.{IsByte}
use kalki_chat.Auth.Refresh.{
  RefreshError, Rotated, join_refresh, refresh_issue, refresh_rotate, split_refresh, is_token,
}
use kalki_chat.Auth.Refresh.Alive.{IsGood, IsSmooth, issue-IsGood, rotate_good, rotate-IsGood}

-- A rotation, and whatever else happens to the world before it: other requests, sweeps, anything.
pub record Turn : Type 0 where
  pub before : World → World
  pub env : Env

-- The row that the token names and its device are as they were, whatever else changed.
pub record IsUntouched (t device : Text) (w x : World) : Type 0 where
  pub row :
      (id raw : Text)
      → split_refresh t ≡ some (id, raw)
      → find_row (is_token id) x.tables.refresh_tokens
        ≡ find_row (is_token id) w.tables.refresh_tokens
  pub device_row : has_device device x.tables ≡ has_device device w.tables

untouched-IsGood :
    (sha : Text → Text) (w x : World) (t device : Text) (g : IsGood sha w t device)
    → IsUntouched t device w x
    → (g' : IsGood sha x t device) × (g'.raw ≡ g.raw) × (g'.row ≡ g.row)
untouched-IsGood sha w x t device g u = (
  record {
    id = g.id;
    raw = g.raw;
    row = g.row;
    parts = g.parts;
    found = u.row g.id g.raw g.parts ∙ g.found;
    hash = g.hash;
    live = g.live;
    unused = g.unused;
    owner = g.owner;
    known = u.device_row ∙ g.known;
  },
  refl,
  refl,
)

-- A client that rotates time and again, always with the token it was given last.
unfoldable pub rotate_all : List Turn → ℕ → Text → World → Outcome RefreshError Text × World
rotate_all [] ttl t w = (done t, w)
rotate_all (v ∷ vs) ttl t w =
    let (answer, w') = refresh_rotate v.env t ttl (v.before w) in
    elim answer [ done out ↦ rotate_all vs ttl (out.token) w' | refused e ↦ (refused e, w') ]

-- Every rotation, of the token that the one before answered, happens before the token in hand
-- expires, with its row and its device untouched in between, and nothing fails in it.
abbrev pub IsSteady : (Text → Text) → Text → List Turn → ℕ → ℕ → World → Text → Type 0
IsSteady sha d [] ttl expiry w t = Unit
IsSteady sha d (v ∷ vs) ttl expiry w t =
    (v.env.now ≤ expiry)
    × IsUntouched t d w (v.before w)
    × (s : IsSmooth sha v.env (v.before w)) × IsSteady sha d vs ttl (v.env.now + ttl)
        (refresh_rotate v.env t ttl (v.before w)).1
        (join_refresh (v.env.uuid 0) (v.env.url_encode s.bytes))

rotate_all-cons :
    (v : Turn) (vs : List Turn) (ttl : ℕ) (t : Text) (w x : World) (o : Rotated)
    → refresh_rotate v.env t ttl (v.before w) ≡ (done o, x)
    → rotate_all (v ∷ vs) ttl t w ≡ rotate_all vs ttl o.token x
unfolding rotate_all
rotate_all-cons v vs ttl t w x o h = ground (arith, h)

-- The same world and the same token.
IsSteady-same :
    (sha : Text → Text) (d : Text) (vs : List Turn) (ttl expiry : ℕ) (w x : World) (t u : Text)
    → w ≡ x
    → t ≡ u
    → IsSteady sha d vs ttl expiry w t
    → IsSteady sha d vs ttl expiry x u
IsSteady-same sha d vs ttl expiry w x t u e f k =
    subst (λ (y : World). IsSteady sha d vs ttl expiry y u) e
      (subst (λ (z : Text). IsSteady sha d vs ttl expiry w z) f k)

rotate_all-IsGood :
    (sha : Text → Text) (vs : List Turn) (ttl expiry : ℕ) (w : World) (presented device : Text)
    (g : IsGood sha w presented device)
    → ((t : Text) → All IsByte (sha t))
    → g.row.expires_at ≡ expiry
    → IsSteady sha device vs ttl expiry w presented
    → (out : Text) × (w' : World) × (rotate_all vs ttl presented w ≡ (done out, w'))
      × IsGood sha w' out device
unfolding rotate_all
rotate_all-IsGood sha [] ttl expiry w presented device g bytes e steady = (presented, w, refl, g)
rotate_all-IsGood sha (v ∷ vs) ttl expiry w presented device g0 bytes e0
      (time, untouched, s, more) =
    let y = v.before w in
    let (g, same_raw, same_row) = untouched-IsGood sha w y presented device g0 untouched in
    let in_time : v.env.now ≤ g.row.expires_at = ground (arith, time, e0, same_row) in
    let (o, x, done_with, token, devices, rows) =
      rotate_good sha v.env presented device ttl y g (bytes g.raw) in_time s in
    let (g', e') =
      rotate-IsGood sha v.env presented device ttl y x o g (bytes g.raw) in_time s done_with in
    let onward : IsSteady sha device vs ttl (v.env.now + ttl) x o.token =
      IsSteady-same sha device vs ttl (v.env.now + ttl) (refresh_rotate v.env presented ttl y).1 x
        (join_refresh (v.env.uuid 0) (v.env.url_encode s.bytes)) o.token
        (ap (λ (p : Outcome RefreshError Rotated × World). p.1) done_with) (sym token) more in
    let (out, w', all, good) =
      rotate_all-IsGood sha vs ttl (v.env.now + ttl) x o.token device g' bytes e' onward in
    (out, w', rotate_all-cons v vs ttl presented w x o done_with ∙ all, good)

-- Once a refresh token is issued, a client that rotates again and again, always with the token it
-- was given last, is answered every time, whatever happens to the rest of the database in
-- between, if the row of the token in hand and its device are not touched in between, each
-- rotation comes before that token expires, no call fails in it, and its new identifier is unused
-- and has no dot (nor has the first); the hash stays the same and gives bytes.
pub refresh_never_lost :
    (sha : Text → Text) (v : Env) (n u : ℕ) (device family : Text) (ttl : ℕ) (w w' : World)
    (token : Text) (vs : List Turn)
    → refresh_issue v n u device family ttl w ≡ (done token, w')
    → All (λ c. c ≢ b'.') (v.uuid u)
    → v.sha256 ≡ sha
    → ((t : Text) → All IsByte (sha t))
    → IsSteady sha device vs ttl (v.now + ttl) w' token
    → (last : Text) × (w'' : World) × (rotate_all vs ttl token w' ≡ (done last, w''))
refresh_never_lost sha v n u device family ttl w w' token vs h dotless same bytes steady =
    let (g, e) = issue-IsGood sha v n u device family ttl w w' token h dotless same in
    let (last, w'', all, good) =
      rotate_all-IsGood sha vs ttl (v.now + ttl) w' token device g bytes e steady in
    (last, w'', all)

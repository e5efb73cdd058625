-- ===== src/Auth/Refresh/Alive.antt =====
-- A refresh token that was issued can be rotated, and so can its successors
-- (backend/internal/auth/refresh.go).
use kalki_chat.Base.{
  ℕ, ◌+◌, ◌≤◌, ◌≡◌, ◌≢◌, refl, sym, ap, ◌∙◌, true, false, Bool, none, some, List, [], ◌∷◌, ◌++◌,
  arith, inl, inr, Text, All, find_row, exists_row, update_rows, exists-find_row,
  find_row-append_none, eq_text_refl, Option-cases, Bool-cases, is_empty, if◌then◌else◌,
}
use kalki_chat.Env.{Env}
use kalki_chat.Db.{RefreshToken, World, Outcome, done, has_device}
use kalki_chat.Auth.ConstantTime.{ct_eq, ct_eq_refl, IsByte}
use kalki_chat.Auth.Refresh.{
  RefreshError, Rotated, split_refresh, join_refresh, is_token, new_token, refresh_issue,
  refresh_rotate, set_used,
}
use kalki_chat.Auth.Refresh.Split.{split-join_refresh}

-- A token that is good for a rotation: it names an unused live row, of an existing device.
pub record IsGood (sha : Text → Text) (w : World) (presented : Text) (device : Text) : Type 0 where
  pub id : Text
  pub raw : Text
  pub row : RefreshToken
  pub parts : split_refresh presented ≡ some (id, raw)
  pub found : find_row (is_token id) w.tables.refresh_tokens ≡ some row
  pub hash : row.token_hash ≡ sha raw
  pub live : row.revoked_at ≡ none
  pub unused : row.used_at ≡ none
  pub owner : row.device_id ≡ device
  pub known : has_device device w.tables ≡ true

-- A request in which every call succeeds, and the new identifier is unused and has no dot.
pub record IsSmooth (sha : Text → Text) (v : Env) (w : World) : Type 0 where
  pub hashes : v.sha256 ≡ sha
  pub dotless : All (λ c. c ≢ b'.') (v.uuid 0)
  pub up : (n : ℕ) → v.fails n ≡ false
  pub bytes : Text
  pub random : v.random 0 32 ≡ some bytes
  pub fresh : exists_row (is_token (v.uuid 0)) w.tables.refresh_tokens ≡ false

pub issue-IsGood :
    (sha : Text → Text) (v : Env) (n u : ℕ) (device family : Text) (ttl : ℕ) (w w' : World)
    (token : Text)
    → refresh_issue v n u device family ttl w ≡ (done token, w')
    → All (λ c. c ≢ b'.') (v.uuid u)
    → v.sha256 ≡ sha
    → (g : IsGood sha w' token device) × (g.row.expires_at ≡ v.now + ttl)
unfolding refresh_issue
issue-IsGood sha v n u device family ttl w w' token h dotless same =
    elim (Option-cases (v.random 0 32)) [
      | inl m ↦ absurd (ground arith)
      | inr (bytes, m) ↦
          elim (Bool-cases (exists_row (is_token (v.uuid u)) w.tables.refresh_tokens)) [
            | inl x ↦ absurd (ground arith)
            | inr x ↦
                let raw = v.url_encode bytes in
                let fam = if is_empty family then v.uuid (u + 1) else family in
                let row = new_token v (v.uuid u) device fam raw ttl in
                let rows : w'.tables.refresh_tokens ≡ w.tables.refresh_tokens ++ row ∷ [] =
                  ground arith in
                (
                  record {
                    id = v.uuid u;
                    raw = raw;
                    row = row;
                    parts = ground (arith, split-join_refresh (v.uuid u) raw dotless);
                    found = ground (
                      arith,
                      rows,
                      find_row-append_none (is_token (v.uuid u)) w.tables.refresh_tokens (row ∷ [])
                          (exists-find_row (is_token (v.uuid u)) w.tables.refresh_tokens x),
                      eq_text_refl (v.uuid u),
                    );
                    hash = ap (λ f. f raw) same;
                    live = refl;
                    unused = refl;
                    owner = refl;
                    known = ground arith;
                  },
                  refl,
                )
          ]
    ]

exists-set_used :
    (id key : Text) (t : ℕ) (rs : List RefreshToken)
    → exists_row (is_token id) (update_rows (is_token key) (set_used t) rs)
      ≡ exists_row (is_token id) rs
exists-set_used id key t [] = refl
exists-set_used id key t (r ∷ rs) = ground (arith, exists-set_used id key t rs)

pub rotate_good :
    (sha : Text → Text) (v : Env) (presented device : Text) (ttl : ℕ) (w : World)
    (g : IsGood sha w presented device)
    → All IsByte (sha g.raw)
    → v.now ≤ g.row.expires_at
    → (s : IsSmooth sha v w)
    → (out : Rotated) × (w' : World) × (refresh_rotate v presented ttl w ≡ (done out, w'))
      × (out.token ≡ join_refresh (v.uuid 0) (v.url_encode s.bytes))
      × (w'.tables.devices ≡ w.tables.devices)
      × (w'.tables.refresh_tokens
          ≡ update_rows (is_token g.row.id) (set_used v.now) w.tables.refresh_tokens
            ++ new_token v (v.uuid 0) g.row.device_id g.row.family_id (v.url_encode s.bytes) ttl
              ∷ [])
unfolding refresh_rotate
rotate_good sha v presented device ttl w g bytes time s =
    let hash : ct_eq g.row.token_hash (v.sha256 g.raw) ≡ true =
      rw (s.hashes, g.hash) (ct_eq_refl (sha g.raw) bytes) in
    let known : has_device g.row.device_id w.tables ≡ true = rw g.owner g.known in
    let fresh : exists_row (is_token (v.uuid 0))
          (update_rows (is_token g.row.id) (set_used v.now) w.tables.refresh_tokens)
        ≡ false =
      exists-set_used (v.uuid 0) g.row.id v.now w.tables.refresh_tokens ∙ s.fresh in
    (
      record {
        token = join_refresh (v.uuid 0) (v.url_encode s.bytes);
        device_id = g.row.device_id;
        family_id = g.row.family_id;
      },
      record w {
        tables = record w.tables {
          refresh_tokens =
              update_rows (is_token g.row.id) (set_used v.now) w.tables.refresh_tokens
              ++ new_token v (v.uuid 0) g.row.device_id g.row.family_id (v.url_encode s.bytes) ttl
                ∷ [];
        };
      },
      ground (
        arith,
        g.parts,
        g.found,
        hash,
        known,
        fresh,
        g.live,
        g.unused,
        time,
        s.random,
        s.up 0,
        s.up 1,
        s.up 2,
        s.up 4,
        s.up 5,
      ),
      refl,
      refl,
      refl,
    )

find_row-here :
    (p : RefreshToken → Bool) (r : RefreshToken) → p r ≡ true → find_row p (r ∷ []) ≡ some r
find_row-here p r h = rw h

pub rotate-IsGood :
    (sha : Text → Text) (v : Env) (presented device : Text) (ttl : ℕ) (w w' : World) (out : Rotated)
    (g : IsGood sha w presented device)
    → All IsByte (sha g.raw)
    → v.now ≤ g.row.expires_at
    → (s : IsSmooth sha v w) → refresh_rotate v presented ttl w ≡ (done out, w')
    → (g' : IsGood sha w' out.token device) × (g'.row.expires_at ≡ v.now + ttl)
rotate-IsGood sha v presented device ttl w w' out g bytes time s h =
    let (o, x, e, token, devices, rows) = rotate_good sha v presented device ttl w g bytes time s in
    let both : (done out, w') ≡ (done o, x) = sym h ∙ e in
    let same : w' ≡ x = ap (λ (p : Outcome RefreshError Rotated × World). p.1) both in
    let same_out : out ≡ o = ground (arith, both) in
    let old = update_rows (is_token g.row.id) (set_used v.now) w.tables.refresh_tokens in
    let row = new_token v (v.uuid 0) g.row.device_id g.row.family_id (v.url_encode s.bytes) ttl in
    let newest : find_row (is_token (v.uuid 0)) (row ∷ []) ≡ some row =
      find_row-here (is_token (v.uuid 0)) row (eq_text_refl (v.uuid 0)) in
    (
      record {
        id = v.uuid 0;
        raw = v.url_encode s.bytes;
        row = row;
        parts =
            rw (same_out, token) (split-join_refresh (v.uuid 0) (v.url_encode s.bytes) s.dotless);
        found =
            rw (same, rows)
              (find_row-append_none (is_token (v.uuid 0)) old (row ∷ []) (
                  exists-find_row (is_token (v.uuid 0)) old
                    (exists-set_used (v.uuid 0) g.row.id v.now w.tables.refresh_tokens ∙ s.fresh))
                ∙ newest);
        hash = ap (λ f. f (v.url_encode s.bytes)) s.hashes;
        live = refl;
        unused = refl;
        owner = g.owner;
        known = rw (same, devices) g.known;
      },
      refl,
    )

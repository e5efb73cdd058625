-- ===== src/Api/System/Tokens.antt =====
-- A refresh token (backend/internal/auth/refresh.go) buys one new one, whatever else is asked of the
-- server in the meantime.
use kalki_chat.Base.{
  ℕ, ◌≡◌, ◌≢◌, refl, Bool, false, ◌&&◌, some, List, [], ◌∷◌, Text, arith, update_rows, find_row,
  find_row-append_some, Bool-cases, inl, inr, if◌then◌else◌, eq_text, is_none,
}
use kalki_chat.Env.{Env}
use kalki_chat.Db.{World, Tables, RefreshToken, done}
use kalki_chat.Crypto.Jwt.{Signer, Json}
use kalki_chat.Auth.Refresh.{Rotated, is_token, set_used, set_revoked, new_token, refresh_rotate}
use kalki_chat.Auth.Refresh.Rotate.{refresh_rotate-Rotation}
use kalki_chat.Auth.Refresh.Family.{find-update_found}
use kalki_chat.Api.Router.Stable.{Stable}
use kalki_chat.Api.Router.SessionTables.{tokens-Stable}
use kalki_chat.Api.System.{Step, Many, many-keeps, step-keeps}

abbrev pub is_fresh : RefreshToken → Bool
is_fresh r = is_none r.used_at && is_none r.revoked_at

-- The row of this id is used or revoked.
pub record IsSpentIn (id : Text) (rs : List RefreshToken) : Type 0 where
  pub row : RefreshToken
  pub found : find_row (is_token id) rs ≡ some row
  pub spent : is_fresh row ≡ false

abbrev pub IsSpent : Text → Tables → Type 0
IsSpent id t = IsSpentIn id t.refresh_tokens

-- An update that keeps the ids goes on to the row that is found.
find-update :
    (id : Text) (p : RefreshToken → Bool) (f : RefreshToken → RefreshToken) (rs : List RefreshToken)
    (r : RefreshToken)
    → ((x : RefreshToken) → (f x).id ≡ x.id)
    → find_row (is_token id) rs ≡ some r
    → find_row (is_token id) (update_rows p f rs) ≡ some (if p r then f r else r)
find-update id p f [] r k h = ground arith
find-update id p f (x ∷ rs) r k h = elim (Bool-cases (eq_text x.id id)) [
  | inl a ↦ elim (Bool-cases (p x)) [
    | inl b ↦ ground (arith, a, b, k x)
    | inr b ↦ ground (arith, a, b)
  ]
  | inr a ↦ elim (Bool-cases (p x)) [
    | inl b ↦ ground (arith, a, b, k x, find-update id p f rs r k)
    | inr b ↦ ground (arith, a, b, find-update id p f rs r k)
  ]
]

IsSpent-Stable : (id : Text) → Stable (IsSpent id)
IsSpent-Stable id =
    tokens-Stable (IsSpentIn id)
      (λ n p rs i. record {
        row = if p i.row then set_used n i.row else i.row;
        found = find-update id p (set_used n) rs i.row (λ x. refl) i.found;
        spent = elim (Bool-cases (p i.row)) [
          | inl b ↦ ground (arith, b)
          | inr b ↦ ground (arith, b, i.spent)
        ];
      })
      (λ n p rs i. record {
        row = if p i.row then set_revoked n i.row else i.row;
        found = find-update id p (set_revoked n) rs i.row (λ x. refl) i.found;
        spent = elim (Bool-cases (p i.row)) [
          | inl b ↦ ground (arith, b)
          | inr b ↦ ground (arith, b, i.spent)
        ];
      })
      (λ r rs h i. record {
        row = i.row;
        found = find_row-append_some (is_token id) rs (r ∷ []) i.row i.found;
        spent = i.spent;
      })

-- A token that is used or revoked stays so.
pub spending_lasts :
    (id : Text) (j : Json) (k : Signer) (w x : World)
    → Many (Step j k) w x
    → IsSpent id w.tables
    → IsSpent id x.tables
spending_lasts id j k w x =
    many-keeps (Step j k) (λ w. IsSpent id w.tables)
      (step-keeps (IsSpent id) j k (IsSpent-Stable id)) w x

-- A refresh token whose rotation succeeded is never rotated again, however many requests of the
-- router, events of sockets and arrivals come in between, and whatever fails in them.
pub refresh_buys_once :
    (j : Json) (k : Signer) (v v' : Env) (presented : Text) (ttl ttl' : ℕ) (w x y z : World)
    (out out' : Rotated)
    → refresh_rotate v presented ttl w ≡ (done out, x)
    → Many (Step j k) x y
    → refresh_rotate v' presented ttl' y ≢ (done out', z)
refresh_buys_once j k v v' presented ttl ttl' w x y z out out' h m h' =
    let (r, raw, raw_new, a) = refresh_rotate-Rotation v presented ttl w x out h in
    let (r', raw', raw_new', b) = refresh_rotate-Rotation v' presented ttl' y z out' h' in
    let seen =
      find_row-append_some (is_token a.names.id)
        (update_rows (is_token r.id) (set_used v.now) w.tables.refresh_tokens)
        (new_token v (v.uuid 0) r.device_id r.family_id raw_new ttl ∷ []) (set_used v.now r)
        (find-update_found a.names.id v.now w.tables.refresh_tokens r a.names.found) in
    let first : IsSpent a.names.id x.tables = record {
      row = set_used v.now r;
      found = ground (arith, seen, a.rows);
      spent = refl;
    } in
    let later = spending_lasts a.names.id j k x y m first in
    ground (
      arith, later.found, later.spent, a.names.parts, b.names.parts, b.names.found, b.unused,
      b.live,
    )

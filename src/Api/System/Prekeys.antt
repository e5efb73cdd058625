-- ===== src/Api/System/Prekeys.antt =====
-- A one-time prekey is handed out once (backend/internal/api/prekeys.go), whatever else is asked of
-- the server in the meantime.
use kalki_chat.Base.{ℕ, ◌≡◌, ◌≢◌, ◌∙◌, sym, some, Text}
use kalki_chat.Env.{Env}
use kalki_chat.Db.{World, Tables, OneTimePrekey, done}
use kalki_chat.Crypto.Jwt.{Signer, Json}
use kalki_chat.Api.Prekeys.{Bundle, prekeys_fetch}
use kalki_chat.Api.Prekeys.Fetch.{
  IsSpent, update-number, update-left, insert-IsSpent, first-IsSpent, prekeys_fetch-first,
}
use kalki_chat.Api.Prekeys.Upload.{handed-IsSpent}
use kalki_chat.Api.Router.Stable.{Stable}
use kalki_chat.Api.Router.KeyTables.{prekeys-Stable}
use kalki_chat.Api.System.{Step, Many, many-keeps, step-keeps}

abbrev IsHanded : ℕ → Tables → Type 0
IsHanded n t = IsSpent n t.one_time_prekeys

IsHanded-Stable : (n : ℕ) → Stable (IsHanded n)
IsHanded-Stable n =
    prekeys-Stable (IsSpent n)
      (λ t m ks s. (update-number n m t ks ∙ s.0, update-left n m t ks s.1))
      (λ d i pubkey t t' h s. insert-IsSpent n d i pubkey t t' s h)

-- If a fetch hands out a one-time prekey, then after any sequence of requests, events of sockets
-- and arrivals, whatever fails in them, no fetch, for whatever device, hands out a key with the
-- same number.
pub prekey_handed_once :
    (j : Json) (s : Signer) (v v' : Env) (d d' : Text) (w x y z : World) (b b' : Bundle)
    (k k' : OneTimePrekey)
    → prekeys_fetch v d w ≡ (done b, x)
    → b.one_time_prekey ≡ some k
    → Many (Step j s) x y
    → prekeys_fetch v' d' y ≡ (done b', z)
    → b'.one_time_prekey ≡ some k'
    → k'.id ≢ k.id
prekey_handed_once j s v v' d d' w x y z b b' k k' h g m h' g' =
    let spent =
      many-keeps (Step j s) (λ w. IsHanded k.id w.tables)
        (step-keeps (IsHanded k.id) j s (IsHanded-Stable k.id)) x y m
        (handed-IsSpent v d w x b k h g) in
    first-IsSpent d' k.id y.tables.one_time_prekeys k' spent
      (sym (prekeys_fetch-first v' d' y z b' h') ∙ g')

-- ===== src/Ws/Map.antt =====
-- The map from devices to clients: lookup after each change, and what every entry satisfies.
use kalki_chat.Base.{
  ℕ, ◌≡◌, ◌≢◌, refl, Bool, false, ◌||◌, none, some, [], ◌∷◌, arith, ◌==◌, Text, eq_text_iff, All,
}
use kalki_chat.Ws.Hub.{Clients, lookup_client, erase_client}

pub lookup_client-erase_self : (d : Text) (m : Clients) → lookup_client d (erase_client d m) ≡ none
lookup_client-erase_self d [] = refl
lookup_client-erase_self d ((k, r) ∷ m) = ground (arith, lookup_client-erase_self d m)

pub lookup_client-erase_ne :
    (d e : Text) (m : Clients) → d ≢ e → lookup_client d (erase_client e m) ≡ lookup_client d m
lookup_client-erase_ne d e [] h = refl
lookup_client-erase_ne d e ((k, r) ∷ m) h =
    ground (arith, lookup_client-erase_ne d e m h, eq_text_iff e k, eq_text_iff d k)

pub All-erase :
    (P : Text × ℕ → Type 0) (d : Text) (m : Clients) → All P m → All P (erase_client d m)
All-erase P d [] h = tt
All-erase P d ((k, r) ∷ m) h = ground (arith, All-erase P d m h.1)

-- No device is listed twice.
abbrev pub DistinctKeys : Clients → Type 0
DistinctKeys [] = Unit
DistinctKeys ((k, r) ∷ m) = (lookup_client k m ≡ none) × DistinctKeys m

lookup-erase_none :
    (d e : Text) (m : Clients)
    → lookup_client d m ≡ none
    → lookup_client d (erase_client e m) ≡ none
lookup-erase_none d e [] h = refl
lookup-erase_none d e ((k, r) ∷ m) h =
    ground (arith, lookup-erase_none d e m, eq_text_iff e k, eq_text_iff d k)

pub DistinctKeys-erase : (d : Text) (m : Clients) → DistinctKeys m → DistinctKeys (erase_client d m)
DistinctKeys-erase d [] h = tt
DistinctKeys-erase d ((k, r) ∷ m) h =
    ground (arith, DistinctKeys-erase d m h.1, lookup-erase_none k d m h.0)

-- An entry that is looked up satisfies what all entries satisfy.
pub lookup-All :
    (P : Text × ℕ → Type 0) (d : Text) (r : ℕ) (m : Clients)
    → All P m
    → lookup_client d m ≡ some r
    → P (d, r)
lookup-All P d r [] h e = cc
lookup-All P d r ((k, q) ∷ m) h e = ground (arith, lookup-All P d r m h.1, eq_text_iff d k, h.0)

-- Whether a client is in the map.
abbrev pub has_ref : ℕ → Clients → Bool
has_ref r [] = false
has_ref r ((k, q) ∷ m) = (r == q) || has_ref r m

-- ===== src/Ws/Server/Fresh.antt =====
-- The clients that wait for `h.register` (backend/internal/ws): what happens to the hub leaves them
-- open and outside the map.
use kalki_chat.Base.{
  ℕ, ◌≡◌, ◌≢◌, refl, Bool, false, some, List, [], ◌∷◌, arith, Text, All, inl, inr, Bool-cases,
}
use kalki_chat.Ws.Hub.{Hub, Client, Clients, ServerEvent, lookup_client}
use kalki_chat.Ws.Map.{has_ref}
use kalki_chat.Ws.Deliver.{IsValid, Delivered}
use kalki_chat.Ws.Route.{received-same, has_ref-lookup}
use kalki_chat.Ws.Lifecycle.{IsFresh, is_at, Registered, Unregistered, has_ref-lookup_ne}
use kalki_chat.Ws.Shutdown.{Closed}
use kalki_chat.Ws.Server.{Server}

-- Each client waits once to be registered.
abbrev pub Once : List ℕ → Type 0
Once [] = Unit
Once (r ∷ rs) = All (λ q. q ≢ r) rs × Once rs

pub record IsSafe (s : Server) : Type 0 where
  pub valid : IsValid s.hub
  pub fresh : All (IsFresh s.hub) s.registering
  pub once : Once s.registering

-- A client that the changed map does not lead to is as fresh as before.
stays_fresh :
    (q : ℕ) (h h' : Hub)
    → IsFresh h q
    → IsValid h'
    → h'.next ≡ h.next
    → (h'.heap q).closed ≡ (h.heap q).closed
    → ((d : Text) → lookup_client d h'.clients ≢ some q)
    → IsFresh h' q
stays_fresh q h h' f v n c away = elim (Bool-cases (has_ref q h'.clients)) [
  | inl e ↦
      absurd (away (h'.heap q).device_id (has_ref-lookup h' q h'.clients v.entries v.distinct e))
  | inr e ↦ ground (arith, f)
]

is_at_fresh :
    (q : ℕ) (d : Text) (m : Clients) → has_ref q m ≡ false → is_at (lookup_client d m) q ≡ false
is_at_fresh q d [] n = refl
is_at_fresh q d ((k, r) ∷ m) n = ground (arith, is_at_fresh q d m)

fresh-register : (r q : ℕ) (h h' : Hub) → q ≢ r → IsFresh h q → Registered r h h' → IsFresh h' q
fresh-register r q h h' ne f d =
    stays_fresh q h h' f d.valid d.same_next
      (ground (arith, d.replaced q, is_at_fresh q (h.heap r).device_id h.clients f.2))
      (λ e same. ground (arith, d.mapped e, has_ref-lookup_ne q q e h.clients f.2))

pub fresh-unregister : (r q : ℕ) (h h' : Hub) → IsFresh h q → Unregistered r h h' → IsFresh h' q
fresh-unregister r q h h' f d =
    stays_fresh q h h' f d.valid d.same_next
      (ground (arith, d.removed q, has_ref-lookup_ne q q (h.heap r).device_id h.clients f.2))
      (λ e same. ground (arith, d.mapped e, has_ref-lookup_ne q q e h.clients f.2))

pub fresh-deliver :
    (test : Client → Bool) (ev : ServerEvent) (q : ℕ) (h h' : Hub)
    → IsFresh h q
    → Delivered test ev h.clients h h'
    → IsFresh h' q
fresh-deliver test ev q h h' f d =
    ground
      (arith, d.queues q, received-same test ev h.clients h.heap q, d.same_next, d.same_clients)

pub fresh-close : (q : ℕ) (h h' : Hub) → IsFresh h q → Closed h.clients h h' → IsFresh h' q
fresh-close q h h' f d = ground (arith, d.emptied, d.shut_down q, d.same_next)

-- What keeps one client fresh keeps each client of a list fresh.
pub All-fresh :
    (h h' : Hub) (rs : List ℕ)
    → ((q : ℕ) → IsFresh h q → IsFresh h' q)
    → All (IsFresh h) rs
    → All (IsFresh h') rs
All-fresh h h' [] keep a = tt
All-fresh h h' (r ∷ rs) keep a = (keep r a.0, All-fresh h h' rs keep a.1)

pub All-fresh_register :
    (r : ℕ) (h h' : Hub) (rs : List ℕ)
    → Registered r h h'
    → All (λ q. q ≢ r) rs
    → All (IsFresh h) rs
    → All (IsFresh h') rs
All-fresh_register r h h' [] d n a = tt
All-fresh_register r h h' (q ∷ rs) d n a =
    (fresh-register r q h h' n.0 a.0 d, All-fresh_register r h h' rs d n.1 a.1)

-- ===== src/Ws/Lifecycle.antt =====
-- The life of a client in the hub (backend/internal/ws/hub.go): registration, replacement by a
-- reconnect, removal, and the closing of the hub.
use kalki_chat.Base.{
  ℕ, ◌<◌, ◌≡◌, ◌≢◌, refl, Bool, true, false, ◌&&◌, Option, none, some, [], ◌∷◌, arith, ◌==◌,
  if◌then◌else◌, Text, eq_text, eq_text_iff, All, Option-cases, Bool-cases, inl, inr,
}
use kalki_chat.Ws.Hub.{
  Hub, Client, Clients, lookup_client, erase_client, put_client, update, register, unregister,
}
use kalki_chat.Ws.Map.{
  DistinctKeys-erase, has_ref, lookup-All, lookup_client-erase_self, lookup_client-erase_ne,
}
use kalki_chat.Ws.Deliver.{IsEntry, IsValid}

-- A client that has been made, is open, and is not in the map.
abbrev pub IsFresh : Hub → ℕ → Type 0
IsFresh h r = (r < h.next) × ((h.heap r).closed ≡ false) × (has_ref r h.clients ≡ false)

abbrev pub shut : Client → Client
shut c = record c { closed = true }

pub has_ref-erase :
    (q : ℕ) (d : Text) (m : Clients) → has_ref q m ≡ false → has_ref q (erase_client d m) ≡ false
has_ref-erase q d [] e = refl
has_ref-erase q d ((k, r) ∷ m) e = ground (arith, has_ref-erase q d m)

pub has_ref-lookup_ne :
    (q r : ℕ) (d : Text) (m : Clients) → has_ref q m ≡ false → lookup_client d m ≡ some r → q ≢ r
has_ref-lookup_ne q r d [] n e = cc
has_ref-lookup_ne q r d ((k, p) ∷ m) n e = ground (arith, has_ref-lookup_ne q r d m)

-- Closing the channel of a device's client leaves the other devices' entries as they were.
pub erase-entries :
    (d : Text) (old : ℕ) (h : Hub) (m : Clients)
    → (h.heap old).device_id ≡ d
    → All (IsEntry h) m
    → All (IsEntry (record h { heap = update h.heap old (shut (h.heap old)) })) (erase_client d m)
erase-entries d old h [] o a = tt
erase-entries d old h ((k, q) ∷ m) o a =
    ground (arith, erase-entries d old h m o a.1, eq_text_iff d k, a.0)

All-entries :
    (d : Text) (h : Hub) (m : Clients) → All (IsEntry h) m → All (IsEntry h) (erase_client d m)
All-entries d h [] a = tt
All-entries d h ((k, q) ∷ m) a = ground (arith, All-entries d h m a.1)

-- Whether a lookup gave this client.
abbrev pub is_at : Option ℕ → ℕ → Bool
is_at none q = false
is_at (some r) q = q == r

-- After client `r` was registered: its device leads to it, and the client that the device had
-- before, if any, is closed.
pub record Registered (r : ℕ) (h h' : Hub) : Type 0 where
  pub valid : IsValid h'
  pub mapped :
      (e : Text)
      → lookup_client e h'.clients
        ≡ (if eq_text e (h.heap r).device_id then some r else lookup_client e h.clients)
  pub replaced :
      (q : ℕ)
      → h'.heap q ≡ (
          if is_at (lookup_client (h.heap r).device_id h.clients) q
          then shut (h.heap q)
          else h.heap q)
  pub same_next : h'.next ≡ h.next

-- After client `r` was unregistered: if it is its device's client, the device is gone from the map
-- and the client is closed; if not, nothing has changed.
pub record Unregistered (r : ℕ) (h h' : Hub) : Type 0 where
  pub valid : IsValid h'
  pub mapped :
      (e : Text)
      → lookup_client e h'.clients ≡ (
          if is_at (lookup_client (h.heap r).device_id h.clients) r
            && eq_text e (h.heap r).device_id
          then none
          else lookup_client e h.clients)
  pub removed :
      (q : ℕ)
      → h'.heap q ≡ (
          if is_at (lookup_client (h.heap r).device_id h.clients) r && q == r
          then shut (h.heap q)
          else h.heap q)
  pub same_next : h'.next ≡ h.next

put-mapped :
    (e d : Text) (r : ℕ) (m : Clients)
    → lookup_client e (put_client d r m) ≡ (if eq_text e d then some r else lookup_client e m)
put-mapped e d r m = ground (arith, lookup_client-erase_ne e d m, eq_text_iff e d)

erase-mapped :
    (e d : Text) (m : Clients)
    → lookup_client e (erase_client d m) ≡ (if eq_text e d then none else lookup_client e m)
erase-mapped e d m =
    ground (arith, lookup_client-erase_ne e d m, eq_text_iff e d, lookup_client-erase_self d m)

-- Registering a fresh client on a valid hub does not panic and leaves a valid hub: the device's
-- old client, if there is one, is closed, the device leads to the new client, and all else is as
-- before.
pub register-Registered :
    (r : ℕ) (h : Hub)
    → IsValid h
    → IsFresh h r
    → (h' : Hub) × (register r h ≡ some h') × Registered r h h'
unfolding register
register-Registered r h v f = elim (Option-cases (lookup_client (h.heap r).device_id h.clients)) [
  | inl e ↦ (
    record h { clients = put_client (h.heap r).device_id r h.clients },
    ground arith,
    record {
      valid = record {
        distinct = (
          lookup_client-erase_self (h.heap r).device_id h.clients,
          DistinctKeys-erase (h.heap r).device_id h.clients v.distinct,
        );
        entries = ((f.0, refl, f.1), All-entries (h.heap r).device_id h h.clients v.entries);
        bounded = v.bounded;
      };
      mapped = λ e. put-mapped e (h.heap r).device_id r h.clients;
      replaced = λ q. rw e;
      same_next = refl;
    },
  )
  | inr (old, e) ↦
      let d = (h.heap r).device_id in
      let was = lookup-All (IsEntry h) d old h.clients v.entries e in
      let ne = has_ref-lookup_ne r old d h.clients f.2 e in
      let g = update h.heap old (shut (h.heap old)) in
      (
        record h { heap = g; clients = put_client d r h.clients },
        ground (arith, was.2),
        record {
          valid = record {
            distinct =
                (lookup_client-erase_self d h.clients, DistinctKeys-erase d h.clients v.distinct);
            entries = (
              (f.0, ground arith, ground arith),
              erase-entries d old h h.clients was.1 v.entries,
            );
            bounded = λ q. ground (arith, v.bounded q, v.bounded old);
          };
          mapped = λ e. put-mapped e d r h.clients;
          replaced = λ q. rw e (ground arith);
          same_next = refl;
        },
      )
]

-- Unregistering a client on a valid hub does not panic and leaves a valid hub: only the client
-- that its device leads to is closed and taken out; a client that was replaced, or never
-- registered, leaves the hub as it was.
pub unregister-Unregistered :
    (r : ℕ) (h : Hub) → IsValid h → (h' : Hub) × (unregister r h ≡ some h') × Unregistered r h h'
unfolding unregister
unregister-Unregistered r h v =
    elim (Bool-cases (is_at (lookup_client (h.heap r).device_id h.clients) r)) [
      | inl e ↦
          let d = (h.heap r).device_id in
          let cur : lookup_client d h.clients ≡ some r = ground arith in
          let was = lookup-All (IsEntry h) d r h.clients v.entries cur in
          let g = update h.heap r (shut (h.heap r)) in
          (
            record h { heap = g; clients = erase_client d h.clients },
            ground (arith, was.2),
            record {
              valid = record {
                distinct = DistinctKeys-erase d h.clients v.distinct;
                entries = erase-entries d r h h.clients refl v.entries;
                bounded = λ q. ground (arith, v.bounded q, v.bounded r);
              };
              mapped = λ x. rw e (erase-mapped x d h.clients);
              removed = λ q. rw e (ground arith);
              same_next = refl;
            },
          )
      | inr e ↦ (
        h,
        ground arith,
        record { valid = v; mapped = λ x. rw e; removed = λ q. rw e; same_next = refl },
      )
    ]

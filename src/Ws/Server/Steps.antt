-- ===== src/Ws/Server/Steps.antt =====
-- Which step around the hub (backend/internal/ws) keeps it safe, and which one panics.
use kalki_chat.Base.{
  ℕ, suc, ◌≡◌, ◌≢◌, refl, true, false, some, List, [], ◌∷◌, ◌++◌, arith, Text, All, All-append, sym,
  subst, ◌⊎◌, inl, inr, none, false, ◌≤◌, length, length-append, Bool-cases,
}
use kalki_chat.Ws.Hub.{Hub, Client, Clients, ServerEvent, update, push, send, send_capacity}
use kalki_chat.Ws.Map.{has_ref}
use kalki_chat.Ws.Deliver.{IsEntry}
use kalki_chat.Ws.Route.{IsNamed, receives, route_by_channel-Delivered, broadcast-Delivered}
use kalki_chat.Ws.Lifecycle.{IsFresh, register-Registered, unregister-Unregistered}
use kalki_chat.Ws.Shutdown.{close-Closed}
use kalki_chat.Ws.Server.{
  Server, Action, arrive, hang_up, take_register, take_unregister, deliver, announce, shut_down,
  act, write,
}
use kalki_chat.Ws.Server.Fresh.{
  Once, IsSafe, All-fresh, All-fresh_register, fresh-unregister, fresh-deliver, fresh-close,
}

-- What one client waiting adds to those before it.
Once-append : (r : ℕ) (rs : List ℕ) → Once rs → All (λ q. q ≢ r) rs → Once (rs ++ r ∷ [])
Once-append r [] o n = (tt, tt)
Once-append r (q ∷ rs) o n =
    (All-append (λ p. p ≢ q) rs (r ∷ []) o.0 ((λ e. n.0 (sym e)), tt), Once-append r rs o.1 n.1)

arrive-entries :
    (c : Client) (h : Hub) (m : Clients)
    → All (IsEntry h) m
    → All (IsEntry (record h { heap = update h.heap h.next c; next = suc h.next })) m
arrive-entries c h [] a = tt
arrive-entries c h ((k, q) ∷ m) a = ground (arith, arrive-entries c h m a.1)

arrive-fresh :
    (c : Client) (h : Hub) (q : ℕ)
    → IsFresh h q
    → IsFresh (record h { heap = update h.heap h.next c; next = suc h.next }) q
arrive-fresh c h q f = ground arith

older : (h : Hub) (rs : List ℕ) → All (IsFresh h) rs → All (λ q. q ≢ h.next) rs
older h [] a = tt
older h (r ∷ rs) a = (omega arith, older h rs a.1)

next_absent : (h : Hub) (m : Clients) → All (IsEntry h) m → has_ref h.next m ≡ false
next_absent h [] a = refl
next_absent h ((k, q) ∷ m) a = ground (arith, next_absent h m a.1)

arrive-IsSafe :
    (d o k : Text) (s : Server)
    → IsSafe s
    → (s' : Server) × (act (arrive d o k) s ≡ some s') × IsSafe s'
unfolding act
arrive-IsSafe d o k s v =
    let c : Client = record { device_id = d; owner_id = o; kind = k; queue = []; closed = false } in
    let h' : Hub = record s.hub { heap = update s.hub.heap s.hub.next c; next = suc s.hub.next } in
    (
      record s { hub = h'; registering = s.registering ++ s.hub.next ∷ [] },
      refl,
      record {
        valid = record {
          distinct = v.valid.distinct;
          entries = arrive-entries c s.hub s.hub.clients v.valid.entries;
          bounded = λ r. ground (arith, v.valid.bounded r);
        };
        fresh =
            All-append (IsFresh h') s.registering (s.hub.next ∷ [])
              (All-fresh s.hub h' s.registering (arrive-fresh c s.hub) v.fresh)
              ((omega arith, ground arith, next_absent s.hub s.hub.clients v.valid.entries), tt);
        once = Once-append s.hub.next s.registering v.once (older s.hub s.registering v.fresh);
      },
    )

take_register-IsSafe :
    (s : Server) (rs : List ℕ)
    → s.registering ≡ rs
    → IsSafe s
    → (s' : Server) × (act take_register s ≡ some s') × IsSafe s'
unfolding act
take_register-IsSafe s [] e v = (s, ground arith, v)
take_register-IsSafe s (r ∷ rest) e v =
    let f = subst (All (IsFresh s.hub)) e v.fresh in
    let o = subst Once e v.once in
    let (h', done, d) = register-Registered r s.hub v.valid f.0 in
    (
      record s { hub = h'; registering = rest },
      ground arith,
      record { valid = d.valid; fresh = All-fresh_register r s.hub h' rest d o.0 f.1; once = o.1 },
    )

take_unregister-IsSafe :
    (s : Server) (rs : List ℕ)
    → s.unregistering ≡ rs
    → IsSafe s
    → (s' : Server) × (act take_unregister s ≡ some s') × IsSafe s'
unfolding act
take_unregister-IsSafe s [] e v = (s, ground arith, v)
take_unregister-IsSafe s (r ∷ rest) e v =
    let (h', done, d) = unregister-Unregistered r s.hub v.valid in
    (
      record s { hub = h'; unregistering = rest },
      ground arith,
      record {
        valid = d.valid;
        fresh = All-fresh s.hub h' s.registering (λ q f. fresh-unregister r q s.hub h' f d) v.fresh;
        once = v.once;
      },
    )

write-entries :
    (ev : ServerEvent) (r : ℕ) (h : Hub) (m : Clients)
    → All (IsEntry h) m
    → All (IsEntry (record h { heap = update h.heap r (push ev (h.heap r)) })) m
write-entries ev r h [] a = tt
write-entries ev r h ((k, q) ∷ m) a = ground (arith, write-entries ev r h m a.1)

write-fresh :
    (ev : ServerEvent) (r : ℕ) (h : Hub) (q : ℕ)
    → IsFresh h q
    → IsFresh (record h { heap = update h.heap r (push ev (h.heap r)) }) q
write-fresh ev r h q f = ground arith

write-bounded :
    (ev : ServerEvent) (c : Client)
    → length c.queue ≤ send_capacity
    → length (push ev c).queue ≤ send_capacity
write-bounded ev c b = ground (arith, length-append c.queue (ev ∷ []))

-- A write to an open client keeps the server safe.
write-IsSafe :
    (r : ℕ) (ev : ServerEvent) (s : Server)
    → (s.hub.heap r).closed ≡ false
    → IsSafe s
    → (s' : Server) × (act (write r ev) s ≡ some s') × IsSafe s'
unfolding act send
write-IsSafe r ev s o v =
    let h' : Hub = record s.hub { heap = update s.hub.heap r (push ev (s.hub.heap r)) } in
    (
      record s { hub = h' },
      rw (o, act),
      record {
        valid = record {
          distinct = v.valid.distinct;
          entries = write-entries ev r s.hub s.hub.clients v.valid.entries;
          bounded = λ q.
              ground
                (arith, v.valid.bounded q, write-bounded ev (s.hub.heap r) (v.valid.bounded r));
        };
        fresh = All-fresh s.hub h' s.registering (write-fresh ev r s.hub) v.fresh;
        once = v.once;
      },
    )

-- The client that is written to was closed: its device has another client, has none, or the server
-- stopped.
abbrev pub IsLate : Action → Server → Type 0
IsLate (write r ev) s = (s.hub.heap r).closed ≡ true
IsLate (deliver a ev) s = ⊥
IsLate (arrive d o k) s = ⊥
IsLate (hang_up r) s = ⊥
IsLate take_register s = ⊥
IsLate take_unregister s = ⊥
IsLate (announce ev) s = ⊥
IsLate shut_down s = ⊥

-- The actions whose events are addressed to someone.
abbrev pub IsNamedAction : Action → Type 0
IsNamedAction (deliver a ev) = IsNamed a
IsNamedAction (arrive d o k) = Unit
IsNamedAction (hang_up r) = Unit
IsNamedAction (write r ev) = Unit
IsNamedAction take_register = Unit
IsNamedAction take_unregister = Unit
IsNamedAction (announce ev) = Unit
IsNamedAction shut_down = Unit

-- What one action does: it panics for a late write only.
unfoldable pub Safe : Action → Server → Type 0
Safe a s = ((s' : Server) × (act a s ≡ some s') × IsSafe s') ⊎ ((act a s ≡ none) × IsLate a s)

pub act-IsSafe : (a : Action) (s : Server) → IsNamedAction a → IsSafe s → Safe a s
unfolding Safe
act-IsSafe (arrive d o k) s n v = inl (arrive-IsSafe d o k s v)
act-IsSafe (hang_up r) s n v = inl (
  record s { unregistering = s.unregistering ++ r ∷ [] },
  unfold act in refl,
  record { valid = v.valid; fresh = v.fresh; once = v.once },
)
act-IsSafe take_register s n v = inl (take_register-IsSafe s s.registering refl v)
act-IsSafe take_unregister s n v = inl (take_unregister-IsSafe s s.unregistering refl v)
act-IsSafe (deliver a ev) s n v =
    let (h', e, d, ok) = route_by_channel-Delivered a ev s.hub n v.valid in
    inl (
      record s { hub = h' },
      unfold act in rw (e, act),
      record {
        valid = ok;
        fresh =
            All-fresh s.hub h' s.registering (λ q f. fresh-deliver (receives a) ev q s.hub h' f d)
              v.fresh;
        once = v.once;
      },
    )
act-IsSafe (announce ev) s n v =
    let (h', e, d, ok) = broadcast-Delivered ev s.hub v.valid in
    inl (
      record s { hub = h' },
      unfold act in rw (e, act),
      record {
        valid = ok;
        fresh =
            All-fresh s.hub h' s.registering (λ q f. fresh-deliver (λ c. true) ev q s.hub h' f d)
              v.fresh;
        once = v.once;
      },
    )
act-IsSafe shut_down s n v =
    let (h', e, d, ok) = close-Closed s.hub v.valid in
    inl (
      record s { hub = h' },
      unfold act in rw (e, act),
      record {
        valid = ok;
        fresh = All-fresh s.hub h' s.registering (λ q f. fresh-close q s.hub h' f d) v.fresh;
        once = v.once;
      },
    )
act-IsSafe (write r ev) s n v = elim (Bool-cases (s.hub.heap r).closed) [
  | inl e ↦ inr (unfold act in unfold send in rw (e, act), e)
  | inr e ↦ inl (write-IsSafe r ev s e v)
]

-- ===== src/Ws/Route.antt =====
-- Routing by channel name (routeByChannel in backend/internal/ws/hub.go): which clients an event
-- published on a device's, a user's or the admin team's channel reaches.
use kalki_chat.Base.{
  ℕ, ◌≤◌, ◌≡◌, ◌≢◌, refl, Bool, true, none, some, [], ◌∷◌, arith, length, length-append, Text,
  eq_text, eq_text_iff, eq_text_refl, All, Option-cases, inl, inr, ◌∙◌, sym, subst,
}
use kalki_chat.Ws.Hub.{
  Hub, Client, Clients, ServerEvent, lookup_client, update, push, send, deliver_all, send_capacity,
  route_by_channel, device_channel, user_channel, admin_team_channel, is_user_of, is_admin,
  broadcast,
}
use kalki_chat.Ws.Map.{DistinctKeys, has_ref, lookup-All}
use kalki_chat.Ws.Deliver.{IsEntry, IsValid, received, Delivered, deliver_all-Delivered}

-- Whom a channel of `redisx` stands for.
pub data Audience : Type 0 where
  device user : Text → Audience
  admins : Audience

abbrev pub channel_of : Audience → Text
channel_of (device d) = device_channel d
channel_of (user u) = user_channel u
channel_of admins = admin_team_channel

-- The identifiers that the code makes are not empty.
abbrev pub IsNamed : Audience → Type 0
IsNamed (device d) = d ≢ []
IsNamed (user u) = u ≢ []
IsNamed admins = Unit

abbrev pub receives : Audience → Client → Bool
receives (device d) c = eq_text c.device_id d
receives (user u) c = is_user_of u c
receives admins c = is_admin c

push-bounded :
    (ev : ServerEvent) (c : Client)
    → length c.queue ≤ send_capacity
    → length (push ev c).queue ≤ send_capacity
push-bounded ev c h = ground (arith, length-append c.queue (ev ∷ []))

received-bounded :
    (test : Client → Bool) (ev : ServerEvent) (m : Clients) (heap : ℕ → Client) (r : ℕ)
    → length (heap r).queue ≤ send_capacity
    → length (received test ev m heap r).queue ≤ send_capacity
received-bounded test ev m heap r h = ground (arith, push-bounded ev (heap r) h)

pub received-same :
    (test : Client → Bool) (ev : ServerEvent) (m : Clients) (heap : ℕ → Client) (r : ℕ)
    → ((received test ev m heap r).device_id ≡ (heap r).device_id)
      × ((received test ev m heap r).closed ≡ (heap r).closed)
received-same test ev m heap r = ground arith

Delivered-entries :
    (test : Client → Bool) (ev : ServerEvent) (n : Clients) (h h' : Hub) (m : Clients)
    → Delivered test ev n h h'
    → All (IsEntry h) m
    → All (IsEntry h') m
Delivered-entries test ev n h h' [] v a = tt
Delivered-entries test ev n h h' ((k, q) ∷ m) v a = ground (
  arith,
  v.queues q,
  received-same test ev n h.heap q,
  v.same_next,
  Delivered-entries test ev n h h' m v a.1,
)

-- A delivery keeps the hub valid.
pub Delivered-IsValid :
    (test : Client → Bool) (ev : ServerEvent) {h h' : Hub}
    → IsValid h
    → Delivered test ev h.clients h h'
    → IsValid h'
Delivered-IsValid test ev {h} {h'} v d = record {
  distinct = subst DistinctKeys (sym d.same_clients) v.distinct;
  entries =
      subst (All (IsEntry h')) (sym d.same_clients)
        (Delivered-entries test ev h.clients h h' h.clients d v.entries);
  bounded = λ r.
      subst (λ (c : Client). length c.queue ≤ send_capacity) (sym (d.queues r))
        (received-bounded test ev h.clients h.heap r (v.bounded r));
}

-- A client in the map is found under its own device.
pub has_ref-lookup :
    (h : Hub) (q : ℕ) (m : Clients)
    → All (IsEntry h) m
    → DistinctKeys m
    → has_ref q m ≡ true
    → lookup_client (h.heap q).device_id m ≡ some q
has_ref-lookup h q [] a d e = cc
has_ref-lookup h q ((k, r) ∷ m) a d e = ground (
  arith,
  a.0,
  d.0,
  has_ref-lookup h q m a.1 d.1,
  eq_text_iff (h.heap q).device_id k,
  eq_text_refl k,
)

lookup-has_ref : (d : Text) (r : ℕ) (m : Clients) → lookup_client d m ≡ some r → has_ref r m ≡ true
lookup-has_ref d r [] e = cc
lookup-has_ref d r ((k, q) ∷ m) e = ground (arith, lookup-has_ref d r m)

send_one :
    (d : Text) (ev : ServerEvent) (h : Hub) (r q : ℕ)
    → IsValid h
    → lookup_client d h.clients ≡ some r
    → update h.heap r (push ev (h.heap r)) q
      ≡ received (λ c. eq_text c.device_id d) ev h.clients h.heap q
send_one d ev h r q v e = ground (
  arith,
  has_ref-lookup h q h.clients v.entries v.distinct,
  lookup-has_ref d r h.clients e,
  lookup-All (IsEntry h) d r h.clients v.entries e,
  eq_text_iff (h.heap q).device_id d,
)

send_none :
    (d : Text) (ev : ServerEvent) (h : Hub) (q : ℕ)
    → IsValid h
    → lookup_client d h.clients ≡ none
    → h.heap q ≡ received (λ c. eq_text c.device_id d) ev h.clients h.heap q
send_none d ev h q v e =
    ground
      (arith, has_ref-lookup h q h.clients v.entries v.distinct, eq_text_iff (h.heap q).device_id d)

device_route :
    (d : Text) (ev : ServerEvent) (h : Hub)
    → d ≢ []
    → route_by_channel (device_channel d) ev h
      ≡ elim (lookup_client d h.clients) [ none ↦ some h | some r ↦ send ev r h ]
unfolding route_by_channel eq_text
device_route [] ev h n = absurd (n refl)
device_route (x ∷ xs) ev h n = ground arith

user_route :
    (u : Text) (ev : ServerEvent) (h : Hub)
    → u ≢ []
    → route_by_channel (user_channel u) ev h ≡ deliver_all (is_user_of u) ev h.clients h
unfolding route_by_channel eq_text
user_route [] ev h n = absurd (n refl)
user_route (x ∷ xs) ev h n = ground arith

admin_route :
    (ev : ServerEvent) (h : Hub)
    → route_by_channel admin_team_channel ev h ≡ deliver_all is_admin ev h.clients h
unfolding route_by_channel eq_text
admin_route ev h = refl

-- On a valid hub an event on the channel of a named audience is routed without a panic: exactly
-- the clients of the map that belong to the audience get it, at the end of their queue and only
-- if that has room; no other client changes, and the hub stays valid.
pub route_by_channel-Delivered :
    (a : Audience) (ev : ServerEvent) (h : Hub)
    → IsNamed a
    → IsValid h
    → (h' : Hub) × (route_by_channel (channel_of a) ev h ≡ some h')
      × Delivered (receives a) ev h.clients h h'
      × IsValid h'
route_by_channel-Delivered (device d) ev h n v = elim (Option-cases (lookup_client d h.clients)) [
  | inl e ↦
      let done : Delivered (receives (device d)) ev h.clients h h = record {
        queues = λ q. send_none d ev h q v e;
        same_next = refl;
        same_clients = refl;
      } in
      (h, device_route d ev h n ∙ rw e, done, v)
  | inr (r, e) ↦
      let h' = record h { heap = update h.heap r (push ev (h.heap r)) } in
      let done : Delivered (receives (device d)) ev h.clients h h' = record {
        queues = λ q. send_one d ev h r q v e;
        same_next = refl;
        same_clients = refl;
      } in
      (
        h',
        device_route d ev h n
            ∙ rw e (unfold send in rw (lookup-All (IsEntry h) d r h.clients v.entries e).2),
        done,
        Delivered-IsValid (receives (device d)) ev v done,
      )
]
route_by_channel-Delivered (user u) ev h n v =
    let (h', e, d) = deliver_all-Delivered (is_user_of u) ev h.clients h v.entries v.distinct in
    (h', user_route u ev h n ∙ e, d, Delivered-IsValid (is_user_of u) ev v d)
route_by_channel-Delivered admins ev h n v =
    let (h', e, d) = deliver_all-Delivered is_admin ev h.clients h v.entries v.distinct in
    (h', admin_route ev h ∙ e, d, Delivered-IsValid is_admin ev v d)

-- A broadcast on a valid hub does not panic, each client of the map gets the event if its queue
-- has room, no other client changes, and the hub stays valid.
pub broadcast-Delivered :
    (ev : ServerEvent) (h : Hub)
    → IsValid h
    → (h' : Hub) × (broadcast ev h ≡ some h') × Delivered (λ c. true) ev h.clients h h' × IsValid h'
unfolding broadcast
broadcast-Delivered ev h v =
    let (h', e, d) = deliver_all-Delivered (λ c. true) ev h.clients h v.entries v.distinct in
    (h', e, d, Delivered-IsValid (λ c. true) ev v d)

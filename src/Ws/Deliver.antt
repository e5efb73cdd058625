-- ===== src/Ws/Deliver.antt =====
-- Who receives an event: the loops of routeByChannel and Broadcast in backend/internal/ws/hub.go
-- against a description of the receivers.
use kalki_chat.Base.{
  ℕ, ◌<◌, ◌≤◌, ◌≡◌, refl, Bool, false, ◌&&◌, none, some, [], ◌∷◌, arith, if◌then◌else◌, length,
  Text, eq_text_iff, All, ◌∙◌,
}
use kalki_chat.Ws.Hub.{
  Hub, Client, Clients, ServerEvent, lookup_client, update, push, deliver_all, send_capacity,
}
use kalki_chat.Ws.Map.{DistinctKeys, has_ref}

-- An entry of the map: a client that has been made, under its own device, with an open channel.
abbrev pub IsEntry : Hub → Text × ℕ → Type 0
IsEntry h e = (e.1 < h.next) × ((h.heap (e.1)).device_id ≡ e.0) × ((h.heap (e.1)).closed ≡ false)

pub record IsValid (h : Hub) : Type 0 where
  pub distinct : DistinctKeys h.clients
  pub entries : All (IsEntry h) h.clients
  pub bounded : (r : ℕ) → length (h.heap r).queue ≤ send_capacity

-- A client whose device is not in the map is not in the map.
pub not_has_ref :
    (h : Hub) (r : ℕ) (m : Clients)
    → All (IsEntry h) m
    → lookup_client (h.heap r).device_id m ≡ none
    → has_ref r m ≡ false
not_has_ref h r [] a e = refl
not_has_ref h r ((k, q) ∷ m) a e =
    ground (arith, not_has_ref h r m a.1, eq_text_iff (h.heap r).device_id k, a.0)

-- What a loop does to one client.
abbrev pub received : (Client → Bool) → ServerEvent → Clients → (ℕ → Client) → ℕ → Client
received test ev m heap r = if has_ref r m && test (heap r) then push ev (heap r) else heap r

-- The two heaps differ in the queues alone.
abbrev SameClients : (ℕ → Client) → (ℕ → Client) → Type 0
SameClients f g = (r : ℕ) → ((f r).device_id ≡ (g r).device_id) × ((f r).closed ≡ (g r).closed)

pub record Delivered (test : Client → Bool) (ev : ServerEvent) (m : Clients) (h h' : Hub)
    : Type 0 where
  pub queues : (r : ℕ) → h'.heap r ≡ received test ev m h.heap r
  pub same_next : h'.next ≡ h.next
  pub same_clients : h'.clients ≡ h.clients

-- One round of a loop.
abbrev sent : (Client → Bool) → ServerEvent → ℕ → Hub → Hub
sent test ev r h = record h {
  heap = if test (h.heap r) then update h.heap r (push ev (h.heap r)) else h.heap;
}

sent-same :
    (test : Client → Bool) (ev : ServerEvent) (r : ℕ) (h : Hub) (q : ℕ)
    → (((sent test ev r h).heap q).device_id ≡ (h.heap q).device_id)
      × (((sent test ev r h).heap q).closed ≡ (h.heap q).closed)
sent-same test ev r h q = ground arith

sent-entries :
    (test : Client → Bool) (ev : ServerEvent) (r : ℕ) (h : Hub) (m : Clients)
    → All (IsEntry h) m
    → All (IsEntry (sent test ev r h)) m
sent-entries test ev r h [] a = tt
sent-entries test ev r h ((k, q) ∷ m) a =
    ground (arith, sent-same test ev r h q, sent-entries test ev r h m a.1)

deliver_all-cons :
    (test : Client → Bool) (ev : ServerEvent) (d : Text) (r : ℕ) (m : Clients) (h : Hub)
    → (h.heap r).closed ≡ false
    → deliver_all test ev ((d, r) ∷ m) h ≡ deliver_all test ev m (sent test ev r h)
unfolding deliver_all
deliver_all-cons test ev d r m h o = ground arith

received-cons :
    (test : Client → Bool) (ev : ServerEvent) (d : Text) (r : ℕ) (m : Clients) (h : Hub) (q : ℕ)
    → has_ref r m ≡ false
    → received test ev m (sent test ev r h).heap q ≡ received test ev ((d, r) ∷ m) h.heap q
received-cons test ev d r m h q n = ground arith

-- A loop over open clients ends, without a panic, and sends to each that passes the test once.
pub deliver_all-Delivered :
    (test : Client → Bool) (ev : ServerEvent) (m : Clients) (h : Hub)
    → All (IsEntry h) m
    → DistinctKeys m
    → (h' : Hub) × (deliver_all test ev m h ≡ some h') × Delivered test ev m h h'
unfolding deliver_all
deliver_all-Delivered test ev [] h a d =
    (h, refl, record { queues = λ r. refl; same_next = refl; same_clients = refl })
deliver_all-Delivered test ev ((k, r) ∷ m) h a d =
    let (h', e, done) =
      deliver_all-Delivered test ev m (sent test ev r h) (sent-entries test ev r h m a.1) d.1 in
    let absent : has_ref r m ≡ false = not_has_ref h r m a.1 (ground arith) in
    (
      h',
      deliver_all-cons test ev k r m h (a.0.2) ∙ e,
      record {
        queues = λ q. done.queues q ∙ received-cons test ev k r m h q absent;
        same_next = done.same_next;
        same_clients = done.same_clients;
      },
    )

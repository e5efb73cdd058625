-- ===== src/Messages/Replay.antt =====
-- The replay on connect (backfillMissed in backend/internal/ws/hub.go): which messages, in which
-- order, and what the client's queue takes of them.
use kalki_chat.Base.{
  ℕ, ◌≤◌, ◌≡◌, refl, Bool, true, false, some, List, [], ◌∷◌, ◌++◌, arith, ltb, leb, ◌==◌, inl, inr,
  if◌then◌else◌, length, take, Text, select_rows, insert_row, order_rows, All, All-take, Bool-cases,
  ◌∙◌, sym,
}
use kalki_chat.Env.{Env}
use kalki_chat.Db.{Tables, Message}
use kalki_chat.Base.{zero, suc, map, length-append, ap}
use mathlib.Core.List.{append-nil, append_assoc}
use kalki_chat.Ws.Hub.{Hub, Client, ServerEvent, lookup_client, update, push, send, send_capacity}
use kalki_chat.Ws.Map.{lookup-All}
use kalki_chat.Ws.Deliver.{IsEntry, IsValid}
use kalki_chat.Messages.{is_missed, missed, recv_event, send_batch, backfill_missed}

abbrev pub older : Message → Message → Bool
older a b = leb a.created_at b.created_at

All-insert :
    (P : Message → Type 0) (m : Message) (ms : List Message)
    → P m
    → All P ms
    → All P (insert_row older m ms)
All-insert P m [] p a = (p, tt)
All-insert P m (x ∷ ms) p a = ground (arith, All-insert P m ms p a.1)

All-order : (P : Message → Type 0) (ms : List Message) → All P ms → All P (order_rows older ms)
All-order P [] a = tt
All-order P (m ∷ ms) a = All-insert P m (order_rows older ms) a.0 (All-order P ms a.1)

-- What all selected messages satisfy, all replayed ones do.
pub missed-All :
    (P : Message → Type 0) (now : ℕ) (d : Text) (ms : List Message)
    → All P (select_rows (is_missed now d) ms)
    → All P (missed now d ms)
unfolding missed
missed-All P now d ms a =
    All-take P 200 (order_rows older (select_rows (is_missed now d) ms))
      (All-order P (select_rows (is_missed now d) ms) a)

pub select-All :
    (p : Message → Bool) (ms : List Message) → All (λ (m : Message). p m ≡ true) (select_rows p ms)
select-All p [] = tt
select-All p (m ∷ ms) = ground (arith, select-All p ms)

-- Oldest first.
abbrev pub IsOrdered : List Message → Type 0
IsOrdered [] = Unit
IsOrdered (m ∷ ms) = All (λ (x : Message). m.created_at ≤ x.created_at) ms × IsOrdered ms

All-older :
    (a b : ℕ) (ms : List Message)
    → a ≤ b
    → All (λ (x : Message). b ≤ x.created_at) ms
    → All (λ (x : Message). a ≤ x.created_at) ms
All-older a b [] h p = tt
All-older a b (m ∷ ms) h p = (omega arith, All-older a b ms h p.1)

insert-IsOrdered :
    (m : Message) (ms : List Message) → IsOrdered ms → IsOrdered (insert_row older m ms)
insert-IsOrdered m [] o = (tt, tt)
insert-IsOrdered m (x ∷ ms) o = ground (
  arith,
  insert-IsOrdered m ms o.1,
  All-insert (λ (y : Message). x.created_at ≤ y.created_at) m ms,
  All-older m.created_at x.created_at ms,
  o,
)

pub order-IsOrdered : (ms : List Message) → IsOrdered (order_rows older ms)
order-IsOrdered [] = tt
order-IsOrdered (m ∷ ms) = insert-IsOrdered m (order_rows older ms) (order-IsOrdered ms)

pub take-IsOrdered : (n : ℕ) (ms : List Message) → IsOrdered ms → IsOrdered (take n ms)
take-IsOrdered zero ms o = tt
take-IsOrdered (suc n) [] o = tt
take-IsOrdered (suc n) (m ∷ ms) o =
    (All-take (λ (x : Message). m.created_at ≤ x.created_at) n ms o.0, take-IsOrdered n ms o.1)

take-take-append {ℓ} :
    {A : Type ℓ} (n : ℕ) (xs ys : List A) → take n (take n xs ++ ys) ≡ take n (xs ++ ys)
take-take-append zero xs ys = refl
take-take-append (suc n) [] ys = refl
take-take-append (suc n) (x ∷ xs) ys = rw (take-take-append n xs ys)

take_full {ℓ} :
    {A : Type ℓ} (n : ℕ) (xs ys : List A) → n ≤ length xs → length xs ≤ n → take n (xs ++ ys) ≡ xs
take_full zero [] ys h k = refl
take_full zero (x ∷ xs) ys h k = absurd (omega arith)
take_full (suc n) [] ys h k = absurd (omega arith)
take_full (suc n) (x ∷ xs) ys h k = rw (take_full n xs ys (omega arith) (omega arith))

pub take_all {ℓ} : {A : Type ℓ} (n : ℕ) (xs : List A) → length xs ≤ n → take n xs ≡ xs
take_all zero [] h = refl
take_all zero (x ∷ xs) h = absurd (omega arith)
take_all (suc n) [] h = refl
take_all (suc n) (x ∷ xs) h = rw (take_all n xs (omega arith))

-- A client whose queue has taken what it can of some events.
unfoldable pub with_events : List ServerEvent → Client → Client
with_events evs c = record c { queue = take send_capacity (c.queue ++ evs) }

push-with_events :
    (ev : ServerEvent) (c : Client)
    → length c.queue ≤ send_capacity
    → push ev c ≡ with_events (ev ∷ []) c
unfolding with_events
push-with_events ev c h = elim (Bool-cases (ltb (length c.queue) send_capacity)) [
  | inl e ↦ rw e (λ i. record c {
    queue =
        sym
          (take_all send_capacity (c.queue ++ ev ∷ [])
            (ground (arith, length-append c.queue (ev ∷ []))))
          i;
  })
  | inr e ↦
      rw e (λ i. record c {
        queue = sym (take_full send_capacity c.queue (ev ∷ []) (ground arith) h) i;
      })
]

with_events-append :
    (ev : ServerEvent) (evs : List ServerEvent) (c : Client)
    → with_events evs (with_events (ev ∷ []) c) ≡ with_events (ev ∷ evs) c
unfolding with_events
with_events-append ev evs c = λ i. record c {
  queue =
      (take-take-append send_capacity (c.queue ++ ev ∷ []) evs
          ∙ ap (take send_capacity) (append_assoc c.queue (ev ∷ []) evs))
        i;
}

with_events-nil : (c : Client) → length c.queue ≤ send_capacity → c ≡ with_events [] c
unfolding with_events
with_events-nil c h = λ i. record c {
  queue = sym (ap (take send_capacity) (append-nil c.queue) ∙ take_all send_capacity c.queue h) i;
}

-- What a replay of some messages makes of one client.
abbrev pub replayed : Env → ℕ → List Message → (ℕ → Client) → ℕ → Client
replayed v r ms heap q =
    if q == r then with_events (map (λ m. recv_event v m true) ms) (heap q) else heap q

abbrev first_sent : Env → ℕ → Message → Hub → Hub
first_sent v r m h = record h { heap = update h.heap r (push (recv_event v m true) (h.heap r)) }

replayed-cons :
    (v : Env) (r : ℕ) (m : Message) (ms : List Message) (h : Hub) (q : ℕ)
    → length (h.heap r).queue ≤ send_capacity
    → replayed v r ms (first_sent v r m h).heap q ≡ replayed v r (m ∷ ms) h.heap q
replayed-cons v r m ms h q b = elim (Bool-cases (q == r)) [
  | inl e ↦
      let same : q ≡ r = ground arith in
      rw (e, same, push-with_events (recv_event v m true) (h.heap r) b)
        (with_events-append (recv_event v m true) (map (λ m. recv_event v m true) ms) (h.heap r))
  | inr e ↦ rw e
]

replayed-nil :
    (v : Env) (r : ℕ) (h : Hub) (q : ℕ)
    → length (h.heap r).queue ≤ send_capacity
    → h.heap q ≡ replayed v r [] h.heap q
replayed-nil v r h q b = elim (Bool-cases (q == r)) [
  | inl e ↦ let same : q ≡ r = ground arith in rw (e, same) (with_events-nil (h.heap r) b)
  | inr e ↦ rw e
]

send_batch-cons :
    (v : Env) (r : ℕ) (m : Message) (ms : List Message) (h : Hub)
    → (h.heap r).closed ≡ false
    → send_batch v r (m ∷ ms) h ≡ send_batch v r ms (first_sent v r m h)
unfolding send_batch send
send_batch-cons v r m ms h o = rw (o, send_batch)

send_batch_lem :
    (v : Env) (r : ℕ) (ms : List Message) (h : Hub)
    → (h.heap r).closed ≡ false
    → length (h.heap r).queue ≤ send_capacity
    → (h' : Hub) × (send_batch v r ms h ≡ some h')
      × ((q : ℕ) → h'.heap q ≡ replayed v r ms h.heap q)
      × (h'.clients ≡ h.clients)
      × (h'.next ≡ h.next)
unfolding send_batch send
send_batch_lem v r [] h o b = (h, refl, (λ q. replayed-nil v r h q b), refl, refl)
send_batch_lem v r (m ∷ ms) h o b =
    let h1 = first_sent v r m h in
    let b1 : length (h1.heap r).queue ≤ send_capacity =
      ground (arith, length-append (h.heap r).queue (recv_event v m true ∷ [])) in
    let (h', e, qs, cl, nx) = send_batch_lem v r ms h1 (ground arith) b1 in
    (h', send_batch-cons v r m ms h o ∙ e, (λ q. qs q ∙ replayed-cons v r m ms h q b), cl, nx)

-- On a valid hub, if the query does not fail, a replay to a connected device puts the missed
-- messages, marked as such, behind what its client's queue holds, cut at 64 events; it does not
-- panic and touches no other client.
pub backfill_missed_lem :
    (v : Env) (d : Text) (r : ℕ) (t : Tables) (h : Hub)
    → IsValid h
    → lookup_client d h.clients ≡ some r
    → v.fails 0 ≡ false
    → (h' : Hub) × (backfill_missed v d t h ≡ some h')
      × ((q : ℕ) → h'.heap q ≡ replayed v r (missed v.now d t.messages) h.heap q)
      × (h'.clients ≡ h.clients)
      × (h'.next ≡ h.next)
unfolding backfill_missed
backfill_missed_lem v d r t h ok e up =
    let was = lookup-All (IsEntry h) d r h.clients ok.entries e in
    let (h', s, qs, cl, nx) =
      send_batch_lem v r (missed v.now d t.messages) h was.2 (ok.bounded r) in
    (h', rw (up, e) s, qs, cl, nx)

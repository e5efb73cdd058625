-- ===== src/Messages/Missed.antt =====
-- Which messages a replay takes from the table (the query of backfillMissed in
-- backend/internal/ws/hub.go).
use kalki_chat.Base.{
  Bool-cases, ℕ, zero, suc, ◌+◌, ◌*◌, ◌≤◌, ◌<◌, ◌≡◌, refl, sym, subst, ap, true, none, List, [],
  ◌∷◌, arith, ◌⊎◌, inl, inr, length, take, length-take_le, Text, eq_text_iff, eq_text_refl,
  select_rows, order_rows, All,
}
use mathlib.Core.List.{Memᴰ}
use mathlib.Core.List.Memᴰ.{head, tail}
use kalki_chat.Env.{day}
use kalki_chat.Db.{Message}
use kalki_chat.Messages.{is_missed, missed}
use kalki_chat.Messages.Replay.{
  IsOrdered, older, missed-All, select-All, order-IsOrdered, take-IsOrdered,
}
use kalki_chat.Messages.Delivery.{Memᴰ-select, Memᴰ-order}

-- A message that the device has not acknowledged, less than seven days old.
pub record IsAwaited (now : ℕ) (d : Text) (m : Message) : Type 0 where
  pub addressed : m.recipient_device_id ≡ d
  pub undelivered : m.delivered_at ≡ none
  pub recent : now < m.created_at + 7 * day

missed-IsAwaited : (now : ℕ) (d : Text) (m : Message) → is_missed now d m ≡ true → IsAwaited now d m
missed-IsAwaited now d m h = record {
  addressed = ground (arith, h, eq_text_iff m.recipient_device_id d);
  undelivered = ground (arith, h);
  recent = ground (arith, h);
}

awaited-missed : (now : ℕ) (d : Text) (m : Message) → IsAwaited now d m → is_missed now d m ≡ true
awaited-missed now d m a = ground (arith, a.addressed, a.undelivered, a.recent, eq_text_refl d)

All-imp :
    {P Q : Message → Type 0} (ms : List Message) → ((m : Message) → P m → Q m) → All P ms → All Q ms
All-imp [] f a = tt
All-imp (m ∷ ms) f a = (f m a.0, All-imp ms f a.1)

-- The oldest of some messages, if they are as many as asked for and none is younger than m.
abbrev pub IsFull : ℕ → Message → List Message → Type 0
IsFull n m ms = (length ms ≡ n) × All (λ (x : Message). x.created_at ≤ m.created_at) ms

All-Memᴰ : (P : Message → Type 0) (m : Message) (ms : List Message) → All P ms → Memᴰ m ms → P m
All-Memᴰ P m [] a h = elim h [ ]
All-Memᴰ P m (x ∷ ms) a (head e) = subst P (sym e) a.0
All-Memᴰ P m (x ∷ ms) a (tail h) = All-Memᴰ P m ms a.1 h

-- The first n of ordered messages leave one out only for n that are no younger.
take_complete :
    (n : ℕ) (ms : List Message) (m : Message)
    → IsOrdered ms
    → Memᴰ m ms
    → Memᴰ m (take n ms) ⊎ IsFull n m (take n ms)
take_complete zero ms m o h = inr (refl, tt)
take_complete (suc n) [] m o h = elim h [ ]
take_complete (suc n) (x ∷ ms) m o (head e) = inl (head e)
take_complete (suc n) (x ∷ ms) m o (tail h) = elim (take_complete n ms m o.1 h) [
  | inl i ↦ inl (tail i)
  | inr f ↦
      inr (ap suc f.0, (All-Memᴰ (λ (y : Message). x.created_at ≤ y.created_at) m ms o.0 h, f.1))
]

-- A stored message is not awaited, or it is replayed, or as many are that are no younger.
abbrev pub IsSettled : ℕ → Text → List Message → Message → Type 0
IsSettled now d replayed m = (¬ (IsAwaited now d m)) ⊎ (Memᴰ m replayed ⊎ IsFull 200 m replayed)

settled :
    (now : ℕ) (d : Text) (ms : List Message) (m : Message)
    → Memᴰ m ms
    → IsSettled now d (missed now d ms) m
unfolding missed
settled now d ms m h =
    let found = select_rows (is_missed now d) ms in
    elim (Bool-cases (is_missed now d m)) [
      | inr e ↦ inl (λ a. ground (arith, e, awaited-missed now d m a))
      | inl e ↦ inr (
          take_complete 200 (order_rows older found) m (order-IsOrdered found)
            (Memᴰ-order older m found (Memᴰ-select (is_missed now d) ms m e h)))
    ]

All-each : (P : Message → Type 0) (ms : List Message) → ((m : Message) → Memᴰ m ms → P m) → All P ms
All-each P [] f = tt
All-each P (m ∷ ms) f = (f m (head refl), All-each P ms (λ x h. f x (tail h)))

-- What is replayed is at most 200 messages, oldest first, each addressed to the device,
-- unacknowledged and less than seven days old; and every stored message like that is among them,
-- unless 200 are replayed and none of these is younger than it.
pub missed_lem :
    (now : ℕ) (d : Text) (ms : List Message)
    → (length (missed now d ms) ≤ 200)
      × IsOrdered (missed now d ms)
      × All (IsAwaited now d) (missed now d ms)
      × All (IsSettled now d (missed now d ms)) ms
unfolding missed
missed_lem now d ms =
    let found = select_rows (is_missed now d) ms in
    let xs = order_rows older found in
    (
      length-take_le 200 xs,
      take-IsOrdered 200 xs (order-IsOrdered found),
      All-imp (missed now d ms) (missed-IsAwaited now d) (
          missed-All (λ (m : Message). is_missed now d m ≡ true) now d ms
            (select-All (is_missed now d) ms)),
      All-each (IsSettled now d (missed now d ms)) ms (λ m h. settled now d ms m h),
    )

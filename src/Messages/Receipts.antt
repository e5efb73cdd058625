-- ===== src/Messages/Receipts.antt =====
-- Acknowledgements (MarkDelivered and MarkRead of backend/internal/messages/messages.go).
use kalki_chat.Base.{
  ℕ, ◌≡◌, refl, Bool, false, List, [], ◌∷◌, arith, Text, eq_text, select_rows, update_rows, All,
  sym, subst,
}
use kalki_chat.Env.{Env}
use kalki_chat.Db.{Message, World, done}
use kalki_chat.Messages.{is_undelivered, set_delivered, mark_delivered, is_missed, missed}
use kalki_chat.Messages.Replay.{missed-All}

no_more :
    (id d : Text) (t : ℕ) (ms : List Message)
    → All
        (λ (m : Message). is_undelivered id d m ≡ false)
        (update_rows (is_undelivered id d) (set_delivered t) ms)
no_more id d t [] = tt
no_more id d t (m ∷ ms) = ground (arith, no_more id d t ms)

nothing_to_do :
    (p : Message → Bool) (f : Message → Message) (ms : List Message)
    → All (λ m. p m ≡ false) ms
    → update_rows p f ms ≡ ms
nothing_to_do p f [] a = refl
nothing_to_do p f (m ∷ ms) a = ground (arith, nothing_to_do p f ms a.1, a.0)

marked :
    (v : Env) (id d : Text) (w w' : World)
    → mark_delivered v id d w ≡ (done tt, w')
    → All (λ (m : Message). is_undelivered id d m ≡ false) w'.tables.messages
unfolding mark_delivered
marked v id d w w' h =
    let e : w'.tables.messages
        ≡ update_rows (is_undelivered id d) (set_delivered v.now) w.tables.messages =
      ground arith in
    subst (All (λ (m : Message). is_undelivered id d m ≡ false)) (sym e)
      (no_more id d v.now w.tables.messages)

-- If an acknowledgement is carried out, a second one by the same device, at any time, changes
-- nothing.
pub mark_delivered_once :
    (v v' : Env) (id d : Text) (w w' : World)
    → mark_delivered v id d w ≡ (done tt, w')
    → (mark_delivered v' id d w').1 ≡ w'
unfolding mark_delivered
mark_delivered_once v v' id d w w' h = ground (
  arith,
  nothing_to_do (is_undelivered id d) (set_delivered v'.now) w'.tables.messages
      (marked v id d w w' h),
)

not_replayed :
    (id d : Text) (now : ℕ) (ms : List Message)
    → All (λ (m : Message). is_undelivered id d m ≡ false) ms
    → All (λ (m : Message). eq_text m.id id ≡ false) (select_rows (is_missed now d) ms)
not_replayed id d now [] a = tt
not_replayed id d now (m ∷ ms) a = ground (arith, not_replayed id d now ms a.1, a.0)

-- If an acknowledgement of a message by its receiving device is carried out, no message with that
-- identifier is among those replayed to the device.
pub acknowledged_not_replayed :
    (v : Env) (id d : Text) (now : ℕ) (w w' : World)
    → mark_delivered v id d w ≡ (done tt, w')
    → All (λ (m : Message). eq_text m.id id ≡ false) (missed now d w'.tables.messages)
acknowledged_not_replayed v id d now w w' h =
    missed-All (λ (m : Message). eq_text m.id id ≡ false) now d w'.tables.messages
      (not_replayed id d now w'.tables.messages (marked v id d w w' h))

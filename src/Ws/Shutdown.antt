-- ===== src/Ws/Shutdown.antt =====
-- `Hub.Close` of backend/internal/ws/hub.go.
use kalki_chat.Base.{
  ℕ, ◌≡◌, refl, false, none, some, [], ◌∷◌, arith, if◌then◌else◌, Text, eq_text_refl, All, ◌∙◌, sym,
  subst,
}
use kalki_chat.Ws.Hub.{Hub, Clients, lookup_client, erase_client, update, close_all, close}
use kalki_chat.Ws.Map.{DistinctKeys, has_ref}
use kalki_chat.Ws.Deliver.{IsEntry, IsValid, not_has_ref}
use kalki_chat.Ws.Lifecycle.{shut, erase-entries}

erase-absent : (d : Text) (m : Clients) → lookup_client d m ≡ none → erase_client d m ≡ m
erase-absent d [] e = refl
erase-absent d ((k, r) ∷ m) e = ground (arith, erase-absent d m)

-- The clients of the map are closed, the others are as before, and the map is empty.
pub record Closed (m : Clients) (h h' : Hub) : Type 0 where
  pub emptied : h'.clients ≡ []
  pub shut_down : (q : ℕ) → h'.heap q ≡ (if has_ref q m then shut (h.heap q) else h.heap q)
  pub same_next : h'.next ≡ h.next

abbrev after_first : Text → ℕ → Clients → Hub → Hub
after_first d r m h = record h { heap = update h.heap r (shut (h.heap r)); clients = m }

close_all-cons :
    (d : Text) (r : ℕ) (m : Clients) (h : Hub)
    → h.clients ≡ (d, r) ∷ m
    → (h.heap r).closed ≡ false
    → lookup_client d m ≡ none
    → close_all ((d, r) ∷ m) h ≡ close_all m (after_first d r m h)
unfolding close_all
close_all-cons d r m h c o n = ground (arith, eq_text_refl d, erase-absent d m n)

close_all-Closed :
    (m : Clients) (h : Hub)
    → h.clients ≡ m
    → All (IsEntry h) m
    → DistinctKeys m
    → (h' : Hub) × (close_all m h ≡ some h') × Closed m h h'
close_all-Closed [] h c a d =
    (h, unfold close_all in refl, record { emptied = c; shut_down = λ q. refl; same_next = refl })
close_all-Closed ((k, r) ∷ m) h c a d =
    let h1 = after_first k r m h in
    let rest : All (IsEntry h1) m =
      subst (All (IsEntry h1)) (erase-absent k m d.0) (erase-entries k r h m a.0.1 a.1) in
    let (h', e, done) = close_all-Closed m h1 refl rest d.1 in
    let absent = not_has_ref h r m a.1 (ground arith) in
    (
      h',
      close_all-cons k r m h c a.0.2 d.0 ∙ e,
      record {
        emptied = done.emptied;
        shut_down = λ q. done.shut_down q ∙ ground arith;
        same_next = done.same_next;
      },
    )

-- Closing a valid hub does not panic: every client of the map is closed, no other client is
-- touched, the map ends empty, and the hub is valid.
pub close-Closed :
    (h : Hub) → IsValid h → (h' : Hub) × (close h ≡ some h') × Closed h.clients h h' × IsValid h'
unfolding close
close-Closed h v =
    let (h', e, done) = close_all-Closed h.clients h refl v.entries v.distinct in
    (
      h',
      e,
      done,
      record {
        distinct = subst DistinctKeys (sym done.emptied) tt;
        entries = subst (All (IsEntry h')) (sym done.emptied) tt;
        bounded = λ q. ground (arith, done.shut_down q, v.bounded q);
      },
    )

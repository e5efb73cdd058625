-- ===== src/Ws/Server/Races.antt =====
-- Two orders of steps that backend/internal/ws does not rule out: a connection that hangs up before
-- the hub has registered it, and a sender that still holds a client which was replaced.
use kalki_chat.Base.{ℕ, ◌≡◌, ◌≢◌, refl, false, Option, none, some, [], ◌∷◌, arith, eq_text_refl}
use kalki_chat.Ws.Hub.{Hub, ServerEvent, lookup_client, send, register, unregister}
use kalki_chat.Ws.Deliver.{IsValid}
use kalki_chat.Ws.Lifecycle.{IsFresh, is_at, register-Registered, has_ref-lookup_ne}
use kalki_chat.Ws.Server.{Server, take_register, take_unregister, run}

absent_is_at : (r : ℕ) (o : Option ℕ) → o ≢ some r → is_at o r ≡ false
absent_is_at r none n = refl
absent_is_at r (some q) n = ground arith

unregister_fresh :
    (r : ℕ) (h : Hub)
    → lookup_client (h.heap r).device_id h.clients ≢ some r
    → unregister r h ≡ some h
unfolding unregister
unregister_fresh r h n =
    ground (arith, absent_is_at r (lookup_client (h.heap r).device_id h.clients) n)

-- On a valid hub, if a fresh client waits both to be registered and to be unregistered and the
-- hub takes the second first, it ends with nothing waiting and with the client's device leading
-- to that client.
pub hang_up_first_leaks :
    (r : ℕ) (h : Hub)
    → IsValid h
    → IsFresh h r
    → (s : Server) × (run
          (take_unregister ∷ take_register ∷ [])
          (record { hub = h; registering = r ∷ []; unregistering = r ∷ [] })
        ≡ some s)
      × (lookup_client (h.heap r).device_id s.hub.clients ≡ some r)
      × (s.registering ≡ [])
      × (s.unregistering ≡ [])
unfolding run
hang_up_first_leaks r h v f =
    let (h', e, d) = register-Registered r h v f in
    let same =
      unregister_fresh r h (λ x. has_ref-lookup_ne r r (h.heap r).device_id h.clients f.2 x refl) in
    (
      record { hub = h'; registering = []; unregistering = [] },
      ground (arith, same, e),
      ground (arith, d.mapped (h.heap r).device_id, eq_text_refl (h.heap r).device_id),
      refl,
      refl,
    )

-- On a valid hub, once a fresh client of a connected device is registered, a send to the device's
-- earlier client panics.
pub replaced_send_panics :
    (r old : ℕ) (ev : ServerEvent) (h : Hub)
    → IsValid h
    → IsFresh h r
    → lookup_client (h.heap r).device_id h.clients ≡ some old
    → (h' : Hub) × (register r h ≡ some h') × (send ev old h' ≡ none)
unfolding send
replaced_send_panics r old ev h v f e =
    let (h', done, d) = register-Registered r h v f in (h', done, ground (arith, d.replaced old))

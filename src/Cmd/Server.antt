-- ===== src/Cmd/Server.antt =====
-- backend/cmd/server/main.go: the start, which ends at the first part that cannot be had, and the
-- shutdown of the hub.
use kalki_chat.Base.{
  ℕ, ◌≡◌, ◌∙◌, ap, Bool, true, false, not, Option, none, some, List, [], ◌∷◌, arith, if◌then◌else◌,
  is_empty, Text, lit, Bool-cases, inl, inr,
}
use kalki_chat.Ws.Hub.{Hub, Client, ServerEvent, push, retry_after_ms, broadcast, close}
use kalki_chat.Ws.Map.{has_ref}
use kalki_chat.Ws.Deliver.{IsValid}
use kalki_chat.Ws.Route.{broadcast-Delivered}
use kalki_chat.Ws.Shutdown.{close-Closed}

-- `migrationsDir`, for the value of MIGRATIONS_DIR (empty if there is none) and whether
-- "/migrations" is there.
abbrev pub migrations_dir : Text → Bool → Text
migrations_dir v exists =
    if not (is_empty v) then v else if exists then lit "/migrations" else lit "migrations"

-- What the start needs, in its order.
pub data Part : Type 0 where
  config postgres migrations redis object_store : Part

-- A step of the start: whether it can be had.
abbrev pub Parts : Type 0
Parts = Part → Bool

-- The parts that are open, or the one at which `log.Fatal` ends the program.
pub data Started : Type 0 where
  running : Started
  fatal : Part → Started

unfoldable pub start : Parts → List Part → Started
start p [] = running
start p (x ∷ xs) = let rest = start p xs in if p x then rest else fatal x

abbrev pub start_order : List Part
start_order = config ∷ postgres ∷ migrations ∷ redis ∷ object_store ∷ []

-- `server.shutdown`
abbrev pub shutdown_event : ServerEvent
shutdown_event = record {
  type = lit "server.shutdown";
  id = [];
  ts = 0;
  payload = retry_after_ms 5000;
}

-- From the signal on: the broadcast, `Shutdown` of the HTTP server, which leaves the sockets alone,
-- and `Close`.
unfoldable pub shut_down : Hub → Option Hub
shut_down h = elim (broadcast shutdown_event h) [ none ↦ none | some h' ↦ close h' ]

-- What becomes of a client.
abbrev pub dismissed : Client → Client
dismissed c = record (push shutdown_event c) { closed = true }

-- On a valid hub the shutdown ends without a panic and leaves no client in the map; every client
-- that was in it has the shutdown event at the end of its queue, if that had room, and a closed
-- channel, and no other client is changed.
pub shut_down_lem :
    (h : Hub)
    → IsValid h
    → (h' : Hub) × (shut_down h ≡ some h')
      × (h'.clients ≡ [])
      × ((r : ℕ) → h'.heap r ≡ (if has_ref r h.clients then dismissed (h.heap r) else h.heap r))
unfolding shut_down
shut_down_lem h v =
    let (x, e, d, v') = broadcast-Delivered shutdown_event h v in
    let (y, f, c, v'') = close-Closed x v' in
    (
      y,
      ground (arith, e, f),
      c.emptied,
      λ r. elim (Bool-cases (has_ref r h.clients)) [
        | inl m ↦
            let there : has_ref r x.clients ≡ true = ap (has_ref r) d.same_clients ∙ m in
            ground (arith, m, c.shut_down r, d.queues r, there)
        | inr m ↦
            let there : has_ref r x.clients ≡ false = ap (has_ref r) d.same_clients ∙ m in
            ground (arith, m, c.shut_down r, d.queues r, there)
      ],
    )

-- The program runs only if every part can be had, and else ends at the first that cannot.
pub start_lem : (p : Parts) (x : Part) → start p start_order ≡ fatal x → p x ≡ false
unfolding start
start_lem p x h = ground arith

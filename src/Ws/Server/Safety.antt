-- ===== src/Ws/Server/Safety.antt =====
-- What the orders of steps around the hub (backend/internal/ws) come to: a valid hub, or a panic.
use kalki_chat.Base.{◌≡◌, refl, some, List, [], ◌∷◌, ◌++◌, arith, All, ◌∙◌, ◌⊎◌, inl, inr, none, ap}
use kalki_chat.Ws.Hub.{Client}
use kalki_chat.Ws.Deliver.{IsValid}
use kalki_chat.Ws.Server.{Server, Action, act, run, new_server}
use kalki_chat.Ws.Server.Steps.{Safe, IsNamedAction, IsLate, act-IsSafe}
use kalki_chat.Ws.Server.Fresh.{IsSafe}

run-cons :
    (a : Action) (as' : List Action) (s s' : Server)
    → act a s ≡ some s'
    → run (a ∷ as') s ≡ run as' s'
unfolding run
run-cons a as' s s' e = rw (e, run)

run-stop : (a : Action) (as' : List Action) (s : Server) → act a s ≡ none → run (a ∷ as') s ≡ none
unfolding run
run-stop a as' s e = rw (e, run)

-- The run panics, at a late write and not before.
pub record Panic (as' : List Action) (s : Server) : Type 0 where
  pub before : List Action
  pub after : List Action
  pub at : Action
  pub split : as' ≡ before ++ at ∷ after
  pub there : Server
  pub reached : run before s ≡ some there
  pub valid : IsValid there.hub
  pub late : IsLate at there
  pub ends : run as' s ≡ none

-- The run ends, on a valid hub.
pub record Ending (as' : List Action) (s : Server) : Type 0 where
  pub last : Server
  pub runs : run as' s ≡ some last
  pub valid : IsValid last.hub

Panic-later :
    (a : Action) (as' : List Action) (s s' : Server)
    → act a s ≡ some s'
    → Panic as' s'
    → Panic (a ∷ as') s
Panic-later a as' s s' e p = record {
  before = a ∷ p.before;
  after = p.after;
  at = p.at;
  split = ap (λ bs. a ∷ bs) p.split;
  there = p.there;
  reached = run-cons a p.before s s' e ∙ p.reached;
  valid = p.valid;
  late = p.late;
  ends = run-cons a as' s s' e ∙ p.ends;
}

run-IsSafe :
    (as' : List Action) (s : Server) → All IsNamedAction as' → IsSafe s → Ending as' s ⊎ Panic as' s
unfolding Safe
run-IsSafe [] s n v = inl (record { last = s; runs = unfold run in refl; valid = v.valid })
run-IsSafe (a ∷ as') s n v = elim (act-IsSafe a s n.0 v) [
  | inl (s1, e, v1) ↦ elim (run-IsSafe as' s1 n.1 v1) [
    | inl g ↦
        let onward : Ending (a ∷ as') s = record {
          last = g.last;
          runs = run-cons a as' s s1 e ∙ g.runs;
          valid = g.valid;
        } in
        inl onward
    | inr p ↦ inr (Panic-later a as' s s1 e p)
  ]
  | inr (e, late) ↦
      let here : Panic (a ∷ as') s = record {
        before = [];
        after = as';
        at = a;
        split = refl;
        there = s;
        reached = unfold run in refl;
        valid = v.valid;
        late = late;
        ends = run-stop a as' s e;
      } in
      inr here
]

-- From a new hub, in whatever order connections arrive and hang up, the hub takes from its two
-- channels, goroutines that hold a client (its connection, or a replay) write to it, events for
-- named audiences come in, broadcasts are made and the server shuts down, either the run ends and
-- leaves the hub valid, or its first panic is a write to a client whose channel is closed, the
-- hub being valid up to then. Valid means that each device is at most once in the map, under its
-- own client, which is open, and that no queue holds more than 64 events.
pub run_new_safe :
    (as' : List Action) (c : Client)
    → All IsNamedAction as'
    → Ending as' (new_server c) ⊎ Panic as' (new_server c)
run_new_safe as' c n =
    let start : IsSafe (new_server c) =
      unfold new_server in
      record {
        valid = record { distinct = tt; entries = tt; bounded = λ r. omega arith };
        fresh = tt;
        once = tt;
      } in
    run-IsSafe as' (new_server c) n start

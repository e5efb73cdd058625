-- ===== src/Retention/Lease.antt =====
-- The ticks of the retention worker's replicas and their lease in Redis
-- (backend/internal/retention/worker.go).
use kalki_chat.Base.{
  ℕ, ◌+◌, ◌*◌, ◌≡◌, refl, Bool, true, false, not, ◌&&◌, Option, none, some, List, [], ◌∷◌, arith,
  leb, ltb, if◌then◌else◌, Bool-cases, inl, inr,
}
use kalki_chat.Env.{Env, second}
use kalki_chat.Retention.{Config, Stores, sweep_once}

-- What the replicas share: the stores, and the time at which the key in Redis goes.
pub record Shared : Type 0 where
  pub stores : Stores
  pub lease : Option ℕ

abbrev pub is_held : ℕ → Option ℕ → Bool
is_held now none = false
is_held now (some until) = ltb now until

-- A tick of some replica: the time and the failures are its environment's. Call 100 is SETNX.
abbrev pub acquires : Env → Shared → Bool
acquires v s = not (v.fails 100) && not (is_held v.now s.lease)

-- `acquireLease` and `sweepOnce`, as `Run` calls them at a tick.
unfoldable pub tick : Config → Env → Shared → Shared
tick c v s =
    if acquires v s
    then record { stores = sweep_once v c s.stores; lease = some (v.now + (c.sweep + 10 * second)) }
    else s

-- The times of the sweeps that a sequence of ticks makes.
unfoldable pub sweeps : Config → List Env → Shared → List ℕ
unfolding tick
sweeps c [] s = []
sweeps c (v ∷ vs) s =
    let rest = sweeps c vs (tick c v s) in if acquires v s then v.now ∷ rest else rest

-- Each time is at least so far behind the one before it.
abbrev pub is_spaced : ℕ → List ℕ → Bool
is_spaced gap [] = true
is_spaced gap (t ∷ []) = true
is_spaced gap (t ∷ u ∷ ts) = leb (t + gap) u && is_spaced gap (u ∷ ts)

-- The first of the times, if there is one, is not before the lease ends.
abbrev waits_for : Option ℕ → List ℕ → Bool
waits_for none ts = true
waits_for (some t) [] = true
waits_for (some t) (u ∷ ts) = leb t u

sweeps_wait : (c : Config) (vs : List Env) (s : Shared) → waits_for s.lease (sweeps c vs s) ≡ true
unfolding sweeps tick
sweeps_wait c [] s = ground arith
sweeps_wait c (v ∷ vs) s = elim (Bool-cases (acquires v s)) [
  | inl e ↦ ground (arith, e)
  | inr e ↦ ground (arith, e, sweeps_wait c vs s)
]

spaced-cons :
    (gap t : ℕ) (ts : List ℕ)
    → waits_for (some (t + gap)) ts ≡ true
    → is_spaced gap ts ≡ true
    → is_spaced gap (t ∷ ts) ≡ true
spaced-cons gap t [] h g = refl
spaced-cons gap t (u ∷ ts) h g = ground arith

-- Whatever the times and failures of the ticks of all replicas, two sweeps that the lease admits
-- one after the other are at least the interval and ten seconds apart.
pub sweeps_spaced :
    (c : Config) (vs : List Env) (s : Shared)
    → is_spaced (c.sweep + 10 * second) (sweeps c vs s) ≡ true
unfolding sweeps tick
sweeps_spaced c [] s = refl
sweeps_spaced c (v ∷ vs) s = elim (Bool-cases (acquires v s)) [
  | inl e ↦
      let s' : Shared = record {
        stores = sweep_once v c s.stores;
        lease = some (v.now + (c.sweep + 10 * second));
      } in
      ground (
        arith,
        e,
        spaced-cons (c.sweep + 10 * second) v.now (sweeps c vs s') (sweeps_wait c vs s')
            (sweeps_spaced c vs s'),
      )
  | inr e ↦ ground (arith, e, sweeps_spaced c vs s)
]

-- A replica that has swept at a tick does nothing at the next, one interval later.
pub next_tick_skipped :
    (c : Config) (v v' : Env) (s : Shared)
    → acquires v s ≡ true
    → v'.now ≡ v.now + c.sweep
    → tick c v' (tick c v s) ≡ tick c v s
unfolding tick
next_tick_skipped c v v' s e t = ground arith

-- ===== src/Db/Monad.antt =====
-- A request's steps: they read and write the tables, publish to Redis, and may be refused. What was
-- written before a refusal stays written, but inside a transaction.
use kalki_chat.Base.{
  ℕ, Bool, Option, none, some, List, [], ◌∷◌, ◌++◌, Text, if◌then◌else◌, ◌≡◌, refl, ◌⊎◌, inl, inr,
}
use kalki_chat.Env.{Env}
use kalki_chat.Ws.Hub.{ServerEvent}
use kalki_chat.Db.Schema.{Tables}

pub record World : Type 0 where
  pub tables : Tables
  -- What was published to Redis, by channel, oldest first.
  pub published : List (Text × ServerEvent)

pub data Outcome (E A : Type 0) : Type 0 where
  done : A → Outcome E A
  refused : E → Outcome E A

pub Outcome-cases :
    {E A : Type 0} (p : Outcome E A × World)
    → ((a : A) × (w : World) × (p ≡ (done a, w))) ⊎ ((e : E) × (w : World) × (p ≡ (refused e, w)))
Outcome-cases (done a, w) = inl (a, w, refl)
Outcome-cases (refused e, w) = inr (e, w, refl)

abbrev pub M : Type 0 → Type 0 → Type 0
M E A = World → Outcome E A × World

module _ {E A : Type 0} where
  abbrev pub pure : A → M E A
  pure a w = (done a, w)

  abbrev pub refuse : E → M E A
  refuse e w = (refused e, w)

infixl 5 ◌>>=◌ ◌>>◌
abbrev pub ◌>>=◌ : {E A B : Type 0} → M E A → (A → M E B) → M E B
◌>>=◌ m f w = let (r, w') = m w in elim r [ done a ↦ f a w' | refused e ↦ (refused e, w') ]

abbrev pub ◌>>◌ : {E A B : Type 0} → M E A → M E B → M E B
m >> k = m >>= λ _. k

module _ {E : Type 0} where
  -- `if !ok { return e }`
  abbrev pub require : Bool → E → M E (Unit {0})
  require b e w = (if b then done tt else refused e, w)

  -- A value, or the error for its absence.
  abbrev pub need : {A : Type 0} → Option A → E → M E A
  need none e w = (refused e, w)
  need (some a) e w = (done a, w)

  -- The n-th call: a query.
  abbrev pub query : {A : Type 0} → Env → ℕ → E → (Tables → A) → M E A
  query v n e f w = (if v.fails n then refused e else done (f w.tables), w)

  -- The n-th call: a statement. `none` is a constraint that is violated.
  abbrev pub exec : Env → ℕ → E → (Tables → Option Tables) → M E (Unit {0})
  exec v n e f w =
      if v.fails n
      then (refused e, w)
      else elim (f w.tables) [ none ↦ (refused e, w) | some t ↦ (done tt, record w { tables = t }) ]

  -- A statement whose error the code drops (`_, _ = db.Exec(...)`).
  abbrev pub try_exec : Env → ℕ → (Tables → Option Tables) → M E (Unit {0})
  try_exec v n f w =
      if v.fails n
      then (done tt, w)
      else elim (f w.tables) [ none ↦ (done tt, w) | some t ↦ (done tt, record w { tables = t }) ]

  -- `Hub.Publish`
  abbrev pub publish : Env → ℕ → E → Text → ServerEvent → M E (Unit {0})
  publish v n e channel ev w =
      if v.fails n
      then (refused e, w)
      else (done tt, record w { published = w.published ++ (channel, ev) ∷ [] })

  -- Calls n (begin) and n + 1 (commit) around a body: what the body wrote stays only if the body
  -- and the commit succeed.
  abbrev pub transaction : {A : Type 0} → Env → ℕ → ℕ → E → M E A → M E A
  transaction v begin commit e body w =
      if v.fails begin
      then (refused e, w)
      else (let (r, w') = body w in
          elim r [
            | done a ↦ if v.fails commit then (refused e, w) else (done a, w')
            | refused x ↦ (refused x, w)
          ])

  -- The same, for a body some of whose results are answered without a commit, so rolled back.
  abbrev pub transaction_if : {A : Type 0} → (A → Bool) → Env → ℕ → ℕ → E → M E A → M E A
  transaction_if commits v begin commit e body w =
      if v.fails begin
      then (refused e, w)
      else (let (r, w') = body w in
          elim r [
            | done a ↦
                if commits a
                then (if v.fails commit then (refused e, w) else (done a, w'))
                else (done a, w)
            | refused x ↦ (refused x, w)
          ])

-- The errors of an inner call, in the terms of its caller.
abbrev pub on_error : {E F A : Type 0} → (E → F) → M E A → M F A
on_error g m w =
    let (r, w') = m w in elim r [ done a ↦ (done a, w') | refused e ↦ (refused (g e), w') ]

-- ===== src/Db/Step.antt =====
-- What the steps of a request leave true of the tables: a predicate that every statement keeps is
-- kept by the request, whatever fails in it.
use kalki_chat.Base.{
  ℕ, ◌≡◌, refl, sym, subst, Bool, true, false, Option, none, some, arith, Text, inl, inr, ◌⊎◌,
  if◌then◌else◌, Bool-cases, Option-cases,
}
use kalki_chat.Env.{Env}
use kalki_chat.Ws.Hub.{ServerEvent}
use kalki_chat.Db.Schema.{Tables}
use kalki_chat.Db.Monad.{
  World, Outcome, done, refused, Outcome-cases, M, pure, refuse, ◌>>=◌, require, need, query, exec,
  try_exec, publish, transaction, transaction_if, on_error,
}

pub record Keeps {E A : Type 0} (I : Tables → Type 0) (m : M E A) : Type 0 where
  pub at : (w : World) → I w.tables → I (m w).1.tables

-- What each step makes of the world.
module _ {E : Type 0} where
  need-world : {A : Type 0} (o : Option A) (e : E) (w : World) → (need o e w).1 ≡ w
  need-world none e w = refl
  need-world (some a) e w = refl

  publish-tables :
      (v : Env) (n : ℕ) (e : E) (c : Text) (ev : ServerEvent) (w : World)
      → (publish v n e c ev w).1.tables ≡ w.tables
  publish-tables v n e c ev w = ground arith

  bind-done :
      {A B : Type 0} (m : M E A) (f : A → M E B) (w x : World) (a : A)
      → m w ≡ (done a, x)
      → ((m >>= f) w).1 ≡ (f a x).1
  bind-done m f w x a h = ground (arith, h)

  bind-refused :
      {A B : Type 0} (m : M E A) (f : A → M E B) (w x : World) (e : E)
      → m w ≡ (refused e, x)
      → ((m >>= f) w).1 ≡ x
  bind-refused m f w x e h = ground (arith, h)

  exec-tables :
      (v : Env) (n : ℕ) (e : E) (f : Tables → Option Tables) (w : World)
      → ((exec v n e f w).1.tables ≡ w.tables) ⊎ (f w.tables ≡ some (exec v n e f w).1.tables)
  exec-tables v n e f w = elim (Bool-cases (v.fails n)) [
    | inl b ↦ inl (ground (arith, b))
    | inr b ↦ elim (Option-cases (f w.tables)) [
      | inl z ↦ inl (ground (arith, b, z))
      | inr (t, z) ↦ inr (ground (arith, b, z))
    ]
  ]

  transaction-world :
      {A : Type 0} (v : Env) (b c : ℕ) (e : E) (m : M E A) (w : World)
      → ((transaction v b c e m w).1 ≡ w) ⊎ ((transaction v b c e m w).1 ≡ (m w).1)
  transaction-world v b c e m w = elim (Outcome-cases (m w)) [
    | inl (a, x, h) ↦ ground (arith, h)
    | inr (y, x, h) ↦ ground (arith, h)
  ]

  transaction_if-world :
      {A : Type 0} (p : A → Bool) (v : Env) (b c : ℕ) (e : E) (m : M E A) (w : World)
      → ((transaction_if p v b c e m w).1 ≡ w) ⊎ ((transaction_if p v b c e m w).1 ≡ (m w).1)
  transaction_if-world p v b c e m w = elim (Outcome-cases (m w)) [
    | inl (a, x, h) ↦ ground (arith, h)
    | inr (y, x, h) ↦ ground (arith, h)
  ]

  on_error-world : {F A : Type 0} (g : F → E) (m : M F A) (w : World) → (on_error g m w).1 ≡ (m w).1
  on_error-world g m w = elim (Outcome-cases (m w)) [
    | inl (a, x, h) ↦ ground (arith, h)
    | inr (y, x, h) ↦ ground (arith, h)
  ]

try_exec-tables :
    (E : Type 0) (v : Env) (n : ℕ) (f : Tables → Option Tables) (w : World)
    → ((try_exec {E = E} v n f w).1.tables ≡ w.tables)
      ⊎ (f w.tables ≡ some (try_exec {E = E} v n f w).1.tables)
try_exec-tables E v n f w = elim (Bool-cases (v.fails n)) [
  | inl b ↦ inl (ground (arith, b))
  | inr b ↦ elim (Option-cases (f w.tables)) [
    | inl z ↦ inl (ground (arith, b, z))
    | inr (t, z) ↦ inr (ground (arith, b, z))
  ]
]

module _ {I : Tables → Type 0} {E : Type 0} where
  -- Steps that only read.
  pub Keeps-pure : {A : Type 0} {a : A} → Keeps {E = E} I (pure a)
  Keeps-pure = record { at = λ w i. i }

  pub Keeps-refuse : {A : Type 0} {e : E} → Keeps {A = A} I (refuse e)
  Keeps-refuse = record { at = λ w i. i }

  pub Keeps-require : (b : Bool) (e : E) → Keeps I (require b e)
  Keeps-require b e = record { at = λ w i. i }

  pub Keeps-need : {A : Type 0} (o : Option A) (e : E) → Keeps I (need o e)
  Keeps-need o e = record {
    at = λ w i. subst (λ (x : World). I x.tables) (sym (need-world o e w)) i;
  }

  pub Keeps-query :
      {A : Type 0} (v : Env) (n : ℕ) (e : E) (f : Tables → A) → Keeps I (query v n e f)
  Keeps-query v n e f = record { at = λ w i. i }

  pub Keeps-publish :
      (v : Env) (n : ℕ) (e : E) (c : Text) (ev : ServerEvent) → Keeps I (publish v n e c ev)
  Keeps-publish v n e c ev = record { at = λ w i. subst I (sym (publish-tables v n e c ev w)) i }

  -- Two steps, one after the other.
  at_world :
      {A : Type 0} {m : M E A}
      → Keeps I m
      → (w x : World) (o : Outcome E A) → m w ≡ (o, x)
      → I w.tables
      → I x.tables
  at_world {A} k w x o h i = subst (λ (p : Outcome E A × World). I (p.1.tables)) h (k.at w i)

  pub Keeps-bind :
      {A B : Type 0} {m : M E A} {f : A → M E B}
      → Keeps I m
      → ((a : A) → Keeps I (f a))
      → Keeps I (m >>= f)
  Keeps-bind {A} {B} {m} {f} k l = record {
    at = λ w i. elim (Outcome-cases (m w)) [
      | inl (a, x, e) ↦
          subst (λ (y : World). I y.tables) (sym (bind-done m f w x a e))
            ((l a).at x (at_world k w x (done a) e i))
      | inr (y, x, e) ↦
          subst (λ (z : World). I z.tables) (sym (bind-refused m f w x y e))
            (at_world k w x (refused y) e i)
    ];
  }

  pub Keeps-if :
      {A : Type 0} (b : Bool) {m k : M E A} → Keeps I m → Keeps I k → Keeps I (if b then m else k)
  Keeps-if true p q = p
  Keeps-if false p q = q

  -- Statements.
  pub Keeps-exec :
      (v : Env) (n : ℕ) (e : E) (f : Tables → Option Tables)
      → ((t t' : Tables) → f t ≡ some t' → I t → I t')
      → Keeps I (exec v n e f)
  Keeps-exec v n e f k = record {
    at = λ w i. elim (exec-tables v n e f w) [
      | inl z ↦ subst I (sym z) i
      | inr z ↦ k w.tables (exec v n e f w).1.tables z i
    ];
  }

  pub Keeps-try_exec :
      (v : Env) (n : ℕ) (f : Tables → Option Tables)
      → ((t t' : Tables) → f t ≡ some t' → I t → I t')
      → Keeps {E = E} I (try_exec v n f)
  Keeps-try_exec v n f k = record {
    at = λ w i. elim (try_exec-tables E v n f w) [
      | inl z ↦ subst I (sym z) i
      | inr z ↦ k w.tables (try_exec {E = E} v n f w).1.tables z i
    ];
  }

  pub Keeps-transaction :
      {A : Type 0} (v : Env) (b c : ℕ) (e : E) {m : M E A}
      → Keeps I m
      → Keeps I (transaction v b c e m)
  Keeps-transaction v b c e {m} k = record {
    at = λ w i. elim (transaction-world v b c e m w) [
      | inl z ↦ subst (λ (x : World). I x.tables) (sym z) i
      | inr z ↦ subst (λ (x : World). I x.tables) (sym z) (k.at w i)
    ];
  }

  pub Keeps-transaction_if :
      {A : Type 0} (p : A → Bool) (v : Env) (b c : ℕ) (e : E) {m : M E A}
      → Keeps I m
      → Keeps I (transaction_if p v b c e m)
  Keeps-transaction_if p v b c e {m} k = record {
    at = λ w i. elim (transaction_if-world p v b c e m w) [
      | inl z ↦ subst (λ (x : World). I x.tables) (sym z) i
      | inr z ↦ subst (λ (x : World). I x.tables) (sym z) (k.at w i)
    ];
  }

  pub Keeps-on_error : {F A : Type 0} (g : F → E) {m : M F A} → Keeps I m → Keeps I (on_error g m)
  Keeps-on_error g {m} k = record {
    at = λ w i. subst (λ (x : World). I x.tables) (sym (on_error-world g m w)) (k.at w i);
  }

pub ruleset keeps_rules = (
  Keeps-pure, Keeps-refuse, Keeps-require, Keeps-need, Keeps-query, Keeps-publish, Keeps-bind,
  Keeps-if, Keeps-transaction_if, Keeps-transaction, Keeps-on_error,
)

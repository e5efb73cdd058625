-- ===== src/Api/Router/Growth.antt =====
-- Handlers one after the other, and an audit log that only grows (backend/internal/api).
use kalki_chat.Base.{◌≡◌, refl, sym, ap, ◌∙◌, [], ◌∷◌, ◌++◌, arith, ◌⊎◌, inl, inr, subst}
use kalki_chat.Env.{Env}
use kalki_chat.Db.{World, Outcome, Outcome-cases, done, refused, ◌>>=◌}
use kalki_chat.Audit.{AuditEvent, audit_row}
use kalki_chat.Api.Http.{H, HttpError}
use kalki_chat.Api.Router.{answered}
use kalki_chat.Api.Router.Quiet.{log}
use kalki_chat.Api.Router.Recorded.{Logged}

-- The log stays as it was, or has one record added.
abbrev pub Grows : Env → World → World → Type 0
Grows v w w' = (log w' ≡ log w) ⊎ ((e : AuditEvent) × (log w' ≡ log w ++ audit_row v e ∷ []))

loud : (v : Env) (w w' : World) (e : AuditEvent) → Logged v w w' e → Grows v w w'
loud v w w' e (inl h) = inl h
loud v w w' e (inr h) = inr (e, h)

Grows-after : (v : Env) (w x y : World) → log x ≡ log w → Grows v x y → Grows v w y
Grows-after v w x y h (inl g) = inl (g ∙ h)
Grows-after v w x y h (inr (e, g)) = inr (e, g ∙ ap (λ l. l ++ audit_row v e ∷ []) h)

bind-done :
    {A B : Type 0} (m : H A) (f : A → H B) (w x : World) (a : A)
    → m w ≡ (done a, x)
    → ((m >>= f) w).1 ≡ (f a x).1
bind-done m f w x a e = ground (arith, e)

bind-refused :
    {A B : Type 0} (m : H A) (f : A → H B) (w x : World) (y : HttpError)
    → m w ≡ (refused y, x)
    → ((m >>= f) w).1 ≡ x
bind-refused m f w x y e = ground (arith, e)

pub Grows-bind :
    {A B : Type 0} (v : Env) (m : H A) (f : A → H B) (w : World)
    → log (m w).1 ≡ log w
    → ((a : A) (x : World) → Grows v x (f a x).1)
    → Grows v w ((m >>= f) w).1
Grows-bind {A} v m f w h k = elim (Outcome-cases (m w)) [
  | inl (a, x, e) ↦
      let same : log x ≡ log w = ap (λ (p : Outcome HttpError A × World). log (p.1)) (sym e) ∙ h in
      subst (Grows v w) (sym (bind-done m f w x a e)) (Grows-after v w x (f a x).1 same (k a x))
  | inr (y, x, e) ↦
      let same : log x ≡ log w = ap (λ (p : Outcome HttpError A × World). log (p.1)) (sym e) ∙ h in
      subst (Grows v w) (sym (bind-refused m f w x y e)) (inl same)
]

-- The answer's body does not matter.
answered_world : {A : Type 0} (m : H A) (w : World) → (answered m w).1 ≡ (m w).1
answered_world m w = elim (Outcome-cases (m w)) [
  | inl (a, x, e) ↦ ground (arith, e)
  | inr (y, x, e) ↦ ground (arith, e)
]

pub Grows-answered :
    {A : Type 0} (v : Env) (m : H A) (w : World) → Grows v w (m w).1 → Grows v w (answered m w).1
Grows-answered v m w g = subst (Grows v w) (sym (answered_world m w)) g

pub recorded :
    {A : Type 0} (v : Env) (m : H A) (w : World) (e : AuditEvent)
    → ((w' : World) (o : Outcome HttpError A) → m w ≡ (o, w') → Logged v w w' e)
    → Grows v w (m w).1
recorded v m w e h = loud v w (m w).1 e (h (m w).1 (m w).0 refl)

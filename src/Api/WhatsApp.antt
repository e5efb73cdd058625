-- ===== src/Api/WhatsApp.antt =====
-- The WhatsApp configuration (backend/internal/api/admin.go) and the onboarding link
-- (backend/internal/api/onboarding.go).
use kalki_chat.Base.{
  ℕ, Bool, true, false, not, ◌&&◌, ◌||◌, Option, none, some, List, [], ◌∷◌, ◌++◌, leb, ◌==◌,
  if◌then◌else◌, length, Text, lit,
}
use kalki_chat.Env.{Env}
use kalki_chat.Db.{
  Tables, WhatsAppConfig, text, has_admin, World, M, Outcome, done, refused, pure, refuse, ◌>>=◌,
  ◌>>◌, require, need, query, exec, try_exec,
}
use kalki_chat.Audit.{record_event, admin_event}
use kalki_chat.Crypto.Jwt.{Claims}
use kalki_chat.Api.Http.{H, HttpError, http, db_500, bad_json, bad_phone, bad_message}
pub mod Link

abbrev pub is_digit : ℕ → Bool
is_digit c = leb b'0' c && leb c b'9'

abbrev pub all_digits : Text → Bool
all_digits [] = true
all_digits (c ∷ s) = is_digit c && all_digits s

-- `validE164`; the loop is over the text behind the plus.
unfoldable pub valid_e164 : Text → Bool
valid_e164 [] = false
valid_e164 (c ∷ s) =
    c == b'+' && (leb 8 (length (c ∷ s)) && (leb (length (c ∷ s)) 16 && all_digits s))

-- `digitsOnly`
unfoldable pub digits_only : Text → Text
digits_only [] = []
digits_only (c ∷ s) = let rest = digits_only s in if is_digit c then c ∷ rest else rest

pub record WhatsAppRequest : Type 0 where
  pub phone_e164 : Text
  pub message_template : Text

-- The update of the one row; its key to `admins` must refer to one.
abbrev pub set_whatsapp : WhatsAppConfig → Text → Tables → Option Tables
set_whatsapp c admin t = elim (t.whatsapp_config) [
  | none ↦ some t
  | some old ↦ if has_admin admin t then some (record t { whatsapp_config = some c }) else none
]

-- `adminPutWhatsApp`: call 0.
unfoldable pub admin_put_whatsapp : Env → Claims → Option WhatsAppRequest → H (Unit {0})
admin_put_whatsapp v c body = do
  r ← need body (http 400 bad_json)
  require (valid_e164 r.phone_e164) (http 400 bad_phone)
  require (leb 1 (length r.message_template) && leb (length r.message_template) 1000)
      (http 400 bad_message)
  exec v 0 db_500 (
      set_whatsapp
        (record {
          phone_e164 = r.phone_e164;
          message_template = r.message_template;
          updated_by_admin = some c.sub;
        })
        c.sub)
  record_event v (
      admin_event c.sub (lit "whatsapp_config.update") (lit "config") (lit "whatsapp")
        ((lit "phone_e164", text r.phone_e164) ∷ []))

-- `adminGetWhatsApp`: a missing row is an error of the query.
unfoldable pub admin_get_whatsapp : Env → H WhatsAppConfig
admin_get_whatsapp v = do found ← query v 0 db_500 (λ t. t.whatsapp_config); need found db_500

pub record OnboardingLink : Type 0 where
  pub phone_e164 : Text
  pub message_template : Text
  pub wa_me_url : Text

-- `onboardingLink`
unfoldable pub onboarding_link : Env → H OnboardingLink
onboarding_link v = do
  found ← query v 0 db_500 (λ t. t.whatsapp_config)
  c ← need found db_500
  pure (record {
    phone_e164 = c.phone_e164;
    message_template = c.message_template;
    wa_me_url =
        lit "https://wa.me/"
        ++ (digits_only c.phone_e164 ++ (lit "?text=" ++ v.query_escape c.message_template));
  })

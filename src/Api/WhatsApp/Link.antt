-- ===== src/Api/WhatsApp/Link.antt =====
-- From the number that an admin sets (backend/internal/api/admin.go) to the link that is given out
-- (backend/internal/api/onboarding.go).
use kalki_chat.Base.{◌≡◌, ◌≢◌, refl, true, false, some, [], ◌∷◌, ◌++◌, arith, Text, lit}
use kalki_chat.Env.{Env}
use kalki_chat.Db.{World, WhatsAppConfig, done, has_admin}
use kalki_chat.Crypto.Jwt.{Claims}
use kalki_chat.Api.WhatsApp.{
  WhatsAppRequest, all_digits, valid_e164, digits_only, admin_put_whatsapp, onboarding_link,
}

digits_only-all : (s : Text) → all_digits s ≡ true → digits_only s ≡ s
unfolding digits_only
digits_only-all [] h = refl
digits_only-all (c ∷ s) h = ground (arith, h, digits_only-all s)

digits_only-valid :
    (s : Text) → valid_e164 s ≡ true → (ds : Text) × (s ≡ b'+' ∷ ds) × (digits_only s ≡ ds)
unfolding valid_e164 digits_only
digits_only-valid [] h = absurd (ground arith)
digits_only-valid (c ∷ ds) h = (ds, ground (arith, h), ground (arith, h, digits_only-all ds))

put-valid :
    (v : Env) (c : Claims) (r : WhatsAppRequest) (w w' : World)
    → admin_put_whatsapp v c (some r) w ≡ (done tt, w')
    → valid_e164 r.phone_e164 ≡ true
unfolding admin_put_whatsapp
put-valid v c r w w' h = ground arith

put-stored :
    (v : Env) (c : Claims) (r : WhatsAppRequest) (w w' : World) (old : WhatsAppConfig)
    → admin_put_whatsapp v c (some r) w ≡ (done tt, w')
    → w.tables.whatsapp_config ≡ some old
    → w'.tables.whatsapp_config
      ≡ some (record {
        phone_e164 = r.phone_e164;
        message_template = r.message_template;
        updated_by_admin = some c.sub;
      })
unfolding admin_put_whatsapp
put-stored v c r w w' old h o = ground arith

link-stored :
    (v : Env) (w : World) (x : WhatsAppConfig) (ds : Text)
    → w.tables.whatsapp_config ≡ some x
    → digits_only x.phone_e164 ≡ ds
    → v.fails 0 ≡ false
    → onboarding_link v w ≡ (
      done (record {
        phone_e164 = x.phone_e164;
        message_template = x.message_template;
        wa_me_url =
            lit "https://wa.me/" ++ (ds ++ (lit "?text=" ++ v.query_escape x.message_template));
      }),
      w,
    )
unfolding onboarding_link
link-stored v w x ds h e up = ground (arith, h, e, up)

-- If an admin has set a number and a template, and the row existed, the onboarding link that is
-- answered next names that number without its plus and the template, escaped.
pub put-onboarding_link :
    (v v' : Env) (c : Claims) (r : WhatsAppRequest) (w w' : World) (old : WhatsAppConfig)
    → admin_put_whatsapp v c (some r) w ≡ (done tt, w')
    → w.tables.whatsapp_config ≡ some old
    → v'.fails 0 ≡ false
    → (digits : Text) × (r.phone_e164 ≡ b'+' ∷ digits)
      × (onboarding_link v' w' ≡ (
        done (record {
          phone_e164 = r.phone_e164;
          message_template = r.message_template;
          wa_me_url =
              lit "https://wa.me/"
              ++ (digits ++ (lit "?text=" ++ v'.query_escape r.message_template));
        }),
        w',
      ))
put-onboarding_link v v' c r w w' old h o up =
    let (ds, is, e) = digits_only-valid r.phone_e164 (put-valid v c r w w' h) in
    let stored = put-stored v c r w w' old h o in
    (
      ds,
      is,
      link-stored v' w'
          (record {
            phone_e164 = r.phone_e164;
            message_template = r.message_template;
            updated_by_admin = some c.sub;
          })
          ds stored e up,
    )

-- If the token's subject is no admin, as it is for the token of an admin's device, the update is
-- never carried out.
pub put_refused :
    (v : Env) (c : Claims) (r : WhatsAppRequest) (w w' : World) (old : WhatsAppConfig)
    → w.tables.whatsapp_config ≡ some old
    → has_admin c.sub w.tables ≡ false
    → admin_put_whatsapp v c (some r) w ≢ (done tt, w')
unfolding admin_put_whatsapp
put_refused v c r w w' old o absent h = ground arith

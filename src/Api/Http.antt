-- ===== src/Api/Http.antt =====
-- What a handler of backend/internal/api answers: a status and a code on an error (writeErr in
-- middleware.go), else the data of its JSON body. The text beside the code is left out.
use kalki_chat.Base.{ℕ, Option, Text, none, some, if◌then◌else◌, is_empty}
use kalki_chat.Db.{M}
use kalki_chat.Messages.{
  SendError, envelope_size, invalid_signature, unknown_sender, unknown_recipient, session_revoked,
  db,
}

pub data Code : Type 0 where
  bad_json missing_fields bad_platform db_error bad_credentials account_not_active bad_key
        sign_error :
      Code
  refresh_error invalid_refresh device_gone missing_token invalid_token jwt_not_configured : Code
  missing_session invalid_session not_user password_reused user_unknown weak_password too_many_opk :
      Code
  device_unknown no_signed_prekey bad_envelope bad_sig payload_too_large invalid_sig
        recipient_unknown :
      Code
  revoked_session bad_request no_claims body_too_large unknown_message not_participant missing_id :
      Code
  not_pending bad_hash media_unknown not_owner media_or_key_gone no_conversation
        missing_admin_device :
      Code
  totp_key totp_decrypt bad_totp pre2fa_required pre2fa_bad admin_missing bad_login rng_error : Code
  user_exists bad_phone bad_message panicked no_admin_device : Code

pub record HttpError : Type 0 where
  pub status : ℕ
  pub code : Code

abbrev pub H : Type 0 → Type 0
H A = M HttpError A

abbrev pub http : ℕ → Code → HttpError
http s c = record { status = s; code = c }

-- `http.StatusInternalServerError, "DB"`
abbrev pub db_500 : HttpError
db_500 = http 500 db_error

-- `mapErr` of messages.go
abbrev pub map_err : SendError → Code
map_err envelope_size = payload_too_large
map_err invalid_signature = invalid_sig
map_err unknown_sender = recipient_unknown
map_err unknown_recipient = recipient_unknown
map_err session_revoked = revoked_session
map_err db = bad_request

-- `nullable` of auth.go
abbrev pub nullable : Text → Option Text
nullable s = if is_empty s then none else some s

-- ===== src/Api/Router/Loops.antt =====
-- The requests with a loop, which leave the audit log alone too (backend/internal/api/prekeys.go and
-- media.go), and the middlewares.
use kalki_chat.Base.{ℕ, ◌≡◌, refl, Option, none, some, List, [], ◌∷◌, arith, Text, inl, inr}
use kalki_chat.Env.{Env}
use kalki_chat.Db.{World}
use kalki_chat.Api.Http.{HttpError}
use kalki_chat.Crypto.Jwt.{Claims, Signer, Json}
use kalki_chat.Api.AdminAuth.{RegisterRequest}
use kalki_chat.Api.Prekeys.{
  upsert_signed, insert_opk, upload_opks, prekeys_upload, UploadRequest, OpkRequest,
}
use kalki_chat.Api.Media.{is_good_key, key_row, insert_key, insert_keys, media_finalize, WrappedKey}
use kalki_chat.Db.{transaction, exec, require, ◌>>=◌, ◌>>◌, Outcome-cases, MediaKey, SignedPrekey}
use kalki_chat.Api.Http.{H, http, db_500, bad_key, too_many_opk}
use kalki_chat.Base.{Bool, length, ◌==◌, ◌&&◌, leb, suc}
use kalki_chat.Api.AdminAuth.{identify_admin}
use kalki_chat.Api.Middleware.{auth_middleware, admin_auth_middleware}
use kalki_chat.Api.Router.Quiet.{log}

-- Steps that leave the log alone, one after the other.
log-bind :
    {A B : Type 0} (m : H A) (f : A → H B) (w : World)
    → log (m w).1 ≡ log w
    → ((a : A) (x : World) → log (f a x).1 ≡ log x)
    → log ((m >>= f) w).1 ≡ log w
log-bind m f w h k = elim (Outcome-cases (m w)) [
  | inl (a, x, e) ↦ ground (arith, e, h, k a x)
  | inr (e, x, q) ↦ ground (arith, q, h)
]

log-require : (b : Bool) (e : HttpError) (w : World) → log (require b e w).1 ≡ log w
log-require b e w = ground arith

log-transaction :
    (v : Env) (begin commit : ℕ) (e : HttpError) (m : H (Unit {0})) (w : World)
    → log (m w).1 ≡ log w
    → log (transaction v begin commit e m w).1 ≡ log w
log-transaction v begin commit e m w h = elim (Outcome-cases (m w)) [
  | inl (a, x, q) ↦ ground (arith, q, h)
  | inr (y, x, q) ↦ ground (arith, q)
]

log-insert_opk :
    (v : Env) (n : ℕ) (d : Text) (k : ℕ) (pubkey : Text) (w : World)
    → log (exec v n db_500 (insert_opk d k pubkey) w).1 ≡ log w
log-insert_opk v n d k pubkey w = ground arith

log-upsert_signed :
    (v : Env) (k : SignedPrekey) (w : World) → log (exec v 0 db_500 (upsert_signed k) w).1 ≡ log w
log-upsert_signed v k w = ground arith

log-insert_key :
    (v : Env) (n : ℕ) (k : MediaKey) (w : World) → log (exec v n db_500 (insert_key k) w).1 ≡ log w
log-insert_key v n k w = ground arith

log-upload_opks :
    (v : Env) (n : ℕ) (d : Text) (ks : List OpkRequest) (w : World)
    → log (upload_opks v n d ks w).1 ≡ log w
unfolding upload_opks
log-upload_opks v n d [] w = refl
log-upload_opks v n d (k ∷ ks) w =
    let pubkey = v.base64_prefix k.pubkey in
    log-bind (require (length pubkey == 32) (http 400 bad_key))
      (λ u. exec v n db_500 (insert_opk d k.id pubkey) >> upload_opks v (suc n) d ks) w
      (log-require (length pubkey == 32) (http 400 bad_key) w)
      (λ u x.
        log-bind (exec v n db_500 (insert_opk d k.id pubkey)) (λ t. upload_opks v (suc n) d ks) x
          (log-insert_opk v n d k.id pubkey x) (λ t y. log-upload_opks v (suc n) d ks y))

log-insert_keys :
    (v : Env) (n : ℕ) (m : Text) (ks : List WrappedKey) (w : World)
    → log (insert_keys v n m ks w).1 ≡ log w
unfolding insert_keys
log-insert_keys v n m [] w = refl
log-insert_keys v n m (k ∷ ks) w =
    let row = key_row v m k in
    log-bind (require (is_good_key row) (http 400 bad_key))
      (λ u. exec v n db_500 (insert_key row) >> insert_keys v (suc n) m ks) w
      (log-require (is_good_key row) (http 400 bad_key) w)
      (λ u x.
        log-bind (exec v n db_500 (insert_key row)) (λ t. insert_keys v (suc n) m ks) x
          (log-insert_key v n row x) (λ t y. log-insert_keys v (suc n) m ks y))

pub log-prekeys_upload :
    (v : Env) (c : Claims) (r : Option UploadRequest) (w : World)
    → log (prekeys_upload v c r w).1 ≡ log w
unfolding prekeys_upload
log-prekeys_upload v c none w = refl
log-prekeys_upload v c (some r) w =
    let spub = v.base64_prefix r.pubkey in
    let ssig = v.base64_prefix r.signature in
    let fits = length spub == 32 && length ssig == 64 in
    let few = leb (length r.one_time_prekeys) 100 in
    let row : SignedPrekey = record {
      device_id = c.sub;
      prekey_id = r.id;
      pubkey = spub;
      signature = ssig;
      created_at = v.now;
    } in
    let rest = require few (http 400 too_many_opk) >> upload_opks v 1 c.sub r.one_time_prekeys in
    log-bind (require fits (http 400 bad_key)) (λ u. exec v 0 db_500 (upsert_signed row) >> rest) w
      (log-require fits (http 400 bad_key) w)
      (λ u x.
        log-bind (exec v 0 db_500 (upsert_signed row)) (λ t. rest) x (log-upsert_signed v row x)
          (λ t y.
            log-bind (require few (http 400 too_many_opk))
              (λ q. upload_opks v 1 c.sub r.one_time_prekeys) y
              (log-require few (http 400 too_many_opk) y)
              (λ q z. log-upload_opks v 1 c.sub r.one_time_prekeys z)))

pub log-media_finalize :
    (v : Env) (c : Claims) (id : Text) (r : Option (List WrappedKey)) (w : World)
    → log (media_finalize v c id r w).1 ≡ log w
unfolding media_finalize
log-media_finalize v c id none w = refl
log-media_finalize v c id (some ks) w =
    ground
      (arith, log-transaction v 1 2 db_500 (insert_keys v 3 id ks) w (log-insert_keys v 3 id ks w))

pub log-identify_admin :
    (v : Env) (r : RegisterRequest) (w : World) → log (identify_admin v r w).1 ≡ log w
unfolding identify_admin
log-identify_admin v r w = ground arith

pub log-auth_middleware :
    (v : Env) (j : Json) (s : Option Signer) (a : Text) (w : World)
    → log (auth_middleware v j s a w).1 ≡ log w
unfolding auth_middleware
log-auth_middleware v j s a w = ground arith

pub log-admin_auth_middleware :
    (v : Env) (j : Json) (s : Option Signer) (k : Option Text) (a : Text) (w : World)
    → log (admin_auth_middleware v j s k a w).1 ≡ log w
unfolding admin_auth_middleware
log-admin_auth_middleware v j s k a w = ground arith

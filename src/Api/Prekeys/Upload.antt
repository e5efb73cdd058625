-- ===== src/Api/Prekeys/Upload.antt =====
-- Prekeys over any sequence of uploads and fetches (backend/internal/api/prekeys.go).
use kalki_chat.Base.{
  ℕ, ◌≡◌, ◌≢◌, refl, true, false, some, List, [], ◌∷◌, arith, Text, leb, length, update_rows,
  exists_row, ◌∙◌, subst, sym,
}
use kalki_chat.Env.{Env}
use kalki_chat.Db.{World, Outcome, done, refused, OneTimePrekey}
use kalki_chat.Crypto.Jwt.{Claims}
use kalki_chat.Api.Http.{HttpError, http, too_many_opk}
use kalki_chat.Api.Prekeys.{Bundle, prekeys_fetch, prekeys_upload, UploadRequest, is_signed_of}
use kalki_chat.Api.Prekeys.Fetch.{
  IsSpent, fetch-rows, prekeys_fetch_refused, prekeys_fetch-first, consumed-IsSpent, spend-left,
  update-number, upload-IsSpent, first-IsSpent, number-first,
}

-- A request about prekeys, with what surrounds it.
pub data KeyRequest : Type 0 where
  fetch : Env → (device_id : Text) → KeyRequest
  upload : Env → Claims → UploadRequest → KeyRequest

abbrev pub serve : KeyRequest → World → World
serve (fetch v d) w = (prekeys_fetch v d w).1
serve (upload v c r) w = (prekeys_upload v c (some r) w).1

unfoldable pub serve_all : List KeyRequest → World → World
serve_all [] w = w
serve_all (q ∷ qs) w = serve_all qs (serve q w)

fetch-IsSpent :
    (v : Env) (d : Text) (n : ℕ) (w w' : World) (o : Outcome HttpError Bundle)
    → prekeys_fetch v d w ≡ (o, w')
    → IsSpent n w.tables.one_time_prekeys
    → IsSpent n w'.tables.one_time_prekeys
fetch-IsSpent v d n w w' (done b) h s =
    subst (IsSpent n) (sym (fetch-rows v d w w' b h))
      (consumed-IsSpent v n b.one_time_prekey w.tables.one_time_prekeys s)
fetch-IsSpent v d n w w' (refused e) h s =
    subst (λ (x : World). IsSpent n x.tables.one_time_prekeys)
      (sym (prekeys_fetch_refused v d w w' e h)) s

serve_all-IsSpent :
    (n : ℕ) (qs : List KeyRequest) (w : World)
    → IsSpent n w.tables.one_time_prekeys
    → IsSpent n (serve_all qs w).tables.one_time_prekeys
unfolding serve_all
serve_all-IsSpent n [] w s = s
serve_all-IsSpent n (fetch v d ∷ qs) w s =
    serve_all-IsSpent n qs (prekeys_fetch v d w).1
      (fetch-IsSpent v d n w (prekeys_fetch v d w).1 (prekeys_fetch v d w).0 refl s)
serve_all-IsSpent n (upload v c r ∷ qs) w s =
    serve_all-IsSpent n qs (prekeys_upload v c (some r) w).1 (upload-IsSpent v n c r w s)

pub handed-IsSpent :
    (v : Env) (d : Text) (w w' : World) (b : Bundle) (k : OneTimePrekey)
    → prekeys_fetch v d w ≡ (done b, w')
    → b.one_time_prekey ≡ some k
    → IsSpent k.id w'.tables.one_time_prekeys
handed-IsSpent v d w w' b k h g =
    let ks = w.tables.one_time_prekeys in
    let first = number-first d ks k (sym (prekeys_fetch-first v d w w' b h) ∙ g) in
    ground (
      arith,
      fetch-rows v d w w' b h,
      update-number k.id k.id v.now ks,
      spend-left k.id v.now ks,
      g,
    )

-- If a fetch hands out a one-time prekey, then after any sequence of further fetches and uploads
-- no fetch, for whatever device, hands out a key with the same number.
pub prekeys_fetch_once :
    (v v' : Env) (d d' : Text) (qs : List KeyRequest) (w w' w'' : World) (b b' : Bundle)
    (k k' : OneTimePrekey)
    → prekeys_fetch v d w ≡ (done b, w')
    → b.one_time_prekey ≡ some k
    → prekeys_fetch v' d' (serve_all qs w') ≡ (done b', w'')
    → b'.one_time_prekey ≡ some k'
    → k'.id ≢ k.id
prekeys_fetch_once v v' d d' qs w w' w'' b b' k k' h g h' g' =
    first-IsSpent d' k.id (serve_all qs w').tables.one_time_prekeys k'
      (serve_all-IsSpent k.id qs w' (handed-IsSpent v d w w' b k h g))
      (sym (prekeys_fetch-first v' d' (serve_all qs w') w'' b' h') ∙ g')

-- More than a hundred one-time keys are refused, but the signed prekey has been replaced by then.
pub prekeys_upload_too_many :
    (v : Env) (c : Claims) (r : UploadRequest) (w : World)
    → v.fails 0 ≡ false
    → length (v.base64_prefix r.pubkey) ≡ 32
    → length (v.base64_prefix r.signature) ≡ 64
    → leb (length r.one_time_prekeys) 100 ≡ false
    → exists_row (is_signed_of c.sub) w.tables.signed_prekeys ≡ true
    → ((prekeys_upload v c (some r) w).0 ≡ refused (http 400 too_many_opk))
      × ((prekeys_upload v c (some r) w).1.tables.signed_prekeys
          ≡ update_rows
              (is_signed_of c.sub)
              (λ o. record {
                device_id = c.sub;
                prekey_id = r.id;
                pubkey = v.base64_prefix r.pubkey;
                signature = v.base64_prefix r.signature;
                created_at = v.now;
              })
              w.tables.signed_prekeys)
unfolding prekeys_upload
prekeys_upload_too_many v c r w works pub_ok sig_ok many old = ground arith

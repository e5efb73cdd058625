-- ===== src/Api/Media/Access.antt =====
-- Who writes and who gets the keys of a blob (backend/internal/api/media.go).
use kalki_chat.Base.{
  ℕ, suc, ◌≡◌, true, some, List, [], ◌∷◌, arith, Text, eq_text_iff, find_row, Option-cases, inl,
  inr, All,
}
use kalki_chat.Env.{Env}
use kalki_chat.Db.{World, done, refused, MediaBlob}
use kalki_chat.Crypto.Jwt.{Claims}
use kalki_chat.Api.Http.{HttpError}
use kalki_chat.Api.Media.{
  WrappedKey, is_blob, is_key_for, insert_key, key_row, is_good_key, insert_keys, media_finalize,
  DownloadUrl, media_download_url,
}

-- A download is answered only to a device that a wrapped key was stored for, and with that key.
pub media_download_url-key :
    (v : Env) (c : Claims) (media : Text) (w w' : World) (o : DownloadUrl)
    → media_download_url v c media w ≡ (done o, w')
    → find_row (is_key_for media c.sub) w.tables.media_keys ≡ some o.key
unfolding media_download_url
media_download_url-key v c media w w' o h =
    elim (Option-cases (find_row (is_blob media) w.tables.media_blobs)) [
      | inl e ↦ ground (arith, h, e)
      | inr (b, e) ↦ elim (Option-cases (find_row (is_key_for media c.sub) w.tables.media_keys)) [
        | inl f ↦ ground (arith, h, e, f)
        | inr (k, f) ↦ ground (arith, h, e, f)
      ]
    ]

-- A refused request leaves everything as it was: the keys are written all or none.
pub media_finalize_refused :
    (v : Env) (c : Claims) (media : Text) (ks : List WrappedKey) (w w' : World) (e : HttpError)
    → media_finalize v c media (some ks) w ≡ (refused e, w')
    → w' ≡ w
unfolding media_finalize
media_finalize_refused v c media ks w w' e h = ground arith

insert_keys-good :
    (v : Env) (n : ℕ) (media : Text) (ks : List WrappedKey) (w w' : World)
    → insert_keys v n media ks w ≡ (done tt, w')
    → All (λ (k : WrappedKey). is_good_key (key_row v media k) ≡ true) ks
unfolding insert_keys
insert_keys-good v n media [] w w' h = tt
insert_keys-good v n media (k ∷ ks) w w' h =
    elim (Option-cases (insert_key (key_row v media k) w.tables)) [
      | inl e ↦ ground (arith, h, e)
      | inr (t, e) ↦ (
        ground (arith, h, e),
        insert_keys-good v (suc n) media ks (record w { tables = t }) w' (ground (arith, h, e)),
      )
    ]

-- If the wrapped keys of a blob are accepted, the blob exists, the device that asks is the one
-- that uploaded it, and each entry has a key of 32 bytes, a wrapped key that is not empty and a
-- nonce of 12 bytes or more.
pub media_finalize_owner :
    (v : Env) (c : Claims) (media : Text) (ks : List WrappedKey) (w w' : World)
    → media_finalize v c media (some ks) w ≡ (done tt, w')
    → (b : MediaBlob) × (find_row (is_blob media) w.tables.media_blobs ≡ some b)
      × (b.uploader_device_id ≡ c.sub)
      × All (λ (k : WrappedKey). is_good_key (key_row v media k) ≡ true) ks
unfolding media_finalize
media_finalize_owner v c media ks w w' h =
    elim (Option-cases (find_row (is_blob media) w.tables.media_blobs)) [
      | inl e ↦ ground (arith, h, e)
      | inr (b, e) ↦ (
        b,
        e,
        ground (arith, h, e, eq_text_iff b.uploader_device_id c.sub),
        insert_keys-good v 3 media ks w w' (ground (arith, h, e)),
      )
    ]

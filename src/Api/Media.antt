-- ===== src/Api/Media.antt =====
-- backend/internal/api/media.go: uploads, the wrapped keys of a blob, and downloads.
use kalki_chat.Base.{
  ℕ, suc, ◌+◌, ◌*◌, Bool, true, false, not, ◌&&◌, ◌||◌, Option, none, some, List, [], ◌∷◌, ◌++◌,
  leb, ◌==◌, if◌then◌else◌, length, take, Text, lit, eq_text, find_row, exists_row,
}
use mathlib.Core.Option
use kalki_chat.Env.{Env}
use kalki_chat.Db.{
  Tables, MediaBlob, MediaKey, has_device, has_blob, World, M, Outcome, done, refused, pure, refuse,
  ◌>>=◌, ◌>>◌, require, need, query, exec, transaction,
}
use kalki_chat.Crypto.Jwt.{Claims}
use kalki_chat.Api.Http.{
  H, HttpError, http, db_500, bad_json, payload_too_large, bad_hash, sign_error, media_unknown,
  not_owner, bad_key, media_or_key_gone,
}
pub mod Access

-- `MaxMediaSize`
abbrev pub max_media_size : ℕ
max_media_size = 10 * 1024 * 1024

-- `uploadReq`; a size that is not positive is 0.
pub record UploadUrlRequest : Type 0 where
  pub size_bytes : ℕ
  pub content_hash_sha256 : Text

pub record UploadUrl : Type 0 where
  pub media_id : Text
  pub put_url : Text

abbrev pub hash_32 : Env → Text → Option Text
hash_32 v s = elim (v.base64_decode s) [
  | none ↦ none
  | some h ↦ if length h == 32 then some h else none
]

-- `INSERT INTO media_blobs`
abbrev pub insert_blob : MediaBlob → Tables → Option Tables
insert_blob b t =
    if has_blob b.id t || exists_row (λ (x : MediaBlob). eq_text x.s3_key b.s3_key) t.media_blobs
    then none
    else if has_device b.uploader_device_id t
    then some (record t { media_blobs = t.media_blobs ++ b ∷ [] })
    else none

-- `mediaUploadURL`: call 0, then the signature of the address.
unfoldable pub media_upload_url : Env → Claims → Option UploadUrlRequest → H UploadUrl
media_upload_url v c body = do
  r ← need body (http 400 bad_json)
  require (leb 1 r.size_bytes && leb r.size_bytes max_media_size) (http 400 payload_too_large)
  hash ← need (hash_32 v r.content_hash_sha256) (http 400 bad_hash)
  let id = lit "med_" ++ v.uuid 0
  let key = lit "blobs/" ++ (take 2 id ++ (lit "/" ++ id))
  exec v 0 db_500 (
      insert_blob (record {
        id = id;
        s3_key = key;
        size_bytes = r.size_bytes;
        content_hash_sha256 = hash;
        uploader_device_id = c.sub;
        created_at = v.now;
      }))
  url ← need (v.presign_put key r.size_bytes) (http 500 sign_error)
  pure (record { media_id = id; put_url = url })

-- An entry of `finalizeReq`.
pub record WrappedKey : Type 0 where
  pub recipient_device_id : Text
  pub kem_pubkey : Text
  pub wrapped_key : Text
  pub nonce : Text

abbrev pub is_blob : Text → MediaBlob → Bool
is_blob id b = eq_text b.id id

abbrev pub is_key_for : (media device : Text) → MediaKey → Bool
is_key_for media d k = eq_text k.media_id media && eq_text k.recipient_device_id d

-- `INSERT INTO media_keys ... ON CONFLICT DO NOTHING`
abbrev pub insert_key : MediaKey → Tables → Option Tables
insert_key k t =
    if exists_row (is_key_for k.media_id k.recipient_device_id) t.media_keys
    then some t
    else if has_blob k.media_id t && has_device k.recipient_device_id t
    then some (record t { media_keys = t.media_keys ++ k ∷ [] })
    else none

-- The row of an entry, as its texts are decoded with errors dropped.
abbrev pub key_row : Env → Text → WrappedKey → MediaKey
key_row v media k = record {
  media_id = media;
  recipient_device_id = k.recipient_device_id;
  wrapped_key = v.base64_prefix k.wrapped_key;
  nonce = v.base64_prefix k.nonce;
  kem_pubkey = v.base64_prefix k.kem_pubkey;
}

abbrev pub is_good_key : MediaKey → Bool
is_good_key k =
    length k.kem_pubkey == 32 && (leb 1 (length k.wrapped_key) && leb 12 (length k.nonce))

-- The loop over the entries, from call n on.
unfoldable pub insert_keys : Env → ℕ → Text → List WrappedKey → H (Unit {0})
insert_keys v n media [] = pure tt
insert_keys v n media (k ∷ ks) = do
  require (is_good_key (key_row v media k)) (http 400 bad_key)
  exec v n db_500 (insert_key (key_row v media k))
  insert_keys v (suc n) media ks

-- `mediaFinalize`: call 0, a transaction of calls 1 (begin) and 2 (commit), and the loop from 3 on.
unfoldable pub media_finalize : Env → Claims → Text → Option (List WrappedKey) → H (Unit {0})
media_finalize v c media body = do
  keys ← need body (http 400 bad_json)
  found ← query v 0 db_500 (λ t. find_row (is_blob media) t.media_blobs)
  blob ← need found (http 404 media_unknown)
  require (eq_text blob.uploader_device_id c.sub) (http 403 not_owner)
  transaction v 1 2 db_500 (insert_keys v 3 media keys)

pub record DownloadUrl : Type 0 where
  pub get_url : Text
  pub key : MediaKey

-- The join of `mediaDownloadURL`.
abbrev pub find_media : (media device : Text) → Tables → Option (Text × MediaKey)
find_media media d t = elim (find_row (is_blob media) t.media_blobs) [
  | none ↦ none
  | some b ↦ elim (find_row (is_key_for media d) t.media_keys) [
    | none ↦ none
    | some k ↦ some (b.s3_key, k)
  ]
]

-- `mediaDownloadURL`: call 0, then the signature of the address.
unfoldable pub media_download_url : Env → Claims → Text → H DownloadUrl
media_download_url v c media = do
  found ← query v 0 db_500 (find_media media c.sub)
  row ← need found (http 404 media_or_key_gone)
  url ← need (v.presign_get (row.0)) (http 500 sign_error)
  pure (record { get_url = url; key = row.1 })

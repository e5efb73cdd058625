-- ===== src/Api/Prekeys.antt =====
-- backend/internal/api/prekeys.go: devices upload keys, and others fetch a bundle of them.
use kalki_chat.Base.{
  ℕ, suc, ◌+◌, Bool, true, false, not, ◌&&◌, ◌||◌, Option, none, some, List, [], ◌∷◌, ◌++◌, ltb,
  leb, ◌==◌, if◌then◌else◌, is_none, is_some, length, Text, eq_text, find_row, exists_row,
  select_rows, order_rows, update_rows,
}
use kalki_chat.Env.{Env}
use kalki_chat.Db.{
  Tables, Device, SignedPrekey, OneTimePrekey, has_device, World, M, Outcome, done, refused, pure,
  refuse, ◌>>=◌, ◌>>◌, require, need, query, exec, transaction,
}
use kalki_chat.Messages.{is_live_device}
use kalki_chat.Crypto.Jwt.{Claims}
use kalki_chat.Api.Http.{
  H, HttpError, http, db_500, bad_json, bad_key, too_many_opk, device_unknown, no_signed_prekey,
}
pub mod Fetch
pub mod Upload

-- One key of an upload. The identifier is one that the column can hold.
pub record OpkRequest : Type 0 where
  pub id : ℕ
  pub pubkey : Text

pub record UploadRequest : Type 0 where
  pub id : ℕ
  pub pubkey : Text
  pub signature : Text
  pub one_time_prekeys : List OpkRequest

abbrev pub is_signed_of : Text → SignedPrekey → Bool
is_signed_of d k = eq_text k.device_id d

-- `INSERT INTO signed_prekeys ... ON CONFLICT (device_id) DO UPDATE`
abbrev pub upsert_signed : SignedPrekey → Tables → Option Tables
upsert_signed k t =
    if exists_row (is_signed_of k.device_id) t.signed_prekeys
    then some (record t {
      signed_prekeys = update_rows (is_signed_of k.device_id) (λ o. k) t.signed_prekeys;
    })
    else if has_device k.device_id t
    then some (record t { signed_prekeys = t.signed_prekeys ++ k ∷ [] })
    else none

-- BIGSERIAL: a number above those in use.
abbrev pub next_serial : List OneTimePrekey → ℕ
next_serial [] = 1
next_serial (k ∷ ks) = if ltb k.id (next_serial ks) then next_serial ks else suc k.id

abbrev pub is_opk : Text → ℕ → OneTimePrekey → Bool
is_opk d n k = eq_text k.device_id d && k.prekey_id == n

-- `INSERT INTO one_time_prekeys ... ON CONFLICT (device_id, prekey_id) DO NOTHING`
abbrev pub insert_opk : (device_id : Text) → ℕ → Text → Tables → Option Tables
insert_opk d n pubkey t =
    if exists_row (is_opk d n) t.one_time_prekeys
    then some t
    else if has_device d t
    then some (record t {
      one_time_prekeys =
          t.one_time_prekeys
          ++ record {
            id = next_serial t.one_time_prekeys;
            device_id = d;
            prekey_id = n;
            pubkey = pubkey;
            consumed_at = none;
          }
            ∷ [];
    })
    else none

-- The loop over the one-time prekeys, from call n on.
unfoldable pub upload_opks : Env → ℕ → Text → List OpkRequest → H (Unit {0})
upload_opks v n d [] = pure tt
upload_opks v n d (k ∷ ks) = do
  let pubkey = v.base64_prefix k.pubkey
  require (length pubkey == 32) (http 400 bad_key)
  exec v n db_500 (insert_opk d k.id pubkey)
  upload_opks v (suc n) d ks

-- `prekeysUpload`
unfoldable pub prekeys_upload : Env → Claims → Option UploadRequest → H (Unit {0})
unfolding upload_opks
prekeys_upload v c body = do
  r ← need body (http 400 bad_json)
  let spub = v.base64_prefix r.pubkey
  let ssig = v.base64_prefix r.signature
  require (length spub == 32 && length ssig == 64) (http 400 bad_key)
  exec v 0 db_500 (
      upsert_signed (record {
        device_id = c.sub;
        prekey_id = r.id;
        pubkey = spub;
        signature = ssig;
        created_at = v.now;
      }))
  require (leb (length r.one_time_prekeys) 100) (http 400 too_many_opk)
  upload_opks v 1 c.sub r.one_time_prekeys

pub record Bundle : Type 0 where
  pub device_id : Text
  pub identity_ed25519 : Text
  pub identity_x25519 : Text
  pub signed_prekey : SignedPrekey
  pub one_time_prekey : Option OneTimePrekey

-- `WHERE device_id = $1 AND consumed_at IS NULL`
abbrev pub is_available : Text → OneTimePrekey → Bool
is_available d k = eq_text k.device_id d && is_none k.consumed_at

-- `ORDER BY id ASC LIMIT 1`
abbrev pub first_opk : Text → List OneTimePrekey → Option OneTimePrekey
first_opk d ks = find_row (is_available d) (order_rows (λ a b. leb a.id b.id) ks)

abbrev pub set_consumed : ℕ → OneTimePrekey → OneTimePrekey
set_consumed t k = record k { consumed_at = some t }

-- `UPDATE one_time_prekeys SET consumed_at = NOW() WHERE id = $1`, for the key that was found.
abbrev pub consume : Env → Option OneTimePrekey → H (Unit {0})
consume v none = pure tt
consume v (some k) = exec v 5 db_500 (λ t. some (record t {
  one_time_prekeys =
      update_rows (λ (o : OneTimePrekey). o.id == k.id) (set_consumed v.now) t.one_time_prekeys;
}))

-- The body of the transaction of `prekeysFetch`: calls 1, 2, 3 and 5.
unfoldable pub fetch_body : Env → Text → H Bundle
fetch_body v d = do
  found ← query v 1 db_500 (λ t. find_row (is_live_device d) t.devices)
  device ← need found (http 404 device_unknown)
  signed ← query v 2 (http 410 no_signed_prekey) (λ t. find_row (is_signed_of d) t.signed_prekeys)
  spk ← need signed (http 410 no_signed_prekey)
  opk ← query v 3 db_500 (λ t. first_opk d t.one_time_prekeys)
  consume v opk
  pure (record {
    device_id = d;
    identity_ed25519 = device.identity_ed25519;
    identity_x25519 = device.identity_x25519;
    signed_prekey = spk;
    one_time_prekey = opk;
  })

-- `prekeysFetch`
unfoldable pub prekeys_fetch : Env → Text → H Bundle
unfolding fetch_body
prekeys_fetch v d = transaction v 0 4 db_500 (fetch_body v d)

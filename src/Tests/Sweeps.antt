-- ===== src/Tests/Sweeps.antt =====
-- Runs of the retention worker.
use kalki_chat.Base.{◌*◌, ◌≡◌, refl, true, false, [], ◌∷◌, lit, eq_text, exists_row}
use kalki_chat.Env.{day}
use kalki_chat.Db.{MediaBlob}
use kalki_chat.Retention.{
  Config, Stores, purge_media, sweep_once, erase_blobs, erase_blob, expired_media,
}
use kalki_chat.Retention.Erasure.{has_key, is_same_blob, purge_media-erased}
use kalki_chat.Retention.Keeps.{Kept, sweep_once-Kept}
use kalki_chat.Tests.{env, tables}

abbrev pub config : Config
config = record { message_ttl = 30 * day; media_ttl = 30 * day; sweep = 0 }

abbrev pub stores : Stores
stores = record { tables = tables; objects = lit "o1" ∷ lit "o2" ∷ [] }

sweep_once-Kept_example : Kept env config stores (sweep_once env config stores)
sweep_once-Kept_example = sweep_once-Kept env config stores

purge_media-erased_example :
    (b : MediaBlob) × (exists_row (is_same_blob b) stores.tables.media_blobs ≡ true)
    × (b.s3_key ≡ lit "o1")
    × (has_key b.id (purge_media env config stores) ≡ false)
unfolding purge_media erase_blobs erase_blob expired_media eq_text
purge_media-erased_example = purge_media-erased env config stores (lit "o1") refl refl

-- ===== src/Retention/Erasure.antt =====
-- The order of erasure in purgeMedia (backend/internal/retention/worker.go).
use kalki_chat.Base.{
  ℕ, zero, suc, ◌+◌, take, select_rows, ◌≡◌, refl, Bool, true, false, ◌&&◌, List, [], ◌∷◌, arith,
  Text, eq_text, eq_text_iff, eq_text_refl, exists_row, delete_rows, inl, inr, Bool-cases,
}
use kalki_chat.Env.{Env}
use kalki_chat.Db.{Tables, MediaBlob, MediaKey}
use kalki_chat.Retention.{
  Stores, Config, is_key_of, erase_blob, erase_blobs, purge_media, expired_media, is_before,
}

abbrev pub has_object : Text → Stores → Bool
has_object key s = exists_row (λ o. eq_text o key) s.objects

abbrev pub has_key : Text → Stores → Bool
has_key id s = exists_row (is_key_of id) s.tables.media_keys

delete-key :
    (id : Text) (ks : List MediaKey)
    → exists_row (is_key_of id) (delete_rows (is_key_of id) ks) ≡ false
delete-key id [] = refl
delete-key id (k ∷ ks) = ground (arith, delete-key id ks)

delete-other :
    (id other : Text) (ks : List MediaKey)
    → exists_row (is_key_of other) ks ≡ false
    → exists_row (is_key_of other) (delete_rows (is_key_of id) ks) ≡ false
delete-other id other [] h = refl
delete-other id other (k ∷ ks) h = ground (arith, delete-other id other ks)

object-other :
    (key other : Text) (os : List Text)
    → eq_text key other ≡ false
    → exists_row (λ o. eq_text o other) (delete_rows (λ o. eq_text o key) os)
      ≡ exists_row (λ o. eq_text o other) os
object-other key other [] h = refl
object-other key other (o ∷ os) h = ground (
  arith,
  object-other key other os h,
  eq_text_iff o key,
  eq_text_iff o other,
  eq_text_iff key other,
)

-- Erasing a blob never brings a key back.
erase_blob-key :
    (v : Env) (n : ℕ) (b : MediaBlob) (s : Stores) (id : Text)
    → has_key id s ≡ false
    → has_key id (erase_blob v n b s) ≡ false
unfolding erase_blob
erase_blob-key v n b s id h =
    let one = delete-other b.id id s.tables.media_keys h in
    ground
      (arith, one, delete-other b.id id (delete_rows (is_key_of b.id) s.tables.media_keys) one, h)

erase_blobs-key :
    (v : Env) (n : ℕ) (bs : List MediaBlob) (s : Stores) (id : Text)
    → has_key id s ≡ false
    → has_key id (erase_blobs v n bs s) ≡ false
unfolding erase_blobs
erase_blobs-key v n [] s id h = h
erase_blobs-key v n (b ∷ bs) s id h =
    erase_blobs-key v (n + 2) bs (erase_blob v n b s) id (erase_blob-key v n b s id h)

-- Where one step makes an object disappear it was that of the blob, whose keys are gone.
erase_blob-object :
    (v : Env) (n : ℕ) (b : MediaBlob) (s : Stores) (key : Text)
    → has_object key s ≡ true
    → has_object key (erase_blob v n b s) ≡ false
    → (b.s3_key ≡ key) × (has_key b.id (erase_blob v n b s) ≡ false)
unfolding erase_blob
erase_blob-object v n b s key h g =
    let one = delete-key b.id s.tables.media_keys in
    let two = delete-other b.id b.id (delete_rows (is_key_of b.id) s.tables.media_keys) one in
    ground (arith, one, two, object-other b.s3_key key s.objects, eq_text_iff b.s3_key key)

-- A row of the table with the identifier and the object of a blob.
abbrev pub is_same_blob : MediaBlob → MediaBlob → Bool
is_same_blob b x = eq_text x.id b.id && eq_text x.s3_key b.s3_key

erase_blobs-erased :
    (v : Env) (n : ℕ) (bs : List MediaBlob) (s : Stores) (key : Text)
    → has_object key s ≡ true
    → has_object key (erase_blobs v n bs s) ≡ false
    → (b : MediaBlob) × (exists_row (is_same_blob b) bs ≡ true)
      × (b.s3_key ≡ key)
      × (has_key b.id (erase_blobs v n bs s) ≡ false)
unfolding erase_blobs
erase_blobs-erased v n [] s key h g = ground arith
erase_blobs-erased v n (b ∷ bs) s key h g =
    elim (Bool-cases (has_object key (erase_blob v n b s))) [
      | inl e ↦
          let (x, there, same, gone) =
            erase_blobs-erased v (n + 2) bs (erase_blob v n b s) key e g in
          (x, ground (arith, there), same, gone)
      | inr e ↦
          let (same, gone) = erase_blob-object v n b s key h e in
          (
            b,
            ground (arith, eq_text_refl b.id, eq_text_refl b.s3_key),
            same,
            erase_blobs-key v (n + 2) bs (erase_blob v n b s) b.id gone,
          )
    ]

exists-take :
    (p : MediaBlob → Bool) (n : ℕ) (bs : List MediaBlob)
    → exists_row p (take n bs) ≡ true
    → exists_row p bs ≡ true
exists-take p zero bs h = cc
exists-take p (suc n) [] h = cc
exists-take p (suc n) (b ∷ bs) h = ground (arith, exists-take p n bs)

exists-select :
    (p q : MediaBlob → Bool) (bs : List MediaBlob)
    → exists_row p (select_rows q bs) ≡ true
    → exists_row p bs ≡ true
exists-select p q [] h = cc
exists-select p q (b ∷ bs) h = ground (arith, exists-select p q bs)

exists-expired :
    (v : Env) (c : Config) (t : Tables) (p : MediaBlob → Bool)
    → exists_row p (expired_media v c t) ≡ true
    → exists_row p t.media_blobs ≡ true
unfolding expired_media
exists-expired v c t p h =
    let old : MediaBlob → Bool = λ b. is_before v.now c.media_ttl b.created_at in
    exists-select p old t.media_blobs (exists-take p 500 (select_rows old t.media_blobs) h)

-- If a run of `purgeMedia` removes an object from the store, whatever calls fail, then the object
-- is that of a row of media_blobs, and no wrapped key of that row's media is left.
pub purge_media-erased :
    (v : Env) (c : Config) (s : Stores) (key : Text)
    → has_object key s ≡ true
    → has_object key (purge_media v c s) ≡ false
    → (b : MediaBlob) × (exists_row (is_same_blob b) s.tables.media_blobs ≡ true)
      × (b.s3_key ≡ key)
      × (has_key b.id (purge_media v c s) ≡ false)
unfolding purge_media
purge_media-erased v c s key h g = elim (Bool-cases (v.fails 6)) [
  | inl e ↦ ground (arith, e)
  | inr e ↦
      let (b, there, same, gone) =
        erase_blobs-erased v 7 (expired_media v c s.tables) s key h (ground (arith, e, g)) in
      (b, exists-expired v c s.tables (is_same_blob b) there, same, ground (arith, e, gone))
]

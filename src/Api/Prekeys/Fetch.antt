-- ===== src/Api/Prekeys/Fetch.antt =====
-- What prekeysFetch of backend/internal/api/prekeys.go hands out.
use kalki_chat.Base.{
  exists-append, ℕ, suc, ◌<◌, ◌≡◌, ◌≢◌, refl, Bool, true, false, ◌&&◌, Option, none, some, List, [],
  ◌∷◌, arith, Text, find_row, order_rows, insert_row, update_rows, inl, inr, leb, ◌==◌, is_none,
  exists_row, Option-cases, ◌∙◌, sym,
}
use kalki_chat.Env.{Env}
use kalki_chat.Db.{World, done, refused, Tables, OneTimePrekey, SignedPrekey}
use kalki_chat.Crypto.Jwt.{Claims}
use kalki_chat.Api.Http.{HttpError}
use kalki_chat.Api.Prekeys.{
  Bundle, fetch_body, prekeys_fetch, first_opk, is_available, set_consumed, insert_opk, upload_opks,
  OpkRequest, UploadRequest, prekeys_upload, next_serial, upsert_signed,
}

-- A fetch that is refused leaves everything as it was.
pub prekeys_fetch_refused :
    (v : Env) (d : Text) (w w' : World) (e : HttpError)
    → prekeys_fetch v d w ≡ (refused e, w')
    → w' ≡ w
unfolding prekeys_fetch fetch_body
prekeys_fetch_refused v d w w' e h = ground arith

-- A fetch that succeeds hands out the first of the device's keys that are left, if there is one.
pub prekeys_fetch-first :
    (v : Env) (d : Text) (w w' : World) (b : Bundle)
    → prekeys_fetch v d w ≡ (done b, w')
    → b.one_time_prekey ≡ first_opk d w.tables.one_time_prekeys
unfolding prekeys_fetch fetch_body
prekeys_fetch-first v d w w' b h = ground arith

-- The rows of the one-time keys after a fetch.
abbrev pub consumed : Env → Option OneTimePrekey → List OneTimePrekey → List OneTimePrekey
consumed v none ks = ks
consumed v (some k) ks = update_rows (λ (o : OneTimePrekey). o.id == k.id) (set_consumed v.now) ks

pub fetch-rows :
    (v : Env) (d : Text) (w w' : World) (b : Bundle)
    → prekeys_fetch v d w ≡ (done b, w')
    → w'.tables.one_time_prekeys ≡ consumed v b.one_time_prekey w.tables.one_time_prekeys
unfolding prekeys_fetch fetch_body
fetch-rows v d w w' b h = ground arith

abbrev pub is_number : ℕ → OneTimePrekey → Bool
is_number n k = k.id == n

abbrev pub is_left : ℕ → OneTimePrekey → Bool
is_left n k = k.id == n && is_none k.consumed_at

-- There is a key with this number, and it has been handed out.
abbrev pub IsSpent : ℕ → List OneTimePrekey → Type 0
IsSpent n ks = (exists_row (is_number n) ks ≡ true) × (exists_row (is_left n) ks ≡ false)

insert-left :
    (le : OneTimePrekey → OneTimePrekey → Bool) (n : ℕ) (k : OneTimePrekey)
    (ks : List OneTimePrekey)
    → exists_row (is_left n) (insert_row le k ks) ≡ exists_row (is_left n) (k ∷ ks)
insert-left le n k [] = refl
insert-left le n k (x ∷ ks) = ground (arith, insert-left le n k ks)

order-left :
    (le : OneTimePrekey → OneTimePrekey → Bool) (n : ℕ) (ks : List OneTimePrekey)
    → exists_row (is_left n) (order_rows le ks) ≡ exists_row (is_left n) ks
order-left le n [] = refl
order-left le n (k ∷ ks) = ground (arith, insert-left le n k (order_rows le ks), order-left le n ks)

find-left :
    (d : Text) (n : ℕ) (ks : List OneTimePrekey) (k : OneTimePrekey)
    → exists_row (is_left n) ks ≡ false
    → find_row (is_available d) ks ≡ some k
    → k.id ≢ n
find-left d n [] k a h = cc
find-left d n (x ∷ ks) k a h = ground (arith, find-left d n ks k)

-- A key that was handed out is not the first of those that are left.
pub first-IsSpent :
    (d : Text) (n : ℕ) (ks : List OneTimePrekey) (k : OneTimePrekey)
    → IsSpent n ks
    → first_opk d ks ≡ some k
    → k.id ≢ n
first-IsSpent d n ks k s h =
    find-left d n (order_rows (λ a b. leb a.id b.id) ks) k
      (order-left (λ a b. leb a.id b.id) n ks ∙ s.1) h

insert-number :
    (le : OneTimePrekey → OneTimePrekey → Bool) (n : ℕ) (k : OneTimePrekey)
    (ks : List OneTimePrekey)
    → exists_row (is_number n) (insert_row le k ks) ≡ exists_row (is_number n) (k ∷ ks)
insert-number le n k [] = refl
insert-number le n k (x ∷ ks) = ground (arith, insert-number le n k ks)

order-number :
    (le : OneTimePrekey → OneTimePrekey → Bool) (n : ℕ) (ks : List OneTimePrekey)
    → exists_row (is_number n) (order_rows le ks) ≡ exists_row (is_number n) ks
order-number le n [] = refl
order-number le n (k ∷ ks) =
    ground (arith, insert-number le n k (order_rows le ks), order-number le n ks)

find-number :
    (d : Text) (ks : List OneTimePrekey) (k : OneTimePrekey)
    → find_row (is_available d) ks ≡ some k
    → exists_row (is_number k.id) ks ≡ true
find-number d [] k h = cc
find-number d (x ∷ ks) k h = ground (arith, find-number d ks k)

pub number-first :
    (d : Text) (ks : List OneTimePrekey) (k : OneTimePrekey)
    → first_opk d ks ≡ some k
    → exists_row (is_number k.id) ks ≡ true
number-first d ks k h =
    sym (order-number (λ a b. leb a.id b.id) k.id ks)
    ∙ find-number d (order_rows (λ a b. leb a.id b.id) ks) k h

pub update-number :
    (n m t : ℕ) (ks : List OneTimePrekey)
    → exists_row (is_number n) (update_rows (λ (o : OneTimePrekey). o.id == m) (set_consumed t) ks)
      ≡ exists_row (is_number n) ks
update-number n m t [] = refl
update-number n m t (k ∷ ks) = ground (arith, update-number n m t ks)

pub update-left :
    (n m t : ℕ) (ks : List OneTimePrekey)
    → exists_row (is_left n) ks ≡ false
    → exists_row (is_left n) (update_rows (λ (o : OneTimePrekey). o.id == m) (set_consumed t) ks)
      ≡ false
update-left n m t [] a = refl
update-left n m t (k ∷ ks) a = ground (arith, update-left n m t ks)

pub spend-left :
    (n t : ℕ) (ks : List OneTimePrekey)
    → exists_row (is_left n) (update_rows (λ (o : OneTimePrekey). o.id == n) (set_consumed t) ks)
      ≡ false
spend-left n t [] = refl
spend-left n t (k ∷ ks) = ground (arith, spend-left n t ks)

pub consumed-IsSpent :
    (v : Env) (n : ℕ) (o : Option OneTimePrekey) (ks : List OneTimePrekey)
    → IsSpent n ks
    → IsSpent n (consumed v o ks)
consumed-IsSpent v n none ks s = s
consumed-IsSpent v n (some k) ks s =
    (update-number n k.id v.now ks ∙ s.0, update-left n k.id v.now ks s.1)

-- A number in use is below the next one.
below_next :
    (n : ℕ) (ks : List OneTimePrekey) → exists_row (is_number n) ks ≡ true → n < next_serial ks
below_next n [] h = cc
below_next n (k ∷ ks) h = ground (arith, below_next n ks)

pub insert-IsSpent :
    (n : ℕ) (d : Text) (i : ℕ) (pubkey : Text) (t t' : Tables)
    → IsSpent n t.one_time_prekeys
    → insert_opk d i pubkey t ≡ some t'
    → IsSpent n t'.one_time_prekeys
insert-IsSpent n d i pubkey t t' s h =
    let ks = t.one_time_prekeys in
    let row : OneTimePrekey = record {
      id = next_serial ks;
      device_id = d;
      prekey_id = i;
      pubkey = pubkey;
      consumed_at = none;
    } in
    ground (
      arith,
      below_next n ks s.0,
      exists-append (is_number n) ks row,
      exists-append (is_left n) ks row,
      s.0,
      s.1,
    )

upload_opks-IsSpent :
    (v : Env) (n m : ℕ) (d : Text) (rs : List OpkRequest) (w : World)
    → IsSpent n w.tables.one_time_prekeys
    → IsSpent n (upload_opks v m d rs w).1.tables.one_time_prekeys
unfolding upload_opks
upload_opks-IsSpent v n m d [] w s = s
upload_opks-IsSpent v n m d (r ∷ rs) w s =
    elim (Option-cases (insert_opk d r.id (v.base64_prefix r.pubkey) w.tables)) [
      | inl e ↦ ground (arith, e, s)
      | inr (t, e) ↦
          let here = insert-IsSpent n d r.id (v.base64_prefix r.pubkey) w.tables t s e in
          ground (arith, e, s, upload_opks-IsSpent v n (suc m) d rs (record w { tables = t }) here)
    ]

pub upload-IsSpent :
    (v : Env) (n : ℕ) (c : Claims) (r : UploadRequest) (w : World)
    → IsSpent n w.tables.one_time_prekeys
    → IsSpent n (prekeys_upload v c (some r) w).1.tables.one_time_prekeys
unfolding prekeys_upload
upload-IsSpent v n c r w s =
    let k : SignedPrekey = record {
      device_id = c.sub;
      prekey_id = r.id;
      pubkey = v.base64_prefix r.pubkey;
      signature = v.base64_prefix r.signature;
      created_at = v.now;
    } in
    elim (Option-cases (upsert_signed k w.tables)) [
      | inl e ↦ ground (arith, e, s)
      | inr (t, e) ↦ ground (
        arith,
        e,
        s,
        upload_opks-IsSpent v n 1 c.sub r.one_time_prekeys (record w { tables = t })
            (ground (arith, e, s)),
      )
    ]

-- ===== src/Api/System/Devices.antt =====
-- A device that is revoked (devices.revoked_at) stays so, and sends nothing any more.
use kalki_chat.Base.{
  ℕ, ◌≡◌, ◌+◌, ◌∙◌, refl, sym, subst, Bool, true, false, ◌&&◌, some, List, [], ◌∷◌, Text, arith,
  update_rows, exists_row, find_row, Bool-cases, Option-cases, inl, inr, length, leb, eq_text_sound,
  eq_text, is_none, exists-append,
}
use kalki_chat.Env.{Env}
use kalki_chat.Db.{World, Tables, Device, MediaBlob, refused}
use kalki_chat.Crypto.Jwt.{Signer, Json}
use kalki_chat.Messages.{
  SendInput, SendError, send_message, max_envelope_bytes, validate, is_device, is_live_device,
}
use kalki_chat.Retention.{
  Config, Stores, expired_media, sweep_once, erase_blobs, erase_blob, purge_media, purge_messages,
  drop_messages, purge_prekeys, purge_auth, purge_admin_sync,
}
use kalki_chat.Api.Session.{revoke_device}
use kalki_chat.Api.Middleware.{set_seen}
use kalki_chat.Api.Router.Stable.{Stable}
use kalki_chat.Api.Router.SessionTables.{devices-Stable}
use kalki_chat.Api.System.{Move, Many, many-keeps, move-keeps}

-- There is a row with this id, and each that has it is revoked.
pub record IsRevokedIn (d : Text) (ds : List Device) : Type 0 where
  pub known : exists_row (is_device d) ds ≡ true
  pub dead : exists_row (is_live_device d) ds ≡ false

abbrev pub IsRevoked : Text → Tables → Type 0
IsRevoked d t = IsRevokedIn d t.devices

seen_known :
    (d : Text) (n : ℕ) (p : Device → Bool) (ds : List Device)
    → (exists_row (is_device d) (update_rows p (set_seen n) ds) ≡ exists_row (is_device d) ds)
      × (exists_row (is_live_device d) (update_rows p (set_seen n) ds)
          ≡ exists_row (is_live_device d) ds)
seen_known d n p [] = (refl, refl)
seen_known d n p (x ∷ ds) =
    (ground (arith, seen_known d n p ds), ground (arith, seen_known d n p ds))

revoked_known :
    (d : Text) (n : ℕ) (p : Device → Bool) (ds : List Device)
    → exists_row (is_device d) (update_rows p (revoke_device n) ds) ≡ exists_row (is_device d) ds
revoked_known d n p [] = refl
revoked_known d n p (x ∷ ds) = ground (arith, revoked_known d n p ds)

revoked_dead :
    (d : Text) (n : ℕ) (p : Device → Bool) (ds : List Device)
    → exists_row (is_live_device d) ds ≡ false
    → exists_row (is_live_device d) (update_rows p (revoke_device n) ds) ≡ false
revoked_dead d n p [] h = refl
revoked_dead d n p (x ∷ ds) h = ground (arith, revoked_dead d n p ds)

-- A row whose id is new is not the device's.
added_dead :
    (d : Text) (x : Device) (ds : List Device)
    → exists_row (is_device x.id) ds ≡ false
    → exists_row (is_device d) ds ≡ true
    → eq_text x.id d ≡ false
added_dead d x ds h k = elim (Bool-cases (eq_text x.id d)) [
  | inl e ↦
      let h' = subst (λ y. exists_row (is_device y) ds ≡ false) (eq_text_sound x.id d e) h in
      ground (arith, h', k)
  | inr e ↦ e
]

IsRevoked-Stable : (d : Text) → Stable (IsRevoked d)
IsRevoked-Stable d =
    devices-Stable (IsRevokedIn d)
      (λ n p ds i. record {
        known = (seen_known d n p ds).0 ∙ i.known;
        dead = (seen_known d n p ds).1 ∙ i.dead;
      })
      (λ n p ds i. record {
        known = revoked_known d n p ds ∙ i.known;
        dead = revoked_dead d n p ds i.dead;
      })
      (λ x ds h i. record {
        known = ground (arith, exists-append (is_device d) ds x, i.known);
        dead =
            ground
              (arith, exists-append (is_live_device d) ds x, i.dead, added_dead d x ds h i.known);
      })

erase_blob-devices :
    (v : Env) (n : ℕ) (b : MediaBlob) (s : Stores)
    → (erase_blob v n b s).tables.devices ≡ s.tables.devices
unfolding erase_blob
erase_blob-devices v n b s = ground arith

erase_blobs-devices :
    (v : Env) (n : ℕ) (bs : List MediaBlob) (s : Stores)
    → (erase_blobs v n bs s).tables.devices ≡ s.tables.devices
unfolding erase_blobs
erase_blobs-devices v n [] s = refl
erase_blobs-devices v n (b ∷ bs) s =
    erase_blobs-devices v (n + 2) bs (erase_blob v n b s) ∙ erase_blob-devices v n b s

purge_media-devices :
    (v : Env) (c : Config) (s : Stores) → (purge_media v c s).tables.devices ≡ s.tables.devices
unfolding purge_media
purge_media-devices v c s = ground (arith, erase_blobs-devices v 7 (expired_media v c s.tables) s)

sweep_once-devices :
    (v : Env) (c : Config) (s : Stores) → (sweep_once v c s).tables.devices ≡ s.tables.devices
unfolding sweep_once purge_messages drop_messages purge_prekeys purge_auth purge_admin_sync
sweep_once-devices v c s = ground (arith, purge_media-devices v c (purge_messages v c s))

-- A revoked device stays revoked.
pub revocation_lasts :
    (d : Text) (j : Json) (k : Signer) (w x : World)
    → Many (Move j k) w x
    → IsRevoked d w.tables
    → IsRevoked d x.tables
revocation_lasts d j k w x =
    many-keeps (Move j k) (λ w. IsRevoked d w.tables)
      (move-keeps (IsRevoked d) j k (IsRevoked-Stable d)
        (λ v c s i. subst (IsRevokedIn d) (sym (sweep_once-devices v c s)) i))
      w x

found_dead :
    (d : Text) (ds : List Device) (x : Device)
    → find_row (is_device d) ds ≡ some x
    → exists_row (is_live_device d) ds ≡ false
    → is_none x.revoked_at ≡ false
found_dead d [] x h k = ground arith
found_dead d (y ∷ ds) x h k = elim (Bool-cases (eq_text y.id d)) [
  | inl e ↦ ground (arith, e)
  | inr e ↦ found_dead d ds x (ground (arith, e)) (ground (arith, e))
]

send_message-dead :
    (v : Env) (i : SendInput) (w : World)
    → IsRevoked i.sender_device_id w.tables
    → (e : SendError) × (send_message v i w ≡ (refused e, w))
unfolding send_message validate
send_message-dead v i w r =
    elim (Bool-cases (leb 1 (length i.envelope) && leb (length i.envelope) max_envelope_bytes)) [
      | inr a ↦ (SendError.envelope_size, ground (arith, a))
      | inl a ↦ elim (Bool-cases (v.fails 10)) [
        | inl b ↦ (SendError.db, ground (arith, a, b))
        | inr b ↦ elim (Option-cases (find_row (is_device i.sender_device_id) w.tables.devices)) [
          | inl c ↦ (SendError.unknown_sender, ground (arith, a, b, c))
          | inr (x, c) ↦
              let dead = found_dead i.sender_device_id w.tables.devices x c r.dead in
              (SendError.session_revoked, ground (arith, a, b, c, dead))
        ]
      ]
    ]

-- Once a device is revoked, then after any sequence of requests, events of sockets, arrivals and
-- retention sweeps, whatever fails in them, a `Send` from it is refused and changes nothing.
pub revoked_sends_nothing :
    (j : Json) (k : Signer) (w x : World) (v : Env) (i : SendInput)
    → IsRevoked i.sender_device_id w.tables
    → Many (Move j k) w x
    → (e : SendError) × (send_message v i x ≡ (refused e, x))
revoked_sends_nothing j k w x v i r m =
    send_message-dead v i x (revocation_lasts i.sender_device_id j k w x m r)

-- ===== src/Api/AdminSync/Inbound.antt =====
-- The mirror of what an admin's device has read (backend/internal/api/admin_sync.go).
use kalki_chat.Base.{
  find_row-append_some, ◌≡◌, true, ◌||◌, Option, none, some, [], ◌∷◌, arith, Text, lit, eq_text,
  find_row, inl, inr, if◌then◌else◌, Option-cases,
}
use kalki_chat.Env.{Env}
use kalki_chat.Db.{World, done, Tables, Message, Device, PlainText}
use kalki_chat.Crypto.Jwt.{Claims}
use kalki_chat.Messages.{is_device}
use kalki_chat.Api.AdminSync.{
  InboundRequest, Route, admin_sync_inbound, is_message, is_device_of, is_mirror_of, find_route,
  insert_mirror, mirror_found,
}

-- If a plaintext is taken into the mirror for an admin, the message and the devices of both its
-- ends exist, one of the two devices belongs to that admin, and the direction is inbound exactly
-- when the receiving device is an admin's.
pub inbound_participant :
    (v : Env) (c : Claims) (r : InboundRequest) (w w' : World) (o : Route)
    → admin_sync_inbound v c (some r) w ≡ (done o, w')
    → (m : Message) × (sd rd : Device) × (find_row (is_message r.message_id) w.tables.messages
        ≡ some m)
      × (find_row (is_device m.sender_device_id) w.tables.devices ≡ some sd)
      × (find_row (is_device m.recipient_device_id) w.tables.devices ≡ some rd)
      × ((is_device_of c.owner_id sd || is_device_of c.owner_id rd) ≡ true)
      × (o.direction
          ≡ (if eq_text rd.owner_kind (lit "admin") then lit "inbound" else lit "outbound"))
unfolding admin_sync_inbound
inbound_participant v c r w w' o h =
    elim (Option-cases (find_row (is_message r.message_id) w.tables.messages)) [
      | inl e ↦ ground (arith, h, e)
      | inr (m, e) ↦
          elim (Option-cases (find_row (is_device m.sender_device_id) w.tables.devices)) [
            | inl f ↦ ground (arith, h, e, f)
            | inr (sd, f) ↦
                elim (Option-cases (find_row (is_device m.recipient_device_id) w.tables.devices)) [
                  | inl g ↦ ground (arith, h, e, f, g)
                  | inr (rd, g) ↦
                      (m, sd, rd, e, f, g, ground (arith, h, e, f, g), ground (arith, h, e, f, g))
                ]
          ]
    ]

mirror_found-keeps :
    (v : Env) (k d b id : Text) (t t' : Tables) (m : Option Message) (p : PlainText)
    → mirror_found v k d b t m ≡ some t'
    → find_row (is_mirror_of id) t.admin_plaintext ≡ some p
    → find_row (is_mirror_of id) t'.admin_plaintext ≡ some p
mirror_found-keeps v k d b id t t' none p e h = ground arith
mirror_found-keeps v k d b id t t' (some m) p e h =
    let row : PlainText = record {
      message_id = m.id;
      conversation_id = k;
      direction = d;
      body = b;
      created_at = m.created_at;
      decrypted_at = v.now;
    } in
    ground (arith, find_row-append_some (is_mirror_of id) t.admin_plaintext (row ∷ []) p)

-- A row that the plaintext mirror holds for a message is the row found for it after any inbound
-- request, whatever that request's outcome.
pub inbound_keeps :
    (v : Env) (c : Claims) (r : InboundRequest) (w : World) (id : Text) (p : PlainText)
    → find_row (is_mirror_of id) w.tables.admin_plaintext ≡ some p
    → find_row (is_mirror_of id) (admin_sync_inbound v c (some r) w).1.tables.admin_plaintext
      ≡ some p
unfolding admin_sync_inbound
inbound_keeps v c r w id p h = elim (Option-cases (find_route r.message_id c.owner_id w.tables)) [
  | inl e ↦ ground (arith, h, e)
  | inr (o, e) ↦
      elim (Option-cases
        (insert_mirror v r.message_id o.conversation_id o.direction r.body w.tables)) [
          | inl f ↦ ground (arith, h, e, f)
          | inr (t, f) ↦
              let kept =
                mirror_found-keeps v o.conversation_id o.direction r.body id w.tables t
                  (find_row (is_message r.message_id) w.tables.messages) p f h in
              ground (arith, h, e, f, kept)
        ]
]

-- ===== src/Api/System/Senders.antt =====
-- At most one stored message has a given sender and client id (messages.go: `ON CONFLICT
-- (sender_device_id, client_id) DO NOTHING`).
use kalki_chat.Base.{ℕ, ◌≤◌, List, Text, count_rows}
use kalki_chat.Env.{Env}
use kalki_chat.Db.{Message}
use kalki_chat.Messages.{is_from}
use kalki_chat.Api.Router.Stable.{Stable}

-- The messages from one sender under one client id.
abbrev pub copies : Text → Text → List Message → ℕ
copies s c ms = count_rows (is_from s c) ms

abbrev IsSingle : Text → Text → List Message → Type 0
IsSingle s c ms = copies s c ms ≤ 1

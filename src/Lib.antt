-- ===== src/Lib.antt =====
-- The KalkiChat backend: a model of its Go code and what is proved of it.
--
-- The backend relays end-to-end encrypted messages between users and a team of admins. HTTP
-- handlers and one WebSocket per device (backend/internal/api) check a JWT and call the message
-- service, the refresh tokens and the database; the hub (backend/internal/ws) keeps one client
-- per connected device and routes the events that arrive from Redis; a worker
-- (backend/internal/retention) deletes what is old.
--
-- The modules:
--
-- - Base: Boolean tests, lists measured by native numbers, Go strings as lists of bytes, and
--   tables as lists of rows (find_row, update_rows, delete_rows, order_rows for the SQL
--   statements).
-- - Env: what the backend calls and does not implement, as one record: the clock, identifiers,
--   randomness, encodings, cryptography, the object store, and, by the number of the call within
--   a request, whether a call to Postgres or Redis fails.
-- - Ws: backend/internal/ws/hub.go, conn.go and events.go. Ws.Hub has the hub's state (a heap of
--   clients, and the map from devices to them) and one function per operation; the value `none`
--   stands for a Go panic. Ws.Deliver and Ws.Route are about routeByChannel and Broadcast,
--   Ws.Lifecycle about the two cases of Run that change the map, Ws.Shutdown about Close,
--   Ws.Server about all of these in any order, together with the writes of connections and
--   replays that hold a client. Ws.Node adds the subscriptions of a hub, which are pending until
--   they land; Ws.Node.Copies is about what one published event comes to.
-- - Db: the tables and constraints of backend/migrations (Db.Schema), and the steps of a request
--   over them (Db.Monad): a query, a statement, a transaction, a publication, with early returns.
--   Db.Step has what such steps leave true of the tables. The value `none` stands for a statement
--   that violates a constraint.
-- - Auth: backend/internal/auth/refresh.go (Auth.Refresh; Auth.Refresh.Alive and
--   Auth.Refresh.Chain are about rotations one after the other, with anything else in between
--   that leaves the token and its device alone) and its constant-time comparison
--   (Auth.ConstantTime).
-- - Messages: backend/internal/messages/messages.go (Send, Backfill, MarkDelivered, MarkRead),
--   and backfillMissed of backend/internal/ws/hub.go. Messages.Missed is about which messages the
--   replay takes, Messages.Delivery is about the way from a message that is sent to the queue of
--   the device that connects later, whatever else has changed in the tables; Messages.Live is
--   about the way from Send to a device that is connected.
-- - Crypto: backend/internal/crypto/jwt.go (Crypto.Jwt; Crypto.Keys has the signer that is made
--   of PEM texts, and the key set) and the sealing of TOTP secrets in
--   backend/internal/crypto/crypto.go and backend/internal/auth/totp.go (Crypto.Seal).
-- - Config: backend/internal/config/config.go, over the parsers of strconv and time, and the
--   lifetimes that backend/cmd/retention/main.go makes of it.
-- - Audit: backend/internal/audit/audit.go. The metadata, a Go map, is a list of entries and is
--   read by key.
-- - Api: the handlers: middleware.go (Api.Middleware), auth.go (Api.Session), auth_password.go
--   (Api.Password), prekeys.go (Api.Prekeys), messages.go and ws.go (Api.Chat), admin_sync.go
--   (Api.AdminSync), media.go (Api.Media), admin.go with the files beside it: the login of an
--   admin and the registration of an admin's device (Api.AdminAuth), what is done to accounts and
--   devices (Api.AdminUsers), what is only shown (Api.AdminViews), the CSV export (Api.AuditCsv),
--   the WhatsApp configuration and onboarding.go (Api.WhatsApp); and router.go (Api.Router),
--   where Api.Router.Guards is about who is let in and Api.Router.Trail about the audit log,
--   whatever is served. Api.Router.Stable lists the SQL statements of all handlers as an
--   interface, and Api.Router.Statements, Keeps, AdminKeeps, Socket and Served show that what
--   survives those survives every request and event; SessionTables, KeyTables and MessageTables
--   fill it for predicates on one table. Api.System is the backend as a relation of steps
--   (requests, events of sockets, arrivals, sweeps), with what any number of steps leaves of
--   devices, tokens, prekeys, messages, their senders, and replies. All are under
--   backend/internal/api. Api.Http has their errors.
-- - Retention: backend/internal/retention/worker.go, with what the foreign keys of
--   backend/migrations do when a message or a medium is deleted; Retention.Lease has the ticks of
--   Run under the lease that the replicas share.
-- - Cmd: the programs: backend/cmd/seed (Cmd.Seed; Cmd.Seed.Identified follows the admin to the
--   registration of a device), backend/cmd/server (Cmd.Server), and backend/cmd/migrate with
--   backend/internal/db/db.go (Cmd.Migrate).
-- - Tests: concrete data, and the results applied to it.
--
-- A handler is a function from an environment, the request and the world (the tables, and what
-- was published to Redis) to an outcome and a new world. Times are in nanoseconds. There is no
-- fuel: every loop of the code runs over a list or for a given number of rounds, and is recursion
-- on that; numbers are natural numbers, and subtraction of a duration is written as an addition
-- on the other side.
--
-- Not modelled: CORS, the limits on the rate of requests, the security headers, the health check
-- and the upgrade of a socket in router.go, the HTTP server, the S3 client in
-- backend/internal/media/store.go and backend/internal/push (calls of libraries), the order in
-- which Redis delivers, concurrent requests on one table (a request's statements run together;
-- the order of requests is arbitrary), IP addresses and user agents, and the text of errors. The
-- identifiers of one-time and signed prekeys are natural numbers that their column can hold:
-- negative and overflowing ones are not modelled. A duration of the configuration is the pattern
-- of its 64 bits, with wrap-around. Libraries are parameters of the environment; nothing is
-- assumed of them but where a theorem names it.
pub mod Base
pub mod Env
pub mod Config
pub mod Ws
pub mod Db
pub mod Auth
pub mod Messages
pub mod Audit
pub mod Crypto
pub mod Api
pub mod Retention
pub mod Cmd
pub mod Tests

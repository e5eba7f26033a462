-- ===== src/Lib.antt =====
-- chatroom-server: a chat server in Go over MySQL, Redis, MinIO and WebSockets. This library models its
-- rooms, messages, calls, users and media, the cache of member lists, the push hub and the configuration,
-- and proves what they promise.
--
-- Parts, and how they interact. An HTTP request goes through the mux, and behind the middleware through a
-- second mux, to a handler, which reads and writes the database through a store, asks or invalidates the
-- member cache, and pushes to the connections of the hub.
--   Db            internal/db/migrations: the tables, their AUTO_INCREMENT values and unique keys, and a
--                 session in which any statement may be refused; Connection is internal/db/db.go
--   Room          internal/room: Model, Role and Recipients; Store is `SQLStore` of store.go, over the tests
--                 and changes of rows in Rows, but for `ListRoomsForUser`, which is RoomList; Handler is
--                 handler.go, with one function for each handler; Requests has its routes
--   Message       internal/message: Model; Recall is recall.go; Store is `SQLStore` of store.go; Request and
--                 Handler are handler.go
--   Auth          internal/auth: Store is `SQLStore` of store.go, Token is jwt.go and middleware.go, Handler
--                 is handler.go and password.go
--   MemberCache   the interfaces `GroupMemberCache` and `MemberCache` of the two handlers, and the laws
--                 that the handlers rely on
--   Cache         internal/cache/members.go: the member cache over Redis, which keeps those laws
--   Ws            internal/ws: Hub is hub.go, Envelope is envelope.go, Handler is handler.go, and its child
--                 Live is the hub under many connections
--   Media         internal/media/handler.go: Thumbnail is the size of `makeThumbnail`, Handler the rest
--   Storage       internal/storage: the interface with the laws that Media relies on, and the bucket of
--                 minio.go, which keeps them
--   Config        internal/config/config.go
--   Call          internal/call: Model is the pushed notification, Token is token.go, Handler is handler.go
--   Http          `writeJSON` and `writeError` of the handlers, as values
--   World         what a request can change: the session, the cache and the hub
--   Server        cmd/server/main.go: Requests has the handlers' requests and what stands behind the
--                 middleware, Run is a sequence of requests and connections, Sound is what the handlers
--                 keep; Mux is what the code uses of http.ServeMux, Routes has the tables of both muxes and
--                 the API's paths, Site is the way of an HTTP request to its handler and back, Log is what
--                 requests do to the stored messages and Contacts to the unread counts, Startup is
--                 `main` and `buildMux` up to the routes, and Shutdown is `main` from there on
--   Coherence     the cache against the tables: Post is `canPost`, Push is `broadcast`, and
--                 Invalidation is what the requests of a room do to the cache
--   Text          numbers written and read in decimals, and lists of ids as JSON: what the code uses of fmt,
--                 strconv and encoding/json
--   Action, Base  the monad of the handlers and stores, and lemmas on lists, tables and sorting
--   Tests         a small database, runs on it, and each result at a concrete input
--
-- How state and operations correspond. A Go function that returns a value and an error is an `Action`:
-- from a state to `ok` or `err` and the next state. `or_else_raise` is `if err != nil` with the response
-- that is written before the `return`; `raise_if` is a guard. A statement of SQL is a function on the
-- lists of `Tables`; a request is what the `strconv` functions and encoding/json made of it, with `none`
-- for a failure.
--
-- Conventions and bounds.
--   - Ids are natural numbers, as the columns are BIGINT UNSIGNED. A negative id, cursor or limit in a
--     request is not represented, and an HTTP request with one counts as one with 0; nor is the end of the
--     64-bit range of the columns, while a path's number beyond int64 is refused.
--   - An instant is a number of nanoseconds. `clock n` is NOW() in the n-th statement of a session, and
--     `now` is what time.Now() returns in a request; the two reads of `GenerateToken` count as one.
--   - `fails n` says that the n-th statement of a session is refused; it then changes nothing. The
--     results hold for every `fails` that they do not restrict. A cancelled or timed-out context is such a
--     refusal. A body of a transaction takes effect as a whole or not at all, but for the
--     AUTO_INCREMENT values, which a rollback keeps.
--   - Rooms created by two calls at once are shown as sequences of statements; otherwise the statements
--     of a request are not interleaved with those of another.
--   - encoding/json of a pushed envelope and the signing of a call's token are parameters that may fail;
--     golang-jwt and bcrypt are records of functions with laws; the collation by which the database compares
--     the names of users is a function to sort keys; the cache's server is a parameter with laws, in which
--     an entry may expire, and a call may fail, at any time.
--   - The clients of Redis and of MinIO are records of operations with the laws that their documentation
--     gives, under which any call may fail; the witnesses instantiate them by servers in memory. The image
--     packages are a record of functions with no law, float64 is a record of operations with laws of IEEE
--     754, and the decoding of YAML, the upgrade of a connection and what its reads give are functions or
--     values that nothing restricts.
--   - A duration of the configuration is a 64-bit word in two's complement, with the wrap-around of its
--     product written out. A download sends the whole object; Range requests are `ServeContent`'s.
--   - The random bytes of a file's id are an argument; a result that needs two ids to differ says so.
--   - The order of the entries of a hub's map is that of a list; no result depends on it.
--   - Recursion is on lists, but for `format_int`, which writes a number with more fuel than it has digits;
--     Text/Decimal/Digits shows that it is enough.
--
--   - A path comes to the mux as the list of its segments, clean, with "/" for a slash at its end: the
--     redirects of unclean paths and the body that HEAD leaves out are net/http's. encoding/json of the
--     bodies and the reading of a form are functions that may fail, with no law. The configured lifetime of
--     a token counts as 0 if it is negative: either way the token has expired.
--
-- Not modelled: the log's lines, and the timeouts of a request other than as refused statements. The run of
-- the process in Server/Shutdown counts requests and does not say what they do, which is that of Server/Site.
-- CheckOrigin of internal/ws admits all. An index of the schema has no effect on a result. The caller's uid in a request is what the middleware
-- of internal/auth puts into the context.
pub mod Base
pub mod Action
pub mod Text
pub mod Config
pub mod Db
pub mod MemberCache
pub mod Cache
pub mod Http
pub mod World
pub mod Room
pub mod Message
pub mod Auth
pub mod Call
pub mod Ws
pub mod Coherence
pub mod Storage
pub mod Media
pub mod Server
mod Tests

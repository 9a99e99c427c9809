-- ===== src/Lib.antt =====
-- cheshmhayash: the web gateway of a NATS administration dashboard, and the rules of who may use it.
--
-- The program serves a JSON API over a set of NATS clusters. A request passes the CORS wrapper and,
-- when authentication is on, the middleware, which admits a session that a signed cookie (mode oidc)
-- or a verified bearer token (mode jwt) proves; the route table picks a handler, which publishes one
-- request to a NATS subject and passes the answer on. A second program offers the same requests as
-- tools of the Model Context Protocol, over standard input or at /mcp, which has a gate of its own. A
-- notifier turns the advisories of the clusters into posts to chat webhooks.
--
-- Files:
--   Common, Common/*      shared names; Boolean tests, lists measured by native numbers, Go's int64
--                         and `strings` functions, with their laws; EventStream is what a browser
--                         reads from a text/event-stream.
--   Json, Http            JSON values and their decoding into Go types; requests and responses.
--   Config, Config/*      internal/config: the settings, their defaults, `validate`, and in Env the
--                         overlay of environment variables; Load puts the layers together.
--   Auth, Auth/*          internal/auth: Access is auth.go, Session is session.go, Claims and Bearer
--                         are the token paths of bearer.go, mcp_oauth.go, mcp_jwt.go, Metadata the
--                         metadata document of mcp_oauth.go, Middleware is middleware.go with the
--                         gate of bearer.go, Identity the session in a request's context, Login is
--                         handlers.go.
--   Natsx, Natsx/*        internal/natsx: subjects and payloads of admin.go and jsm.go, the single
--                         request and the discovery of cluster.go, with its clock in Discovery;
--                         Decimal is the printing and reading of a uint64; Cache is cache.go, its
--                         operations as atomic steps on the entries, the subscriptions and the
--                         channels of the followers, and Refresh the goroutine of a cluster.
--   Gateway, Gateway/*    internal/handler: Admin is admin.go, Jsm is jsm.go and in Stream the loop
--                         of overviewStream, Mux is handler.go and in Log its requestLog.
--   Mcp, Mcp/*            internal/mcp: Args, Tools, Writes, Schema and Table are tools.go, Frame, Rpc
--                         and Stdio are server.go, Http and Sse are http.go, Gate is MCPMux of
--                         handler.go;
--                         Agreement sets the tools beside the handlers of the HTTP API.
--   Notify, Notify/*      internal/notify: Classify is classify.go, Manager is notify.go, Webhook is
--                         webhook.go.
--   Start, Start/*        cmd/cheshmhayash, cmd/cheshmhayash-mcp and internal/version, and from
--                         internal/natsx/cluster.go the dialling of the clusters; Run is the dashboard's
--                         `run`, McpRun is `runHTTP` and StdioRun is `runStdio`, with the clean-up of
--                         each exit; Main is the status that the process ends with.
--   Tests, Tests/*        a concrete server, and each theorem at a concrete input.
-- The functions keep the names of the source in snake_case. Each handler is one function to a
-- response, and a response carries the list of the NATS requests made while it was produced, so that
-- what a handler does to a cluster is part of its value.
--
-- What stands outside the repository is a parameter: `Provider` and `Oauth` (go-oidc, oauth2), `Wire`
-- (base64, HMAC and the JSON of cookies, with the promises `IsWire`), `TokenText` (base64 and JSON of
-- a token), `ParseHost` and `ParseUrl` (net/url), `Coding` (JSON bodies), `Runtime` (JSON frames and
-- the wording of values), `Koanf` (settings files), `Client` (net/http), `Conn`, `Inbox` and `Dial`
-- (the NATS client).
--
-- Bounds: a Go string is a text of code points, so it is valid UTF-8, and case mapping covers ASCII
-- and the letters that map into it. Durations count nanoseconds in an int64 that wraps around. The
-- printing of a number works on twenty digits, which hold every uint64. Every recursion is
-- structural; the waiting of a discovery runs on fuel, and one more than the nanoseconds of its window
-- are enough. A handler that panics answers `aborted`, with status 0: net/http recovers and closes
-- the connection.
--
-- Not modelled: what is logged beside the line of a request, the path cleaning of http.ServeMux, the
-- reading of settings files by koanf, the reading of the flags and of the log level, signals,
-- listening sockets, and the wording of errors that come out of the standard library.
pub mod Auth
pub mod Common
pub mod Config
pub mod Gateway
pub mod Http
pub mod Json
pub mod Mcp
pub mod Natsx
pub mod Notify
pub mod Start
pub mod Tests

-- ===== src/Lib.antt =====
-- The production change registry (go-prod-change-registry): an append-only log of production
-- changes, kept in PostgreSQL, behind a JSON API and a dashboard.
--
-- Parts and files.
--   Model             internal/model/change.go: events, requests, parameters, limits.
--   Store             internal/store/postgres/postgres.go over the tables of
--                     migrations/001_create_change_events.up.sql. Store/Tables holds the tables and
--                     what their constraints refuse (`insert_event`, `insert_tag`, `insert_link`),
--                     Store/Write `Create`, Store/Toggle `toggleTransition`, Store/Annotations
--                     `GetAnnotations` and `GetAnnotationsBatch`, Store/Query `List` with
--                     `buildWhereClause`, Store/Current `ListCurrent` with its common table
--                     expressions, Store/Scan the readers of rows.
--   Service           internal/service/change.go: Service/Validate the tag policy and the links,
--                     Service/Create `create`, `AddLinksAs` and the toggles, Service/Identity and
--                     Service/Operation the life cycle of an operation, Service/Activity
--                     `GetActivity` and `listAll`.
--   Handler           internal/handler: Handler/Params list_params.go and current_params.go,
--                     Handler/Dashboard dashboard_params.go, Handler/Record record.go and form.go,
--                     Handler/Api api.go; of dashboard.go and record.go, Handler/Overview `Dashboard`,
--                     Handler/Detail `renderDetail`, Handler/Actions the five forms and the address
--                     to return to, Handler/Links the queries of links, Handler/Reply the data of the
--                     pages; Handler/Flow and Handler/Login human_auth.go and login.go.
--   Middleware        internal/middleware: Middleware/Session session.go, Middleware/Human
--                     human_session.go (with internal/humanauth/principal.go), Middleware/Auth
--                     auth.go, Middleware/Require human_auth.go, Middleware/Logging logging.go.
--   HumanAuth         internal/humanauth: HumanAuth/Beyond, HumanAuth/Github and HumanAuth/Oidc the
--                     four providers behind the record `Authenticator`.
--   Router            internal/router/router.go: `serve` takes an endpoint through its middleware to
--                     its handler.
--   Config            internal/config/config.go: Config/Names the names of organizations,
--                     Config/Validate the checks, Config/Load `Load`.
--   PcrConfig         internal/pcrconfig/config.go: PcrConfig/Path `BootstrapPath`, PcrConfig/ParseOrigin
--                     `ParseOrigin` and `ValidateCredential`, PcrConfig/Resolve `Load` and `Resolve`.
--   Http              a request as the handlers see it.
--   Errors            the sentinels of service and store, and the constraint violations.
--   Text, Number, Url, Sort, Dict
--                     what the source uses of Go's strings, strconv, net/url, ORDER BY and maps.
--   Examples          runs, and the theorems at a small registry, server and environment.
--
-- How they interact. `serve` of Router asks the middleware who the caller is and runs the
-- handler only when it may; the middleware reads the signed cookies and the tokens. A handler
-- parses its input, calls the service, and turns the service's error into a status or a page;
-- the service validates and calls the store; a store operation that writes takes `Tables` and
-- returns a `Result` beside the tables afterwards, one that reads takes `Tables`. `Create` is
-- one transaction, and the row lock makes a toggle a step of its own, so each call is one step.
-- `Action A` of Service/Create sequences calls; what a step wrote stays written when a later
-- step fails.
--
-- Representation. `Tables.events` is newest first, which is ingest_sequence DESC. Text is the
-- native String, a map an association list, Go's int and time.Duration are ℤ without overflow. A
-- time is the number of nanoseconds since the earliest time.Time. The fresh UUID, the clock's time
-- and SHA-256 are arguments, as are time.Parse and time.ParseDuration (`TimeFormats`).
-- PostgreSQL's order of id is byte order, which assumes the C collation. `to_lower` maps only the
-- letters whose lower case is ASCII. The URL model does not look inside an IPv6 bracket.
--
-- Fuel. `list_all` reads pages of at least one row with fuel one above the number of event rows,
-- and a page follows only while rows are left, so the fuel does not run out. Every other loop is
-- structural recursion.
--
-- From outside. `Externals` of Handler/Externals holds HMAC-SHA256 and SHA-256 in hexadecimal,
-- the JSON and base64 of a session, and what net/url parses and prints; `Sources` of Config what
-- the environment, strconv, time and net give; `System` of PcrConfig what the operating system,
-- the TOML library, net/url and net give. A handler's JSON body comes as what encoding/json
-- makes of it (`JsonBody`), a form as what `ParseForm` makes of so many bytes (`FormBody`).
-- GitHub's answers and the claims of a verified ID token are parameters of their providers. Two
-- texts are equal where the source compares them in constant time. A page is its data, not its
-- HTML, and a cookie its value, not its attributes (Path, Secure, HttpOnly, SameSite, Max-Age).
--
-- Not modelled: connections that fail, logging, HTML templates, health checks, request ids and
-- the fixed security headers, what net/http makes of the calls that the status writer forwards,
-- the public routes' matching, authorization URLs and OIDC discovery, the command line client
-- (internal/pcrcli, internal/pcrclient, internal/pcrconfig/write.go), the pool and migrations
-- (internal/postgres), and the programs under cmd.
pub mod Prelude
pub mod Text
pub mod Dict
pub mod Sort
pub mod Model
pub mod Errors
pub mod Url
pub mod Store
pub mod Service
pub mod Number
pub mod Handler
pub mod Http
pub mod Middleware
pub mod Router
pub mod Config
pub mod PcrConfig
pub mod HumanAuth
mod Examples

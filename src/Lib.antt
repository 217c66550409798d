-- ===== src/Lib.antt =====
-- The IAM service: an OAuth 2.0 authorization server in Go, verified in parts.
--
-- The program. HTTP handlers (internal/handler) decode a request and call a service
-- (internal/service); the services work over small interfaces (internal/service/ports.go) that the
-- repositories (internal/repository) implement over MySQL and over Redis by the wrapper of
-- internal/cache; internal/app wires them. A browser is sent to /oauth/authorize, which leaves a
-- single-use code in Redis for 60 seconds; the client exchanges the code at /oauth/token for a signed
-- access token and a stored refresh token.
--
-- The files.
-- - Models, Dtos, Errors: the records of internal/models and internal/dtos, and the error values with
--   their wrapping chain (errors.Is) of the whole program.
-- - Utils, Oauth: internal/utils/slices.go and internal/oauth/grant.go. Text: the functions
--   strings.Fields and strings.Join as the services use them.
-- - Effect: what a call is. A state is passed from call to call, and a call ends with a value, with
--   an error or in a panic. A dereferenced nil pointer is a panic. Effect.Inversion and
--   Effect.Preserves carry the proofs.
-- - Platform: Redis, MySQL, and the clock, random source, bcrypt, JSON and JWT libraries of the
--   process. None of them is under this repository: each is a record of operations on an abstract
--   state (Kv.Redis, Db.Sql, Os.Host, Tokens.Jwt), with its documented behaviour as laws (IsRedis,
--   IsSql, IsHost, IsJwt) that theorems take as hypotheses.
-- - Cache: internal/cache/redis.go. Repository.User, .Client, .RefreshToken, .Session, .AuthCode: the
--   files of the same names in internal/repository, one definition per method; a query is a test on
--   rows.
-- - Ports: the interfaces of internal/service/ports.go as records over any state. The services are
--   sections over them: Service.TokenGrant (internal/service/token_grant.go), Service.Auth (auth.go),
--   Service.Client (client.go), Service.Token (token.go).
-- - App: the wiring of internal/app/app.go, with App.Codes, App.Exchange, App.Minted, App.Sessions,
--   App.Clients and App.Panics on what it makes of the services and repositories together. System: the
--   running service as a step relation, one step per request in any order, or a pause.
-- - Web: what the handlers use of net/url and of the decoding of JSON bodies, a record of operations
--   with its laws (IsWeb).
-- - Validator: internal/validator/validator.go and the validate tags of internal/dtos. The engine
--   behind the tags (go-playground/validator) is a parameter with its law (IsEngine): it reports for
--   each field the first rule that the field fails, and nothing else. Validator.Accepts and .Form say
--   what passes, and .Reported what is told of the rest.
-- - Handler.Response, .Params, .Ports, .Auth, .Token: internal/httpx/httpx.go, the Parse functions of
--   internal/dtos, and ports.go, auth.go, jwks.go and token.go of internal/handler. A handler takes
--   the parts of its request that it reads and returns the response that it writes. Handler.Next,
--   .Redirect, .Session, .TokenError and .Uncached are on what they answer.
-- - Server: the route table and the handlers of cmd/api/main.go over the services of App, with
--   Server.History, a step relation for requests to any endpoint in any order, and pauses.
-- - Startup: internal/app/config.go, keys.go and the New and Close of app.go,
--   internal/database/db.go, and NewRedisClient of internal/cache/redis.go, over a record of what
--   sqlx, go-redis, the file system, PEM and X.509 do (Startup.Infra, with the laws IsInfra on the
--   handles that are open); Startup.Serving joins them to Server.
-- - Cache.Held, Repository.Session.Held, Repository.AuthCode.Held: what is answered from what Redis
--   holds. Service.TokenGrant, .Auth and .Client have child modules on what their operations
--   establish. Stable: properties of the state that every call but the creation of a code
--   or a session keeps. Spent: a code as time passes and once it is gone, from Redis up to the step
--   relation. Lapse: the same of a session, over a step relation of its own (Lapse.Visits). Sound: what
--   holds of every code that Redis holds, after any history of the server. Shelf: an abstract store of
--   single-use codes, and the repository of codes against it.
-- - Migrate: cmd/migrate/main.go, over a record of what flag, database/sql and goose do.
-- - Columns: StringSlice of internal/models/client.go. Platform.Tokens, Service.Token.Validate and
--   App.Verified: the validation of issued tokens over the parsing of golang-jwt.
-- - Examples: a platform in memory that satisfies the laws, and the theorems on it.
--
-- Conventions. Times and durations are counts of nanoseconds on the native ℕ. Redis is
-- taken to expire a key exactly at the end of its time. The machine integers of
-- the program are durations and Redis's counts, none near a bound, so they are unbounded here. A
-- string is a text of Unicode characters; the services only compare, split and join them. A nil slice
-- and an empty one are identified, as no code of the services tells them apart. A failed Scan of a
-- column is part of the query's failure. The comparison that MySQL makes of a text column is a
-- parameter (text_eq), as it depends on the collation. A request is one step: requests interleave
-- whole. Every definition is total by structural recursion, so no fuel is used.
--
-- A response is the value that the handler builds: how net/http writes it, and the HTML that
-- http.Redirect adds, are not modelled, nor is the log.
--
-- Not modelled: the middleware, listening and shutdown of cmd/api/main.go; and the generated mocks
-- and the tests.
pub mod Prelude
pub mod Errors
pub mod Effect
pub mod Models
pub mod Dtos
pub mod Utils
pub mod Platform
pub mod Text
pub mod Oauth
pub mod Ports
pub mod Cache
pub mod Repository
pub mod Service
pub mod App
pub mod Web
pub mod Validator
pub mod Handler
pub mod Server
pub mod Startup
pub mod System
pub mod Stable
pub mod Spent
pub mod Lapse
pub mod Sound
pub mod Shelf
pub mod Columns
pub mod Migrate
pub mod Examples

-- ===== src/Lib.antt =====
-- A model of the core of the authentication API (Go module github.com/gjovanovicst/auth_api): the
-- sessions and tokens that it keeps in Redis, the tests that a request passes, the limits on
-- logins, the OpenID provider, roles, webhooks, the activity log and session groups.
--
-- The program's parts. internal/session issues a pair of tokens by pkg/jwt and keeps a session in
-- Redis by internal/redis; internal/middleware/auth.go reads a token and asks Redis whether it, its
-- user or its session was revoked. internal/middleware/rate_limit.go counts requests in Redis, or
-- in the process's memory where Redis fails. internal/bruteforce counts failed logins in Redis,
-- locks accounts in the database and sets delays. internal/middleware/scope.go tests the scopes of
-- an API key, internal/geoip/ip_rules.go the address of a client, internal/user/password_policy.go
-- a new password. internal/oidc hands out codes and tokens to clients, with its clients and codes
-- in the database and the blacklists in Redis. internal/rbac reads a user's roles from the database
-- through a cache in Redis. internal/webhook sends events to endpoints and tries again on a
-- failure. internal/log deletes expired entries of the activity log and compares a login with
-- earlier ones. internal/sessiongroup ends a user's sessions in the applications of a group, by the
-- session service, and internal/sso lets a user of one of them into another.
--
-- The files. Common: what the components share (Go strings as code points, decimals, association
-- lists). Redis: internal/redis/redis.go, with Redis/Interface for the server, Redis/Sample for a
-- server that satisfies its laws, Redis/Keys for the keys, Redis/Sessions (CreateSession,
-- DeleteSession, GetUserSessionIDs, DeleteAllUserSessions, SessionExists, ...), Redis/Tokens
-- (blacklists, refresh tokens, magic links, ParseSessionMetaKey), Redis/Counters (failed logins,
-- lockout and delay tiers), Redis/Slots (codes and short-lived tokens; in Redis/Slots/Handover the
-- SSO token and the tokens of addresses), Redis/Admin (the keys of the admin interface, the
-- notification cooldown). Jwt: pkg/jwt/jwt.go. Session: internal/session/service.go.
-- Middleware/Auth: AuthMiddleware. Middleware/RateLimit: rate_limit.go, its presets in
-- Middleware/RateLimit/Presets, and in Middleware/RateLimit/Concurrent its calls on one entry as
-- steps that interleave, in Middleware/RateLimit/Concurrent/Alone the steps of one request.
-- Middleware/Scope: scope.go. BruteForce: internal/bruteforce/service.go. IpRules:
-- internal/geoip/ip_rules.go. Password: internal/user/password_policy.go. Database: tables, and the
-- queries of gorm that the repositories are written with. Flow: functions that return an error or a
-- value and pass a state on. Oidc: internal/oidc, with Oidc/Clients (the clients of an application,
-- ValidateAuthRequest), Oidc/Codes (IssueAuthCode, ExchangeCode), Oidc/RedirectUris,
-- Oidc/ConsentToken, Oidc/Authorize (Authorize, AuthorizeSubmit), Oidc/Keys (GetOrCreateRSAKey,
-- with the callers that hold an old reading in Oidc/Keys/Agreement), Oidc/IdToken, Oidc/Minting
-- (MintTokensForUser), Oidc/Grants (Token), Oidc/Endpoints (UserInfo, Introspect, Revoke,
-- EndSession). Rbac: internal/rbac, with Rbac/Store (tables and queries), Rbac/Access (the cached
-- access, AuthorizeRole and AuthorizePermission), Rbac/Roles (the changes of roles). Webhook:
-- internal/webhook. ActivityLog: internal/log/cleanup.go and internal/log/anomaly.go. SessionGroup:
-- internal/sessiongroup. Sso: internal/sso/handler.go. Tests: the theorems at concrete inputs. A
-- definition has the name of its Go function in snake case; a function of several steps has a
-- definition for each step, called in the source's order.
--
-- How code is read. A function of internal/redis is a function from the state of the server to a
-- reply and a state, a method of the session service one to a result or an AppError and a state.
-- The server (go-redis and Redis), the signer (golang-jwt), bcrypt, package net and package unicode
-- are records of functions, with their documented behaviour as named laws where a theorem needs it;
-- a lost command replies `failed` and may change the key it names. The database (gorm) is a record
-- of functions in BruteForce and tables of rows elsewhere: there a query takes as an argument what
-- becomes of it: it is served, refused, or carried out with its answer lost. No key expires while
-- one call runs, and a time to live is only passed on. Identifiers are compared as texts, so that
-- those of a request are taken in the spelling that uuid.String gives. A DELETE with LIMIT takes as
-- an argument whether the dialect keeps the LIMIT. Times are nanoseconds, clock readings and fresh
-- identifiers are arguments. Numbers are naturals: counters stay below 2^63, and limits and
-- durations that the source does not allow to be negative are not. A conversion of a float of 2^63
-- or more is a parameter, since the language leaves it open. Recursion is on lists and texts and
-- needs no fuel, but for the loop of deleteExpiredLogs: its rounds are bounded by the fuel given,
-- and one round more than there are expired entries is enough.
--
-- Not modelled: the handlers and routes outside internal/oidc and internal/sso, OIDC discovery and
-- its pages, the admin interface, e-mail, SMS, two-factor, WebAuthn, social login, the queue of the
-- activity log, the database schema and the commands; the concurrency of requests within one
-- function, but for the exchange of codes, the creation of a key, the memory limiter and the
-- delivery of webhooks; the messages of errors.
pub mod Common
pub mod Database
pub mod Flow
pub mod Redis
pub mod Jwt
pub mod Session
pub mod BruteForce
pub mod IpRules
pub mod Password
pub mod Middleware
pub mod Oidc
pub mod Rbac
pub mod Webhook
pub mod ActivityLog
pub mod SessionGroup
pub mod Sso
pub mod Tests

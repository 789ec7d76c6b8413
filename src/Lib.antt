-- ===== src/Lib.antt =====
-- pihole-mcp is an MCP server through which a language model administers Pi-hole. This library
-- models the parts of it that decide something and proves what they are for.
--
-- Errors (internal/pihole/errors.go): Go errors as chains, their classification, and which failures
-- leave a request's fate open. Retry (internal/pihole/retry.go): `retryable`, the backoff and
-- `withRetry`. Client (internal/pihole/client.go, auth.go): `Do` as one session state passed through
-- `ensureAuth`, `doRequest`, `handleAuthRetry` and the retry loop, whose calls it fills in.
-- RateLimit (internal/middleware/ratelimit.go): the two-level limiter as a state with one function
-- for each operation, and the resolution of the client's address. Auth
-- (internal/middleware/auth.go): bearer tokens and the failure penalty. Origin
-- (internal/middleware/origin.go): the Host and Origin headers a request may carry. Server
-- (internal/toolsets/toolsets.go, internal/server/server.go, resultsize.go): which tools are
-- offered, and the cap on a result. Sync (internal/pihole/sync.go, escape.go): Sync/Readers turns
-- replies into items, Sync compares and plans, Sync/Cnames and Sync/Apply carry the plan out.
-- Restart (internal/pihole/restart.go): the wait for FTL to come back. Locks
-- (internal/pihole/locks.go): the mutexes by key, as steps of goroutines over a heap of lock objects.
-- Registry (internal/pihole/registry.go): the configured instances by name. SyncTool
-- (internal/tools/sync.go): the handlers of the diff and sync tools, which resolve instances through
-- the registry, read through Sync/Readers' results, compare with Sync and write with Sync/Apply;
-- SyncTool/Backup is the backup before a sync. LocalDns (internal/tools/localdns.go): host and CNAME
-- records as the texts that Pi-hole stores, and the handlers that change them. Validate
-- (internal/tools/validate.go): the checks of arguments, which LocalDns and Config use. Config
-- (internal/tools/config.go, config_risky.go, internal/pihole/restart.go): settings as JSON trees
-- (Json), the guards of the tools that write them, and the report of a write. Groups
-- (internal/tools/groups_assign.go): the groups that an entry is put in, by name. Format
-- (internal/format/format.go): text from the network made safe for a reply.
--
-- A definition has the name of its Go function in snake_case. State is passed explicitly; a mutex
-- makes each locked operation one function. What lies outside the repository (net/http,
-- encoding/json, net/netip, x/time/rate, the clock, SHA-256) is a parameter, a record of functions,
-- and what the code relies on is a named hypothesis. Maps are association lists; numbers are
-- natural numbers, with the wrap-around of the one shift that can overflow written out.
-- `withRetry` runs on `MaxRetries + 1` rounds of fuel, one for each attempt that it can make.
--
-- Text functions of Go (strings.Split, Join, Fields, TrimSpace) are written out over characters in
-- Prelude/Texts; case folding and lowering, which need Unicode's tables, are parameters.
--
-- Not modelled: the remaining tool handlers, prompts and resources (argument decoding and texts), the
-- texts of every result, the server's configuration, telemetry, the sweep's goroutine, uploads and
-- streamed replies, and locking several settings at once.
--
-- Examples applies each theorem at a concrete input.
pub mod Origin
pub mod Prelude
pub mod Errors
pub mod Examples
pub mod Auth
pub mod Retry
pub mod Client
pub mod Format
pub mod Groups
pub mod Json
pub mod Config
pub mod LocalDns
pub mod Locks
pub mod RateLimit
pub mod Restart
pub mod Server
pub mod Registry
pub mod Sync
pub mod SyncTool
pub mod Validate

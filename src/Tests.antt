-- ===== src/Tests.antt =====
-- Runs of the definitions on concrete inputs: src/utils, src/services, src/middleware,
-- src/repositories and src/api/client, with the worlds that they stand on made concrete.
mod Worlds
mod Stores
mod Retry
mod Pipeline
mod RateLimiter
mod Auth
mod Usage
mod UsageRoute
mod Redis
mod Tracker
mod Lifecycle
mod Ciphers
mod Crypto
mod Clients
mod Deactivated
mod Sockets
mod Hits
mod Route
mod Streams

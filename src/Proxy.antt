-- ===== src/Proxy.antt =====
-- packages/proxy/index.mjs: what stands between a client and the upstream. Modelled is the rate limiter
-- that a runtime without its own gets.
pub mod RateLimiter
mod Tests

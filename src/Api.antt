-- ===== src/Api.antt =====
-- internal/api: the client of the exchange, its feed, the live buffers and the rate limiter.
pub mod CandleBuffer
pub mod LiveOrderBook
pub mod RateLimiter
pub mod Client
mod Tests

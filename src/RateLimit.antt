-- ===== src/RateLimit.antt =====
-- src/rate-limit.ts: the fixed-window request budgets in D1, the native burst limiters, and the
-- classification of dependency failures.
-- Numbers are the non-negative integers: the source rejects every other one before it uses it.
pub mod Errors
pub mod Window
pub mod Budget
pub mod Burst
pub mod Tests

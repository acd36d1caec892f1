-- ===== src/Limiter.antt =====
-- internal/limiter: the limits of the users and their token buckets.
pub mod Users
pub mod Devices
pub mod Speed
pub mod Rates

-- ===== src/Limit.antt =====
-- src/Middleware.cpp, src/Middleware.h: the rate limiters.
pub mod Schedule
pub mod Window
pub mod Bucket

-- ===== src/Http.antt =====
-- src/http.h, src/http.cpp.
pub mod Status
pub mod Method
pub mod Response
pub mod Request
pub mod Form
pub mod Args
pub mod Io

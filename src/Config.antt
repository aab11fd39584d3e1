-- ===== src/Config.antt =====
-- src/config.h, src/config.cpp: the configuration, read from an XML document.
pub mod Xml
pub mod Roles
pub mod Times
pub mod Keys
pub mod Limiters
pub mod Routes
pub mod Secret
pub mod Settings

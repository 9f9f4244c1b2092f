-- ===== src/CommonLib.antt =====
-- The functions on texts in CommonLib: UrlCode.cpp and Base64.h.
pub mod UrlCode
pub mod Base64

-- ===== src/Dict/Json.antt =====
-- The JSON texts of include/dict.h.
pub mod Text
pub mod Print
pub mod Parse

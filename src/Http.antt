-- ===== src/Http.antt =====
-- include/http.h: the incremental request parser, the response printer and the keep-alive test.
pub mod Answer
pub mod KeepAlive
pub mod Table
pub mod Types
pub mod Inv
pub mod Strtoull
pub mod RequestLine
pub mod HeaderLine
pub mod Framing
pub mod Body
pub mod Feed
mod Tests

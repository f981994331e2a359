-- ===== src/Http.antt =====
-- src/protocols_http.c: long polling over HTTP.
pub mod Poll
pub mod Text
pub mod Session
pub mod Route

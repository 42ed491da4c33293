-- ===== src/Http.antt =====
-- The HTTP request parser, docs/http/HttpRequest.hpp and docs/http/HttpRequest.cpp.
pub mod Request
pub mod Head
pub mod Chunks
pub mod Parser
mod Tests

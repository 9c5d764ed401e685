-- ===== src/Web.antt =====
-- src/web.c: what the HTTP server lets through. The server itself is civetweb; a request is its
-- method, its path and the headers that `mg_get_header` returns for it.
pub mod Auth
pub mod Router
pub mod Token

-- ===== src/Web.antt =====
-- internal/webserver, the local web server of a client.
pub mod Forms
pub mod Sse
pub mod Session

-- ===== src/Web.antt =====
-- server/web.go and server/web-api.go: the web interface. A handler gives the response and the calls of
-- Incus that change something; JSON encoding is left to the response's type.
pub mod Credentials
pub mod Action
pub mod Create
pub mod Addresses
pub mod Listing
pub mod Tests

-- ===== src/Forward.antt =====
-- server/port-forward.go and server/ssh-request.go: forwarding of ports.
pub mod Direct
pub mod Reverse
mod Tests

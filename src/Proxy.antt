-- ===== src/Proxy.antt =====
-- proxy.go: the messages that the proxy reads, and the handlers that rewrite them.
pub mod Messages
pub mod Handlers
pub mod Routing
pub mod Completion

-- ===== src/Client.antt =====
-- peripheral_linux.go: the GATT client, over a way to send a request and await its response.
pub mod Matching
pub mod Reading
pub mod Discovery
pub mod Subscriptions

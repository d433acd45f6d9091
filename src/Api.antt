-- ===== src/Api.antt =====
-- core/src/api.c and core/include/daemoon/api.h: the client side of the server's interface.
pub mod Routing
pub mod Request
pub mod Exchange
pub mod Reading
pub mod Client
pub mod Pairing

-- ===== src/Link.antt =====
-- The connection of a game server to the login server, from both ends: the frames of
-- internal/gameserver/transport/loginserver.go and internal/loginserver/transport/gameserver.go, the
-- packets that go over it, and the exchange of its Blowfish key.
pub mod Buffer
pub mod Outls
pub mod Ings
pub mod Agree
pub mod Frame
pub mod Delivery
pub mod Exchange
mod Tests

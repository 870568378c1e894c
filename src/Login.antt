-- ===== src/Login.antt =====
-- The login server: the session keys that let a player move on to a game server, and the counts of
-- characters that its server list shows.
pub mod Keys
pub mod Counts
pub mod Clients
pub mod Servers

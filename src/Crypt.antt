-- ===== src/Crypt.antt =====
-- Packet protection, pkg/crypt/crypt.go and internal/gameserver/transport/gamecrypt/crypt.go:
-- checksums, the login server's XOR pass, Blowfish over whole packets and the game cipher.
pub mod Words
pub mod Checksum
pub mod XorPass
pub mod Game
pub mod Blocks

-- ===== src/Lib.antt =====
-- l2go: a verification library for the Lineage II server emulator.
--
-- The program is a login server and a game server. Clients talk to both over packets that
-- pkg/l2pkt reads and writes and that pkg/crypt and internal/gameserver/transport/gamecrypt
-- protect. Paths below are from the repository's root.
--
-- - Prelude: Boolean tests, lists, Go maps, signed numbers and the laws of exclusive or.
-- - Crypt: pkg/crypt/crypt.go (Words, Checksum, XorPass, Blocks) and gamecrypt (Game). Slices are
--   lists of bytes, changed in place by `set`; `none` is an index panic. The block cipher of
--   pkg/crypt/blowfish is a parameter, BlockCipher, with its round trip on one block assumed.
-- - Packet: pkg/l2pkt. A Reader is its buffer and offset, a Writer the bytes written so far;
--   integers go by their bit patterns, strings by their code points.
-- - Registry: internal/gameserver/registry, one component a file: Targets (targetindex.go), Shots
--   (chargedshots.go, autoshots.go), Reuse (itemreuse.go), Connections (connections.go). A locked
--   method is one step.
-- - Items: internal/gameserver/models/item.go and the table of items of
--   internal/gameserver/repo/postgres_items.go (Store), where any call may fail.
-- - Enchant: internal/gameserver/usecase/enchant.go. The parent has the rules, Conditions the
--   checks, Flow the arming and the window, Flow/Attempt the attempt. Floats are the interface
--   Float64; the datapack tables and the number drawn are arguments.
-- - Inventory: equipment of internal/gameserver/usecase/inventory.go, as actions on a bag of the
--   table and the charged shots. Worn counts the items of a slot, Effects and Frees say what an
--   action may and must do to it, and Conflicts and Cleared take the switch of equipItem apart.
-- - Buffs: CharEffectList of internal/gameserver/models/buff.go. Its laws count the buffs that pass
--   a test.
-- - Experience: internal/gameserver/data/experience.go, and the level that awardExpForNPCKill of
--   internal/gameserver/gameloop/experience.go gives.
-- - Hate: internal/gameserver/gameloop/hatelist.go.
-- - Pvp: internal/gameserver/gameloop/pvp.go.
-- - World: internal/gameserver/registry/world.go. Grid is the geometry, State the registry and the
--   calls that change it, Queries what is asked of it. The root of a distance is the integer one;
--   coordinates stay far from where an int wraps.
-- - Link: the connection between the servers. Outls is internal/gameserver/packets/outls, Buffer and
--   Ings are internal/loginserver/packets with the switch of handlers/gameserver, and Agree says that the two ends mean the same. Frame is
--   the transport at both ends; a socket is the portions that its reads return. Delivery composes
--   them. Exchange is the key that the game server sends encrypted, over the numbers of an RSA key.
-- - Login: internal/loginserver. Keys is usecase/session.go with the handlers that use it, and
--   Keys/Requests the requests of game servers lock by lock, as they come interleaved. Counts is
--   registry/charactercounts.go. Clients is handlers/client with usecase/client.go and the table
--   of accounts: Accounts the login, Runs the events of the server, and Sole, Entry, Panics and
--   Arrival what holds of them. Servers is the registry of game servers and their registration. The
--   clock is an argument.
--
-- Loops that Go writes over an index run on fuel, one more than the length of the slice, and each
-- round moves the index on by at least one byte; the theorems state results, so they show that
-- this is enough. A read of n bytes from a socket has n + 1 rounds, each of which reads at least one
-- byte; ReadString has one round more than there are bytes left; the bytes of a big.Int are at most
-- those of the modulus.
--
-- Not modelled: sockets, SQL, the XML datapack, logging and metrics. A handler runs as one step, but
-- for a game server's request for a player, whose two locks are two steps (Keys/Requests); inside
-- the other handlers goroutines do not interleave. Of a client's frame the size in its header is
-- modelled (data_size), its cipher and checksum as in Crypt.
pub mod Prelude
pub mod Crypt
pub mod Packet
pub mod Registry
pub mod Items
pub mod Enchant
pub mod Inventory
pub mod Buffs
pub mod Experience
pub mod Hate
pub mod Pvp
pub mod World
pub mod Link
pub mod Login

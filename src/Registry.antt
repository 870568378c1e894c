-- ===== src/Registry.antt =====
-- The in-memory registries of internal/gameserver/registry. Ids are int32 bit patterns; each call
-- holds the registry's mutex, so it is one step.
pub mod Targets
pub mod Shots
pub mod Reuse
pub mod Connections

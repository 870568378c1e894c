-- ===== src/World.antt =====
-- WorldRegistry of internal/gameserver/registry/world.go: who and what is in the world, with the grid
-- of regions that finds what is near a point. Each call holds the mutex, so it is one step.
pub mod Grid
pub mod State
pub mod Queries
mod Tests

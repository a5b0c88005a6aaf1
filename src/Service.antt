-- ===== src/Service.antt =====
-- The runs that are not builds: backend/usecase/spawn.go, stop.go, reaper.go and rehydrate.go.
pub mod Spawn
pub mod Lifecycle
pub mod Clean
pub mod Phantom
pub mod Settled

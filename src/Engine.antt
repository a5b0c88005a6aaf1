-- ===== src/Engine.antt =====
-- backend/usecase/buildengine.go, the auto-resume engine of builds. World has the state and what the
-- host answers; the operations follow the file from top to bottom.
pub mod Config
pub mod Backoff
pub mod Spawn
pub mod Breadcrumb
pub mod Resume
pub mod Exit
pub mod Watch
pub mod Lanes
pub mod Endings
pub mod Watching
pub mod Reach
pub mod Budget
pub mod Parked
pub mod Fire
pub mod Once
pub mod Stopped
pub mod Later
pub mod After
pub mod Between
pub mod Apart
pub mod Replay
pub mod Stall
pub mod Push
pub mod Boot
pub mod Routes
pub mod Restart

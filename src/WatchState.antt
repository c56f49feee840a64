-- ===== src/WatchState.antt =====
-- app/services/watch_state.py: episode keys and the choices that watch progress leads to.
pub mod Keys
pub mod Sorting
pub mod Labels
pub mod Progress
pub mod Floor
pub mod Selection

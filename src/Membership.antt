-- ===== src/Membership.antt =====
-- ProjetoFinal/spread/spread-src-5.0.1/daemon/membership.c: how the daemons agree on who belongs to the
-- ring. The children hold the parts.
pub mod Select
pub mod Sets
pub mod State
pub mod Handlers
pub mod Sound
pub mod Handled
pub mod Steps
pub mod Loss
pub mod Backoff
mod Tests
pub mod Sorting
pub mod Sorted
pub mod Beside
pub mod Reps

-- ===== src/Groups.antt =====
-- ProjetoFinal/spread/spread-src-5.0.1/daemon/groups.c, with groups.h and sess_body.h: the groups of
-- client sessions that the daemons keep on top of the ring. The children hold the parts.
pub mod Keyed
pub mod Names
pub mod State
pub mod Notices
pub mod Handlers
pub mod Counts
pub mod VsSets
pub mod Mailboxes
pub mod Valid
pub mod Ensure
pub mod Join
pub mod Joining
pub mod Depart
pub mod Killing
pub mod Leaving
pub mod Runs
pub mod Shifts
pub mod Alike
pub mod Losing
pub mod Eliminate
pub mod Settling
pub mod Shrinking
pub mod Remains
pub mod Notified
pub mod VsMembers
pub mod Compare
mod Tests

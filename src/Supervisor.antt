-- ===== src/Supervisor.antt =====
-- pseudoroot/src/lib.rs: the library that starts a command under the preloaded library, in a session
-- of its own or in one that already runs.
pub mod Command
pub mod Overrides
pub mod Process
pub mod Library
pub mod Preload
pub mod Session
pub mod Environment
pub mod Preloaded
pub mod Child
pub mod Target
pub mod Start
pub mod Handover
pub mod Rewritten
pub mod Publication

-- ===== src/Shm.antt =====
-- pseudoroot-core/src/shm_map.rs: the inode table in shared memory, by parts.
pub mod Layout
pub mod Page
pub mod Table
pub mod Map
pub mod Probing
pub mod Valid
pub mod Frame
pub mod Write
pub mod Refinement
pub mod Room
pub mod Create
pub mod Stores
pub mod Agrees
pub mod Publication
pub mod Race
pub mod Writers

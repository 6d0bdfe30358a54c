-- ===== src/Tests.antt =====
-- The theorems at concrete inputs.
mod Attributes
mod Cli
mod Daemon
mod Darwin
mod Files
mod Interpose
mod Linux
mod Processes
mod Samples
mod Server
mod Session
mod Shm
mod Supervisor
mod Writers

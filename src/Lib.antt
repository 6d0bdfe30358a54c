-- ===== src/Lib.antt =====
-- pseudoroot runs programs as if by root: a library that is preloaded into them replaces the functions
-- of libc that read and change ownership, and records what they would have changed in a table of fake
-- inodes. This library models the program, and the theorems listed below are about that model.
--
-- The parts, and how they interact. A hook of pseudoroot/interpose/src/lib.rs calls the ownership
-- tracking of pseudoroot/interpose/src/ownership.rs. That keeps its entries in one of three backends:
-- the shared-memory table of a session (pseudoroot-core/src/shm_map.rs, by shm_client.rs), a daemon
-- (pseudoroot-core/src/daemon_server.rs, by daemon_client.rs and the frames of protocol.rs), or the
-- state of the process itself (pseudoroot-core/src/state.rs). The supervisor of pseudoroot/src/lib.rs
-- starts a program under the library, with a table or a daemon for its session; pdr
-- (pseudoroot/src/bin/pdr.rs) is its command line, and pdrd (pseudoroot-daemon/src/main.rs) a daemon.
--
-- The files:
--   Prelude, with Tests, Lists, Bytes, Bits and Decimal: names and lemmas that all share. Numbers are
--     native; a list is read with a default out of its range; an integer as bytes is written out.
--   Xattrs: the hash map of extended attributes. Inode: FakeInode and InodeKey of
--     pseudoroot-core/src/state.rs, and the contract of a table, a function from keys to entries with
--     put, delete and chown.
--   State: FakeRootState of pseudoroot-core/src/state.rs, over a concurrent map that is an interface
--     (DashMap). State/Refinement: its methods against the contract.
--   Codec, Codec/Sample: the serializer as an interface, and a concrete one.
--   Shm: pseudoroot-core/src/shm_map.rs. Layout has the sizes and offsets, Page the attribute page of
--     a slot, Table the slots and the probe, Map the methods of ShmInodeMap. Probing, Valid, Frame and
--     Write have the lemmas; Refinement, Room and Create the results. Stores has the insertions as
--     single stores; Agrees and Publication are about what is read between them, Race and Writers about
--     two insertions at once.
--   ShmClient: pseudoroot-core/src/shm_client.rs.
--   Protocol: pseudoroot-core/src/protocol.rs, with IpcChannel in Protocol/Channel. Protocol/Framing:
--     frames on a stream. Client/Channel: a request over the channel to the daemon.
--   Daemon, Daemon/Server: pseudoroot-core/src/daemon_server.rs, the messages with the loop of one
--     connection, and the accept loop with the handler threads. Daemon/Dispatch, Daemon/Serving and
--     Daemon/Rounds: one request, the requests of a connection, and the end of its loop.
--     Daemon/Mixed, Daemon/Shutdown and Daemon/Blocking: two connections that set the ids at once, the
--     flag, and what is true where run_blocking returns.
--   Client: pseudoroot-core/src/daemon_client.rs. Client/Remote: a request over a live connection.
--   Interpose: the state of the preloaded library, and what it calls of the system, whose answers are
--     parameters (Sys). Inode is pseudoroot/interpose/src/inode.rs; Backend, Files and Xattr are
--     pseudoroot/interpose/src/ownership.rs; Hooks is pseudoroot/interpose/src/lib.rs, over
--     Sources. Linux, with the attribute hooks in Linux/Attributes, is
--     pseudoroot/interpose/src/platform/linux.rs; Darwin, with the calls that leave the library in
--     Darwin/Wrappers, is pseudoroot/interpose/src/platform/macos.rs. Links and Bootstrap are about
--     Linux, Darwin/Unrecorded about Darwin. Serving says what a library that answers reads promises;
--     Own and Shared, with Shared/Changes, are about the process's table and the shared one, and Remote
--     about the daemon. Calls, Modes and Nodes are about what a program sees of its own calls, Renames
--     about what a rename drops, Processes and Identity about what two processes see of each other's.
--     Xattr/Names, Xattr/Buffers, Xattr/Roundtrip, Xattr/Session and Xattr/Exact are on the attribute
--     hooks.
--   Supervisor: pseudoroot/src/lib.rs. Command has std::process::Command as far as it is used, with the
--     functions that copy a command; Process what is read of the process; Library the extraction of
--     the embedded library; Preload and Session the rest. Start is what the constructor of
--     pseudoroot/interpose/src/lib.rs and init_shm_from_env read in the process that a command starts.
--     Overrides, Environment and Child have the lemmas; Preloaded, Target, Rewritten, Handover and
--     Publication the results.
--   Cli: pseudoroot/src/bin/pdr.rs. Arguments, Identity and Stop have the results.
--   Pdrd: pseudoroot-daemon/src/main.rs.
--   Tests: every result at a concrete input.
--
-- How the state corresponds. A method that writes through shared memory, a lock or a static takes the
-- state and returns the new one; atomic operations are sequenced, each method is one step, and other
-- processes do not write in between, except where the single stores of an insertion are the steps. The
-- mapping is a header, a list of slots and a list of pages alike in index, and the slots and pages that
-- lie behind offsets are related to it by the layout. A stream is the bytes that are still to be read, and a connection serves one list of them.
--
-- Bounds. The loop of probe runs slot_count rounds, as in the source. handle_client takes a number of
-- rounds, and gives none where the loop has not ended within them; one more than the bytes sent, or than
-- the messages, is enough, since the loop ends at the end of the stream. The frame length is taken modulo 2^32, sizes of the mapping are checked as in the source.
--
-- The steps of the daemon. A step of the accept loop is a load of the flag, or one accept. A step of a
-- handler is one access to what the threads share: a method of the table, a store or load of one of
-- the two ids, or a store to the flag, with the reading of the request before the first; or it is the
-- sending of the answer. A session may be told to stop between any two of them. Where one client is
-- looked at alone, a request is one step.
--
-- Not modelled: the parser of the command line, its messages; the build script; the
-- interposition table of macOS. In the file system, only the answers that a hook or the supervisor sees
-- are modelled, and the files that the extraction of the library writes. Where the source would read past
-- the list buffer of the caller (fake_listxattr), the model reads what the buffer has.
pub mod Prelude
pub mod Xattrs
pub mod Inode
pub mod Codec
pub mod State
pub mod Shm
pub mod ShmClient
pub mod Protocol
pub mod Daemon
pub mod Client
pub mod Interpose
pub mod Supervisor
pub mod Cli
pub mod Pdrd
mod Tests

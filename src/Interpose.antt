-- ===== src/Interpose.antt =====
-- The preloaded library: the state of pseudoroot/interpose/src/ownership.rs, and what it calls of the
-- system, whose answers are parameters. A method takes the library's state and returns the new one.
pub mod Inode
pub mod Backend
pub mod Files
pub mod Xattr
pub mod Sources
pub mod Hooks
pub mod Darwin
pub mod Serving
pub mod Own
pub mod Shared
pub mod Calls
pub mod Modes
pub mod Identity
pub mod Nodes
pub mod Renames
pub mod Remote
pub mod Processes
pub mod Linux
pub mod Links
pub mod Bootstrap
use pseudoroot.Prelude.{ℕ, Bool, Option}
use pseudoroot.Prelude.Bytes.{Bytes}
use pseudoroot.Xattrs.{Xattrs}
use pseudoroot.Codec.{Codec}
use pseudoroot.State.{DashMap, FakeRootState}
use pseudoroot.Protocol.{Wincode}
use pseudoroot.Client.{Client}
use pseudoroot.ShmClient.{ShmClient, ShmEnv}

-- an `i32`
pub data ℤ : Type 0 where
  pos negsuc : ℕ → ℤ

-- the fields of `libc::stat` that the library reads or writes
pub record Stat : Type 0 where
  pub st_dev : ℕ
  pub st_ino : ℕ
  pub st_nlink : ℕ
  pub st_mode : ℕ
  pub st_uid : ℕ
  pub st_gid : ℕ
  pub st_rdev : ℕ

-- the fields of `libc::statx` that the library reads or writes
pub record Statx : Type 0 where
  pub stx_mask : ℕ
  pub stx_ino : ℕ
  pub stx_dev_major : ℕ
  pub stx_dev_minor : ℕ
  pub stx_mode : ℕ
  pub stx_uid : ℕ
  pub stx_gid : ℕ
  pub stx_rdev_major : ℕ
  pub stx_rdev_minor : ℕ

-- a `*const c_char`: null, or the bytes of a C string
abbrev pub CStr : Type 0
CStr = Option Bytes

-- a buffer of the caller: null, or its bytes
abbrev pub Buffer : Type 0
Buffer = Option Bytes

pub data StatSource : Type 0 where
  path : CStr → Bool → StatSource
  fd : ℤ → StatSource
  at_fd : ℤ → CStr → ℕ → StatSource

-- What the calls that leave the library answer while one hook runs: the `real_*` functions of
-- pseudoroot/interpose/src/platform/linux.rs, the standard library and the libc crate.
pub record Sys : Type 0 where
  pub real_stat : CStr → ℤ × Stat
  pub real_lstat : CStr → ℤ × Stat
  pub real_fstatat : ℤ → CStr → ℕ → ℤ × Stat
  pub real_fstat : ℤ → ℤ × Stat
  pub real_statx : ℤ → CStr → ℕ → ℕ → ℤ × Statx
  pub real_chmod : CStr → ℕ → ℤ
  pub real_fchmod : ℤ → ℕ → ℤ
  pub real_fchmodat : ℤ → CStr → ℕ → ℕ → ℤ
  pub real_mknod : CStr → ℕ → ℕ → ℤ
  pub real_mknodat : ℤ → CStr → ℕ → ℕ → ℤ
  pub real_unlink : CStr → ℤ
  pub real_unlinkat : ℤ → CStr → ℕ → ℤ
  pub real_rmdir : CStr → ℤ
  pub real_rename : CStr → CStr → ℤ
  pub real_renameat : ℤ → CStr → ℤ → CStr → ℤ
  pub real_renameat2 : ℤ → CStr → ℤ → CStr → ℕ → ℤ
  pub real_getxattr : StatSource → CStr → Buffer → ℕ → ℤ × Buffer
  pub real_listxattr : StatSource → Buffer → ℕ → ℤ × Buffer
  -- `OpenOptions` with write and create
  pub open_placeholder : Bytes → Bool
  -- `str::from_utf8(..).is_ok()`
  pub is_utf8 : Bytes → Bool
  -- `/proc/self/fd/{dirfd}/{path}`
  -- `/proc/self/fd/..`, which only Linux has
  pub proc_path : ℤ → Bytes → Option Bytes
  -- the constants of the libc crate, and `AT_EMPTY_PATH`, which is 0 on Darwin
  pub at_fdcwd : ℤ
  pub at_symlink_nofollow : ℕ
  pub at_empty : ℕ
  pub makedev : ℕ → ℕ → ℕ
  pub major : ℕ → ℕ
  pub minor : ℕ → ℕ

-- the system and the two serializers
pub record Platform : Type 0 where
  pub sys : Sys
  pub wincode : Wincode
  pub pages : Codec Xattrs

-- The statics of the library. `LIBRARY_INIT` and `SESSION_INIT` are whether their closure has run.
pub record Library (D : DashMap) : Type 0 where
  pub library_init : Bool
  pub library_init_done : Bool
  pub library_initializing : Bool
  pub session_init : Bool
  pub ctor_done : Bool
  pub boot_uid : ℕ
  pub boot_gid : ℕ
  pub fs_uid : ℕ
  pub fs_gid : ℕ
  pub shm_env : ShmEnv
  pub shm : ShmClient
  pub client : Client D
  pub global : FakeRootState D

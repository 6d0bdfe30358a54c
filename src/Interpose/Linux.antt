-- ===== src/Interpose/Linux.antt =====
-- pseudoroot/interpose/src/platform/linux.rs: the calls that leave the library on Linux, and
-- real_getxattr_for and real_listxattr_for of pseudoroot/interpose/src/ownership.rs. The kernel, the
-- functions behind the library's own, and the standard library are parameters.
pub mod Attributes
use pseudoroot.Prelude.{ℕ, Bool, true, false, Option, none, some, unwrap_or}
use pseudoroot.Prelude.Bytes.{Bytes}
use pseudoroot.Interpose.{ℤ, negsuc, Stat, Statx, StatSource, path, fd, at_fd, CStr, Buffer, Sys}
use pseudoroot.Interpose.Inode.{at_fdcwd, at_symlink_nofollow, at_empty}

-- the system calls, by their arguments
pub record Kernel : Type 0 where
  pub sys_newfstatat : ℤ → CStr → ℕ → ℤ × Stat
  pub sys_fstat : ℤ → ℤ × Stat
  pub sys_statx : ℤ → CStr → ℕ → ℕ → ℤ × Statx
  pub sys_fchmodat : ℤ → CStr → ℕ → ℕ → ℤ
  pub sys_fchmod : ℤ → ℕ → ℤ

-- what `dlsym(RTLD_NEXT)` finds: the functions of libc behind those of the library
pub record Next : Type 0 where
  pub unlink : CStr → ℤ
  pub unlinkat : ℤ → CStr → ℕ → ℤ
  pub rmdir : CStr → ℤ
  pub rename : CStr → CStr → ℤ
  pub renameat : ℤ → CStr → ℤ → CStr → ℤ
  pub renameat2 : ℤ → CStr → ℤ → CStr → ℕ → ℤ
  pub mknod : CStr → ℕ → ℕ → ℤ
  pub mknodat : ℤ → CStr → ℕ → ℕ → ℤ
  pub getxattr : CStr → CStr → Buffer → ℕ → ℤ × Buffer
  pub lgetxattr : CStr → CStr → Buffer → ℕ → ℤ × Buffer
  pub fgetxattr : ℤ → CStr → Buffer → ℕ → ℤ × Buffer
  pub listxattr : CStr → Buffer → ℕ → ℤ × Buffer
  pub llistxattr : CStr → Buffer → ℕ → ℤ × Buffer
  pub flistxattr : ℤ → Buffer → ℕ → ℤ × Buffer

-- the standard library and the macros of the libc crate
pub record Std : Type 0 where
  pub open_placeholder : Bytes → Bool
  pub is_utf8 : Bytes → Bool
  pub proc_path : ℤ → Bytes → Bytes
  pub makedev : ℕ → ℕ → ℕ
  pub major : ℕ → ℕ
  pub minor : ℕ → ℕ

module _ (k : Kernel) where
  unfoldable pub real_stat : CStr → ℤ × Stat
  real_stat p = k.sys_newfstatat at_fdcwd p 0

  unfoldable pub real_fstat : ℤ → ℤ × Stat
  real_fstat f = k.sys_fstat f

  unfoldable pub real_lstat : CStr → ℤ × Stat
  real_lstat p = k.sys_newfstatat at_fdcwd p at_symlink_nofollow

  unfoldable pub real_fstatat : ℤ → CStr → ℕ → ℤ × Stat
  real_fstatat dirfd p flags = k.sys_newfstatat dirfd p flags

  unfoldable pub real_statx : ℤ → CStr → ℕ → ℕ → ℤ × Statx
  real_statx dirfd p flags mask = k.sys_statx dirfd p flags mask

  unfoldable pub real_chmod : CStr → ℕ → ℤ
  real_chmod p mode = k.sys_fchmodat at_fdcwd p mode 0

  unfoldable pub real_fchmod : ℤ → ℕ → ℤ
  real_fchmod f mode = k.sys_fchmod f mode

  -- four arguments, of which the system call takes three
  unfoldable pub real_fchmodat : ℤ → CStr → ℕ → ℕ → ℤ
  real_fchmodat dirfd p mode flags = k.sys_fchmodat dirfd p mode flags

-- none: the panic of a source that is never made here
unfoldable pub real_getxattr_for : Next → StatSource → CStr → Buffer → ℕ → Option (ℤ × Buffer)
real_getxattr_for n (path p true) name value size = some (n.lgetxattr p name value size)
real_getxattr_for n (path p false) name value size = some (n.getxattr p name value size)
real_getxattr_for n (fd f) name value size = some (n.fgetxattr f name value size)
real_getxattr_for n (at_fd dirfd p flags) name value size = none

unfoldable pub real_listxattr_for : Next → StatSource → Buffer → ℕ → Option (ℤ × Buffer)
real_listxattr_for n (path p true) list size = some (n.llistxattr p list size)
real_listxattr_for n (path p false) list size = some (n.listxattr p list size)
real_listxattr_for n (fd f) list size = some (n.flistxattr f list size)
real_listxattr_for n (at_fd dirfd p flags) list size = none

-- `real_fn!`: the content of `REAL` behind the call, and the function that is called; none is the
-- panic of get_next_function. `next` is what dlsym answers.
unfoldable pub real_fn : {F : Type 0} → Bool → Option F → F → Option F → Option (Option F × F)
real_fn false next fallback real = some (real, fallback)
real_fn true next fallback (some f) = some (some f, f)
real_fn true none fallback none = none
real_fn true (some f) fallback none = some (some f, f)

-- What the calls of a library that is set up answer. The answer for a source that is never made is
-- of no account.
unfoldable pub linux : Kernel → Next → Std → Sys
unfolding real_stat real_lstat real_fstatat real_fstat real_statx real_chmod real_fchmod
    real_fchmodat real_getxattr_for real_listxattr_for
linux k n s = record {
  real_stat = real_stat k;
  real_lstat = real_lstat k;
  real_fstatat = real_fstatat k;
  real_fstat = real_fstat k;
  real_statx = real_statx k;
  real_chmod = real_chmod k;
  real_fchmod = real_fchmod k;
  real_fchmodat = real_fchmodat k;
  real_mknod = n.mknod;
  real_mknodat = n.mknodat;
  real_unlink = n.unlink;
  real_unlinkat = n.unlinkat;
  real_rmdir = n.rmdir;
  real_rename = n.rename;
  real_renameat = n.renameat;
  real_renameat2 = n.renameat2;
  real_getxattr = λ source name value size.
      unwrap_or (real_getxattr_for n source name value size) (negsuc 0, value);
  real_listxattr =
      λ source list size. unwrap_or (real_listxattr_for n source list size) (negsuc 0, list);
  open_placeholder = s.open_placeholder;
  is_utf8 = s.is_utf8;
  proc_path = λ dirfd p. some (s.proc_path dirfd p);
  at_fdcwd = at_fdcwd;
  at_symlink_nofollow = at_symlink_nofollow;
  at_empty = at_empty;
  makedev = s.makedev;
  major = s.major;
  minor = s.minor;
}

-- ===== src/Interpose/Darwin/Wrappers.antt =====
-- The wrappers of pseudoroot/interpose/src/platform/macos.rs: the calls that leave the library on
-- Darwin. dyld does not interpose them, so they reach the functions of libSystem, which are
-- parameters, in the words of Darwin: the attribute functions take a position and options.
use pseudoroot.Prelude.{ℕ, none, unwrap_or, ltb, if◌then◌else◌}
use pseudoroot.Interpose.{ℤ, pos, negsuc, Stat, Statx, CStr, Buffer, Sys}
use pseudoroot.Interpose.Linux.{Next, Std, real_getxattr_for, real_listxattr_for}

pub record Libc : Type 0 where
  pub stat : CStr → ℤ × Stat
  pub fstat : ℤ → ℤ × Stat
  pub lstat : CStr → ℤ × Stat
  pub fstatat : ℤ → CStr → ℕ → ℤ × Stat
  pub chmod : CStr → ℕ → ℤ
  pub fchmod : ℤ → ℕ → ℤ
  pub fchmodat : ℤ → CStr → ℕ → ℕ → ℤ
  pub unlink : CStr → ℤ
  pub unlinkat : ℤ → CStr → ℕ → ℤ
  pub rmdir : CStr → ℤ
  pub rename : CStr → CStr → ℤ
  pub renameat : ℤ → CStr → ℤ → CStr → ℤ
  pub mknod : CStr → ℕ → ℕ → ℤ
  pub mknodat : ℤ → CStr → ℕ → ℕ → ℤ
  -- behind the size the position and the options; the results are `ssize_t`
  pub getxattr : CStr → CStr → Buffer → ℕ → ℕ → ℕ → ℤ × Buffer
  pub fgetxattr : ℤ → CStr → Buffer → ℕ → ℕ → ℕ → ℤ × Buffer
  pub listxattr : CStr → Buffer → ℕ → ℕ → ℤ × Buffer
  pub flistxattr : ℤ → Buffer → ℕ → ℕ → ℤ × Buffer

-- `XATTR_NOFOLLOW`
abbrev pub xattr_nofollow : ℕ
xattr_nofollow = 1

-- `ret.try_into().unwrap_or(-1)`, from `ssize_t` to `i32`
unfoldable pub narrow : ℤ → ℤ
narrow (pos n) = if ltb n 0x80000000 then pos n else negsuc 0
narrow (negsuc n) = if ltb n 0x80000000 then negsuc n else negsuc 0

abbrev pub narrowed : ℤ × Buffer → ℤ × Buffer
unfolding narrow
narrowed r = (narrow r.0, r.1)

module _ (c : Libc) where
  unfoldable pub real_stat : CStr → ℤ × Stat
  real_stat p = c.stat p

  unfoldable pub real_fstat : ℤ → ℤ × Stat
  real_fstat f = c.fstat f

  unfoldable pub real_lstat : CStr → ℤ × Stat
  real_lstat p = c.lstat p

  unfoldable pub real_fstatat : ℤ → CStr → ℕ → ℤ × Stat
  real_fstatat dirfd p flags = c.fstatat dirfd p flags

  unfoldable pub real_chmod : CStr → ℕ → ℤ
  real_chmod p mode = c.chmod p mode

  unfoldable pub real_fchmod : ℤ → ℕ → ℤ
  real_fchmod f mode = c.fchmod f mode

  unfoldable pub real_fchmodat : ℤ → CStr → ℕ → ℕ → ℤ
  real_fchmodat dirfd p mode flags = c.fchmodat dirfd p mode flags

  unfoldable pub real_unlink : CStr → ℤ
  real_unlink p = c.unlink p

  unfoldable pub real_unlinkat : ℤ → CStr → ℕ → ℤ
  real_unlinkat dirfd p flags = c.unlinkat dirfd p flags

  unfoldable pub real_rmdir : CStr → ℤ
  real_rmdir p = c.rmdir p

  unfoldable pub real_rename : CStr → CStr → ℤ
  real_rename oldpath newpath = c.rename oldpath newpath

  unfoldable pub real_renameat : ℤ → CStr → ℤ → CStr → ℤ
  real_renameat olddirfd oldpath newdirfd newpath = c.renameat olddirfd oldpath newdirfd newpath

  unfoldable pub real_mknod : CStr → ℕ → ℕ → ℤ
  real_mknod p mode dev = c.mknod p mode dev

  unfoldable pub real_mknodat : ℤ → CStr → ℕ → ℕ → ℤ
  real_mknodat dirfd p mode dev = c.mknodat dirfd p mode dev

  unfoldable pub getxattr_impl : CStr → CStr → Buffer → ℕ → ℕ → ℤ × Buffer
  unfolding narrow
  getxattr_impl p name value size options = narrowed (c.getxattr p name value size 0 options)

  unfoldable pub real_getxattr : CStr → CStr → Buffer → ℕ → ℤ × Buffer
  unfolding getxattr_impl
  real_getxattr p name value size = getxattr_impl p name value size 0

  unfoldable pub real_lgetxattr : CStr → CStr → Buffer → ℕ → ℤ × Buffer
  unfolding getxattr_impl
  real_lgetxattr p name value size = getxattr_impl p name value size xattr_nofollow

  unfoldable pub real_fgetxattr : ℤ → CStr → Buffer → ℕ → ℤ × Buffer
  unfolding narrow
  real_fgetxattr f name value size = narrowed (c.fgetxattr f name value size 0 0)

  unfoldable pub listxattr_impl : CStr → Buffer → ℕ → ℕ → ℤ × Buffer
  unfolding narrow
  listxattr_impl p list size options = narrowed (c.listxattr p list size options)

  unfoldable pub real_listxattr : CStr → Buffer → ℕ → ℤ × Buffer
  unfolding listxattr_impl
  real_listxattr p list size = listxattr_impl p list size 0

  unfoldable pub real_llistxattr : CStr → Buffer → ℕ → ℤ × Buffer
  unfolding listxattr_impl
  real_llistxattr p list size = listxattr_impl p list size xattr_nofollow

  unfoldable pub real_flistxattr : ℤ → Buffer → ℕ → ℤ × Buffer
  unfolding narrow
  real_flistxattr f list size = narrowed (c.flistxattr f list size 0)

-- What a Darwin system does not have, and no hook there calls: `renameat2` and `statx`.
pub record Absent : Type 0 where
  pub renameat2 : ℤ → CStr → ℤ → CStr → ℕ → ℤ
  pub statx : ℤ → CStr → ℕ → ℕ → ℤ × Statx

-- The wrappers by the names that real_getxattr_for and real_listxattr_for call.
unfoldable pub wrappers : Libc → Absent → Next
unfolding real_unlink real_unlinkat real_rmdir real_rename real_renameat real_mknod real_mknodat
    real_getxattr real_lgetxattr real_fgetxattr real_listxattr real_llistxattr real_flistxattr
wrappers c absent = record {
  unlink = real_unlink c;
  unlinkat = real_unlinkat c;
  rmdir = real_rmdir c;
  rename = real_rename c;
  renameat = real_renameat c;
  renameat2 = absent.renameat2;
  mknod = real_mknod c;
  mknodat = real_mknodat c;
  getxattr = real_getxattr c;
  lgetxattr = real_lgetxattr c;
  fgetxattr = real_fgetxattr c;
  listxattr = real_listxattr c;
  llistxattr = real_llistxattr c;
  flistxattr = real_flistxattr c;
}

-- What the calls of a library on Darwin answer. The answer for a source that is never made is of no
-- account.
unfoldable pub darwin : Libc → Absent → Std → Sys
unfolding real_stat real_lstat real_fstatat real_fstat real_chmod real_fchmod real_fchmodat
    real_getxattr_for real_listxattr_for wrappers
darwin c absent s =
    let w = wrappers c absent in
    record {
      real_stat = real_stat c;
      real_lstat = real_lstat c;
      real_fstatat = real_fstatat c;
      real_fstat = real_fstat c;
      real_statx = absent.statx;
      real_chmod = real_chmod c;
      real_fchmod = real_fchmod c;
      real_fchmodat = real_fchmodat c;
      real_mknod = w.mknod;
      real_mknodat = w.mknodat;
      real_unlink = w.unlink;
      real_unlinkat = w.unlinkat;
      real_rmdir = w.rmdir;
      real_rename = w.rename;
      real_renameat = w.renameat;
      real_renameat2 = w.renameat2;
      real_getxattr = λ source name value size.
          unwrap_or (real_getxattr_for w source name value size) (negsuc 0, value);
      real_listxattr =
          λ source list size. unwrap_or (real_listxattr_for w source list size) (negsuc 0, list);
      open_placeholder = s.open_placeholder;
      is_utf8 = s.is_utf8;
      proc_path = λ dirfd p. none;
      at_fdcwd = negsuc 1;
      at_symlink_nofollow = 0x20;
      at_empty = 0;
      makedev = s.makedev;
      major = s.major;
      minor = s.minor;
    }

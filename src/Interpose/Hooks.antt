-- ===== src/Interpose/Hooks.antt =====
-- pseudoroot/interpose/src/lib.rs: the functions of libc that the library replaces.
use pseudoroot.Prelude.{ℕ, zero, Bool, true, false, Option, none, some, if◌then◌else◌}
use pseudoroot.State.{DashMap}
use pseudoroot.Interpose.{ℤ, pos, Stat, Statx, CStr, Platform, Library}
use pseudoroot.Interpose.Backend
use pseudoroot.Interpose.Backend.{current_fake_uid, current_fake_gid, set_current_ids, set_fsuid}
use pseudoroot.Interpose.Files.{
  maybe_remove_inode_path, maybe_remove_inode_at, prepare_rename_overwrite, fake_mknod_path,
  fake_mknodat, modify_stat_buf, modify_statx_buf,
}
use pseudoroot.Interpose.Xattr.{as_i32}
use pseudoroot.Interpose.Sources.{
  record_chown_at, record_chown_path, record_chown_fd, record_chmod_path, record_chmod_fd,
  record_chmod_at,
}

module _ (p : Platform) {D : DashMap} where
  unfoldable pub getuid : Library D → Library D × ℕ
  getuid l = current_fake_uid p l

  unfoldable pub geteuid : Library D → Library D × ℕ
  geteuid l = current_fake_uid p l

  unfoldable pub getgid : Library D → Library D × ℕ
  getgid l = current_fake_gid p l

  unfoldable pub getegid : Library D → Library D × ℕ
  getegid l = current_fake_gid p l

  -- the three ids that are written, each unless its pointer is null
  unfoldable pub getresuid :
      Bool → Bool → Bool → Library D → Library D × (Option ℕ × Option ℕ × Option ℕ)
  unfolding getuid
  getresuid ruid euid suid l =
      let r = getuid l in
      (
        r.0,
        (
          if ruid then some r.1 else none,
          if euid then some r.1 else none,
          if suid then some r.1 else none,
        ),
      )

  unfoldable pub getresgid :
      Bool → Bool → Bool → Library D → Library D × (Option ℕ × Option ℕ × Option ℕ)
  unfolding getgid
  getresgid rgid egid sgid l =
      let r = getgid l in
      (
        r.0,
        (
          if rgid then some r.1 else none,
          if egid then some r.1 else none,
          if sgid then some r.1 else none,
        ),
      )

  unfoldable pub setuid : ℕ → Library D → Library D × ℤ
  unfolding getgid
  setuid uid l = let r = getgid l in set_current_ids p uid r.1 r.0

  unfoldable pub setgid : ℕ → Library D → Library D × ℤ
  unfolding getuid
  setgid gid l = let r = getuid l in set_current_ids p r.1 gid r.0

  unfoldable pub setreuid : ℕ → ℕ → Library D → Library D × ℤ
  unfolding getgid
  setreuid _ruid euid l = let r = getgid l in set_current_ids p euid r.1 r.0

  unfoldable pub setregid : ℕ → ℕ → Library D → Library D × ℤ
  unfolding getuid
  setregid _rgid egid l = let r = getuid l in set_current_ids p r.1 egid r.0

  unfoldable pub setresuid : ℕ → ℕ → ℕ → Library D → Library D × ℤ
  unfolding getgid
  setresuid _ruid euid _suid l = let r = getgid l in set_current_ids p euid r.1 r.0

  unfoldable pub setresgid : ℕ → ℕ → ℕ → Library D → Library D × ℤ
  unfolding getuid
  setresgid _rgid egid _sgid l = let r = getuid l in set_current_ids p r.1 egid r.0

  unfoldable pub setfsuid : ℕ → Library D → Library D × ℤ
  setfsuid uid l = let r = set_fsuid p uid l in (r.0, as_i32 r.1)

  unfoldable pub setfsgid : ℕ → Library D → Library D × ℤ
  setfsgid gid l = let r = Backend.setfsgid p gid l in (r.0, as_i32 r.1)

  unfoldable pub chown : CStr → ℕ → ℕ → Library D → Library D × ℤ
  chown name uid gid l = record_chown_path p name false uid gid l

  unfoldable pub lchown : CStr → ℕ → ℕ → Library D → Library D × ℤ
  lchown name uid gid l = record_chown_path p name true uid gid l

  unfoldable pub fchown : ℤ → ℕ → ℕ → Library D → Library D × ℤ
  fchown f uid gid l = record_chown_fd p f uid gid l

  unfoldable pub fchownat : ℤ → CStr → ℕ → ℕ → ℕ → Library D → Library D × ℤ
  fchownat dirfd name uid gid flags l = record_chown_at p dirfd name flags uid gid l

  unfoldable pub chmod : CStr → ℕ → Library D → Library D × ℤ
  chmod name mode l = record_chmod_path p name mode l

  unfoldable pub fchmod : ℤ → ℕ → Library D → Library D × ℤ
  fchmod f mode l = record_chmod_fd p f mode l

  unfoldable pub fchmodat : ℤ → CStr → ℕ → ℕ → Library D → Library D × ℤ
  fchmodat dirfd name mode flags l = record_chmod_at p dirfd name mode flags l

  -- what the caller finds in its buffer, which is not null, and the result
  unfoldable pub overlay : ℤ × Stat → Library D → Library D × (ℤ × Stat)
  overlay (pos zero, st) l = let r = modify_stat_buf p st l in (r.0, (pos 0, r.1))
  overlay (rc, st) l = (l, (rc, st))

  unfoldable pub stat : CStr → Library D → Library D × (ℤ × Stat)
  stat name l = overlay (p.sys.real_stat name) l

  unfoldable pub lstat : CStr → Library D → Library D × (ℤ × Stat)
  lstat name l = overlay (p.sys.real_lstat name) l

  unfoldable pub fstat : ℤ → Library D → Library D × (ℤ × Stat)
  fstat f l = overlay (p.sys.real_fstat f) l

  unfoldable pub fstatat : ℤ → CStr → ℕ → Library D → Library D × (ℤ × Stat)
  fstatat dirfd name flags l = overlay (p.sys.real_fstatat dirfd name flags) l

  -- `struct stat64` is `struct stat` where a pointer has 64 bits
  unfoldable pub stat64 : CStr → Library D → Library D × (ℤ × Stat)
  unfolding stat
  stat64 name l = stat name l

  unfoldable pub fstat64 : ℤ → Library D → Library D × (ℤ × Stat)
  unfolding fstat
  fstat64 f l = fstat f l

  unfoldable pub lstat64 : CStr → Library D → Library D × (ℤ × Stat)
  unfolding lstat
  lstat64 name l = lstat name l

  unfoldable pub fstatat64 : ℤ → CStr → ℕ → Library D → Library D × (ℤ × Stat)
  unfolding fstatat
  fstatat64 dirfd name flags l = fstatat dirfd name flags l

  -- as for `overlay`
  unfoldable pub overlay_x : ℤ × Statx → Library D → Library D × (ℤ × Statx)
  overlay_x (pos zero, stx) l = let r = modify_statx_buf p stx l in (r.0, (pos 0, r.1))
  overlay_x (rc, stx) l = (l, (rc, stx))

  unfoldable pub statx : ℤ → CStr → ℕ → ℕ → Library D → Library D × (ℤ × Statx)
  statx dirfd name flags mask l = overlay_x (p.sys.real_statx dirfd name flags mask) l

  unfoldable pub unlink : CStr → Library D → Library D × ℤ
  unlink name l = (maybe_remove_inode_path p name l, p.sys.real_unlink name)

  unfoldable pub unlinkat : ℤ → CStr → ℕ → Library D → Library D × ℤ
  unlinkat dirfd name flags l =
      (maybe_remove_inode_at p dirfd name flags l, p.sys.real_unlinkat dirfd name flags)

  unfoldable pub rmdir : CStr → Library D → Library D × ℤ
  rmdir name l = (maybe_remove_inode_path p name l, p.sys.real_rmdir name)

  unfoldable pub rename : CStr → CStr → Library D → Library D × ℤ
  rename oldpath newpath l = (
    prepare_rename_overwrite p p.sys.at_fdcwd oldpath p.sys.at_fdcwd newpath l,
    p.sys.real_rename oldpath newpath,
  )

  unfoldable pub renameat : ℤ → CStr → ℤ → CStr → Library D → Library D × ℤ
  renameat olddirfd oldpath newdirfd newpath l = (
    prepare_rename_overwrite p olddirfd oldpath newdirfd newpath l,
    p.sys.real_renameat olddirfd oldpath newdirfd newpath,
  )

  unfoldable pub renameat2 : ℤ → CStr → ℤ → CStr → ℕ → Library D → Library D × ℤ
  renameat2 olddirfd oldpath newdirfd newpath flags l = (
    prepare_rename_overwrite p olddirfd oldpath newdirfd newpath l,
    p.sys.real_renameat2 olddirfd oldpath newdirfd newpath flags,
  )

  unfoldable pub mknod : CStr → ℕ → ℕ → Library D → Library D × ℤ
  mknod pathname mode dev l = fake_mknod_path p pathname mode dev l

  unfoldable pub mknodat : ℤ → CStr → ℕ → ℕ → Library D → Library D × ℤ
  mknodat dirfd pathname mode dev l = fake_mknodat p dirfd pathname mode dev l

  unfoldable pub setgroups : Library D → Library D × ℤ
  setgroups l = (l, pos 0)

  unfoldable pub capset : Library D → Library D × ℤ
  capset l = (l, pos 0)

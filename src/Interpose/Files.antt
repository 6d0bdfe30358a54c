-- ===== src/Interpose/Files.antt =====
-- pseudoroot/interpose/src/ownership.rs: what the hooks record of a chown, a chmod, a mknod, an unlink
-- and a rename, and how they overwrite what `stat` and `statx` report.
use pseudoroot.Prelude.{
  ℕ, ◌-◌, ◌%◌, ◌^◌, Bool, ◌||◌, not, Option, none, some, if◌then◌else◌, leb, ◌==◌, bit_and, bit_or,
  unwrap_or,
}
use pseudoroot.Prelude.Bytes.{Bytes}
use pseudoroot.Inode.{InodeKey, FakeInode, new, key_eq}
use pseudoroot.State.{DashMap}
use pseudoroot.Interpose.{
  ℤ, pos, negsuc, Stat, Statx, StatSource, path, fd, at_fd, CStr, Sys, Platform, Library,
}
use pseudoroot.Interpose.Inode.{
  found, failed, key_from_stat, stat_at, stat_path, resolve_path_at, resolve_stat_flags,
  source_stat,
}
use pseudoroot.Interpose.Backend.{
  ensure_library_init, current_fake_uid, current_fake_gid, get_inode, set_inode, update_inode,
  remove_inode, record_chown_key,
}

-- 0o7777
abbrev pub allperms : ℕ
allperms = 4095

unfoldable pub compose_mode : ℕ → ℕ → ℕ
compose_mode real_mode requested_perms =
    bit_or (bit_and real_mode (2 ^ 32 - 1 - allperms)) (bit_and requested_perms allperms)

abbrev pub zero_on_err : ℤ → ℤ
zero_on_err (pos n) = pos n
zero_on_err (negsuc n) = pos 0

-- the call of `record_chmod` that changes the file
abbrev real_chmod_for : Sys → StatSource → ℕ → ℤ
real_chmod_for sys (path p follow) mode = sys.real_chmod p mode
real_chmod_for sys (fd f) mode = sys.real_fchmod f mode
real_chmod_for sys (at_fd dirfd p flags) mode = sys.real_fchmodat dirfd p mode flags

-- S_IFMT, S_IFCHR and S_IFBLK
abbrev pub is_device : ℕ → Bool
is_device mode = let kind = bit_and mode 0xF000 in (kind == 0x2000) || (kind == 0x6000)

unfoldable pub patch_inode_fields : Stat → FakeInode → Stat
patch_inode_fields st inode = record st {
  st_uid = inode.uid;
  st_gid = inode.gid;
  st_mode = unwrap_or inode.mode st.st_mode;
  st_rdev = unwrap_or inode.rdev st.st_rdev;
}

-- STATX_TYPE, STATX_MODE, STATX_UID and STATX_GID
abbrev with_ids : ℕ → ℕ
with_ids mask = bit_or mask (bit_or 8 16)

abbrev with_mode : Option ℕ → Statx → Statx
with_mode none stx = stx
with_mode (some mode) stx = record stx {
  stx_mode = mode % 2 ^ 16;
  stx_mask = bit_or stx.stx_mask (bit_or 2 1);
}

abbrev with_rdev : Sys → Option ℕ → Statx → Statx
with_rdev sys none stx = stx
with_rdev sys (some rdev) stx = record stx {
  stx_rdev_major = sys.major rdev;
  stx_rdev_minor = sys.minor rdev;
}

abbrev with_owner : ℕ → ℕ → Statx → Statx
with_owner uid gid stx = record stx {
  stx_uid = uid;
  stx_gid = gid;
  stx_mask = with_ids stx.stx_mask;
}

unfoldable pub patch_statx : Sys → Statx → FakeInode → Statx
patch_statx sys stx inode =
    with_rdev sys inode.rdev (with_mode inode.mode (with_owner inode.uid inode.gid stx))

module _ {D : DashMap} where
  unfoldable pub apply_default_ownership : Library D → Stat → Stat
  apply_default_ownership l st = record st {
    st_uid = l.global.current_uid;
    st_gid = l.global.current_gid;
  }

module _ (p : Platform) {D : DashMap} where
  unfoldable pub record_chmod_for_key : InodeKey → ℕ → ℕ → Library D → Library D
  unfolding compose_mode
  record_chmod_for_key key real_mode req_mode l =
      update_inode p key (λ inode. record inode { mode = some (compose_mode real_mode req_mode) }) l

  unfoldable pub record_chown : StatSource → ℕ → ℕ → Library D → Library D × ℤ
  record_chown source uid gid l =
      let ready = ensure_library_init p l in
      elim (source_stat p.sys source) [
        | found st ↦ (record_chown_key p (key_from_stat st) uid gid ready, pos 0)
        | failed errno ↦ (ready, errno)
      ]

  unfoldable pub record_chmod : StatSource → ℕ → Library D → Library D × ℤ
  unfolding record_chmod_for_key
  record_chmod source mode l =
      let ready = ensure_library_init p l in
      elim (source_stat p.sys source) [
        | found st ↦ (
          record_chmod_for_key (key_from_stat st) st.st_mode mode ready,
          zero_on_err (real_chmod_for p.sys source mode),
        )
        | failed errno ↦ (ready, errno)
      ]

  unfoldable pub maybe_remove_inode : InodeKey → ℕ → Library D → Library D
  maybe_remove_inode key nlink l = if leb nlink 1 then remove_inode p key l else l

  unfoldable pub prepare_rename_overwrite : ℤ → CStr → ℤ → CStr → Library D → Library D
  unfolding maybe_remove_inode
  prepare_rename_overwrite olddirfd oldpath newdirfd newpath l =
      let ready = ensure_library_init p l in
      elim (stat_at p.sys newdirfd newpath 0) [
        | failed errno ↦ ready
        | found new_st ↦
            let dropped = maybe_remove_inode (key_from_stat new_st) new_st.st_nlink ready in
            elim (stat_at p.sys olddirfd oldpath 0) [
              | found old_st ↦
                  if key_eq (key_from_stat new_st) (key_from_stat old_st) then ready else dropped
              | failed errno ↦ dropped
            ]
      ]

  unfoldable pub maybe_remove_inode_at : ℤ → CStr → ℕ → Library D → Library D
  unfolding maybe_remove_inode
  maybe_remove_inode_at dirfd name at_flags l =
      let ready = ensure_library_init p l in
      elim (stat_at p.sys dirfd name (resolve_stat_flags p.sys dirfd name at_flags)) [
        | found st ↦ maybe_remove_inode (key_from_stat st) st.st_nlink ready
        | failed errno ↦ ready
      ]

  unfoldable pub maybe_remove_inode_path : CStr → Library D → Library D
  unfolding maybe_remove_inode
  maybe_remove_inode_path name l =
      let ready = ensure_library_init p l in
      elim (stat_path p.sys name) [
        | found st ↦ maybe_remove_inode (key_from_stat st) st.st_nlink ready
        | failed errno ↦ ready
      ]

  -- The resolved path holds no NUL byte, so that `stat_path_buf` is `stat_path`.
  unfoldable pub finish_fake_mknod : Bytes → ℕ → ℕ → Library D → Library D × ℤ
  finish_fake_mknod resolved mode dev l =
      if not (p.sys.open_placeholder resolved)
      then (l, negsuc 0)
      else (elim (stat_path p.sys (some resolved)) [
        | failed errno ↦ (l, errno)
        | found st ↦
            let uid = current_fake_uid p l in
            let gid = current_fake_gid p uid.0 in
            let inode : FakeInode = record (new uid.1 gid.1) {
              mode = some mode;
              rdev = if is_device mode then some dev else none;
            } in
            (set_inode p (key_from_stat st) inode gid.0, pos 0)
      ])

  -- the real call in place of a negative result
  abbrev or_real : Library D × ℤ → ℤ → Library D × ℤ
  or_real (l, pos n) real = (l, pos n)
  or_real (l, negsuc n) real = (l, real)

  unfoldable pub fake_mknodat : ℤ → CStr → ℕ → ℕ → Library D → Library D × ℤ
  unfolding finish_fake_mknod
  fake_mknodat dirfd pathname mode dev l =
      let ready = ensure_library_init p l in
      let real = p.sys.real_mknodat dirfd pathname mode dev in
      elim (resolve_path_at p.sys dirfd pathname) [
        | none ↦ (ready, real)
        | some resolved ↦ or_real (finish_fake_mknod resolved mode dev ready) real
      ]

  unfoldable pub fake_mknod_path : CStr → ℕ → ℕ → Library D → Library D × ℤ
  unfolding finish_fake_mknod
  fake_mknod_path pathname mode dev l =
      let ready = ensure_library_init p l in
      let real = p.sys.real_mknod pathname mode dev in
      elim (resolve_path_at p.sys p.sys.at_fdcwd pathname) [
        | none ↦ (ready, real)
        | some resolved ↦ or_real (finish_fake_mknod resolved mode dev ready) real
      ]

  -- the buffer is not null
  unfoldable pub modify_stat_buf : Stat → Library D → Library D × Stat
  unfolding patch_inode_fields apply_default_ownership
  modify_stat_buf st l =
      if l.library_initializing
      then (l, st)
      else (let ready = ensure_library_init p l in
          if not ready.library_init_done
          then (ready, record st { st_uid = ready.boot_uid; st_gid = ready.boot_gid })
          else (let r = get_inode p (key_from_stat st) ready in
              elim r.1 [
                | some inode ↦ (r.0, patch_inode_fields st inode)
                | none ↦ (r.0, apply_default_ownership r.0 st)
              ]))

  unfoldable pub modify_statx_buf : Statx → Library D → Library D × Statx
  unfolding patch_statx
  modify_statx_buf stx l =
      if l.library_initializing
      then (l, stx)
      else (let ready = ensure_library_init p l in
          if not ready.library_init_done
          then (ready, with_owner ready.boot_uid ready.boot_gid stx)
          else (let r =
                get_inode p (p.sys.makedev stx.stx_dev_major stx.stx_dev_minor, stx.stx_ino)
                  ready in
              elim r.1 [
                | some inode ↦ (r.0, patch_statx p.sys stx inode)
                | none ↦ (r.0, with_owner r.0.global.current_uid r.0.global.current_gid stx)
              ]))

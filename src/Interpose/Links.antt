-- ===== src/Interpose/Links.antt =====
-- On Linux, what a chown records for a path is what stat reports for it: for a link itself, and for the
-- file that it leads to.
use pseudoroot.Prelude.{ℕ, ◌≡◌, ◌≢◌, true, false, some, unwrap_or}
use pseudoroot.Prelude.Bytes.{Bytes}
use pseudoroot.Inode.{new}
use pseudoroot.State.{DashMap}
use pseudoroot.Shm.Table.{ShmInodeMap, full, probe}
use pseudoroot.Shm.Map
use pseudoroot.Shm.Valid.{IsValid}
use pseudoroot.Interpose.{pos, Stat, path, Platform, Library}
use pseudoroot.Interpose.Inode.{
  key_from_stat, at_fdcwd, at_symlink_nofollow, source_stat, lstat_path, stat_path, stat_at,
}
use pseudoroot.Interpose.Hooks.{chown, lchown, stat, lstat}
use pseudoroot.Interpose.Shared.{IsShared}
use pseudoroot.Interpose.Shared.Changes.{record_chown-shared}
use pseudoroot.Interpose.Calls.{owned, overlay-chown}
use pseudoroot.Interpose.Modes.{on_sys}
use pseudoroot.Interpose.Linux.{Kernel, Next, Std, real_stat, real_lstat, real_fstatat, linux}

-- the platform on Linux
abbrev pub on_linux : Platform → Kernel → Next → Std → Platform
on_linux p k n s = on_sys p (linux k n s)

module _ (p : Platform) (k : Kernel) (n : Next) (s : Std) {D : DashMap} (name : Bytes) (st : Stat)
    {l : Library D} {m : ShmInodeMap} (shared : IsShared l m) (valid : IsValid m)
    (room : probe m (key_from_stat st) ≢ full) (uid gid : ℕ) where
  -- On Linux, for a library in a session whose table is valid and not full for a link, lchown
  -- returns 0, and a later lstat of the path reports the ids that were asked for, or the former
  -- ones where one means unchanged, and the recorded mode and rdev, if the kernel knows the link.
  pub lchown-lstat_linux :
      k.sys_newfstatat at_fdcwd (some name) at_symlink_nofollow ≡ (pos 0, st)
      → ((lchown (on_linux p k n s) (some name) uid gid l).1 ≡ pos 0)
        × (lstat (on_linux p k n s) (some name) (lchown (on_linux p k n s) (some name) uid gid l).0
            ≡ (
              (lchown (on_linux p k n s) (some name) uid gid l).0,
              (
                pos 0,
                owned
                    (unwrap_or
                      (Map.get_inode p.pages m (key_from_stat st))
                      (new m.header.current_uid m.header.current_gid))
                    uid
                    gid
                    st,
              ),
            ))
  unfolding lchown lstat linux real_lstat real_fstatat source_stat lstat_path stat_at
  lchown-lstat_linux stats =
      let r =
        record_chown-shared (on_linux p k n s) shared valid (path (some name) true) st uid gid
          (rw stats) room in
      (
        r.0,
        rw stats (
            overlay-chown (on_linux p k n s) st (Map.get_inode p.pages m) uid gid
              m.header.current_uid m.header.current_gid r.1),
      )

  -- the same for chown and stat, which follow a link
  pub chown-stat_linux :
      k.sys_newfstatat at_fdcwd (some name) 0 ≡ (pos 0, st)
      → ((chown (on_linux p k n s) (some name) uid gid l).1 ≡ pos 0)
        × (stat (on_linux p k n s) (some name) (chown (on_linux p k n s) (some name) uid gid l).0
            ≡ (
              (chown (on_linux p k n s) (some name) uid gid l).0,
              (
                pos 0,
                owned
                    (unwrap_or
                      (Map.get_inode p.pages m (key_from_stat st))
                      (new m.header.current_uid m.header.current_gid))
                    uid
                    gid
                    st,
              ),
            ))
  unfolding chown stat linux real_stat real_fstatat source_stat stat_path stat_at
  chown-stat_linux stats =
      let r =
        record_chown-shared (on_linux p k n s) shared valid (path (some name) false) st uid gid
          (rw stats) room in
      (
        r.0,
        rw stats (
            overlay-chown (on_linux p k n s) st (Map.get_inode p.pages m) uid gid
              m.header.current_uid m.header.current_gid r.1),
      )

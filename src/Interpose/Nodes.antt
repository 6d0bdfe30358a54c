-- ===== src/Interpose/Nodes.antt =====
-- What a program sees of a device that it made: mknod records what a placeholder file stands for.
use pseudoroot.Prelude.{
  ℕ, ◌<◌, ◌≡◌, ◌≢◌, refl, ap, ◌∙◌, true, ◌&&◌, not, none, some, arith, if◌then◌else◌, ◌==◌,
}
use pseudoroot.Prelude.Bytes.{Bytes}
use pseudoroot.Codec.{Codec}
use pseudoroot.Xattrs.{Xattrs}
use pseudoroot.Inode.{FakeInode, new}
use pseudoroot.State.{DashMap}
use pseudoroot.Shm.Table.{ShmInodeMap, full, probe}
use pseudoroot.Shm.Map
use pseudoroot.Shm.Valid.{IsValid}
use pseudoroot.Shm.Refinement.{stored}
use pseudoroot.Interpose.{pos, Stat, CStr, Sys, Platform, Library}
use pseudoroot.Interpose.Inode.{found, key_from_stat, resolve_path_at, stat_path}
use pseudoroot.Interpose.Backend.{set_inode}
use pseudoroot.Interpose.Files.{is_device, finish_fake_mknod, fake_mknod_path}
use pseudoroot.Interpose.Hooks.{mknod, stat}
use pseudoroot.Interpose.Serving.{shown, current_fake_uid-ids, current_fake_gid-ids}
use pseudoroot.Interpose.Shared.{IsShared, here}
use pseudoroot.Interpose.Shared.Changes.{set_inode-Serves}
use pseudoroot.Interpose.Modes.{on_sys, report, overlay-put}

-- the entry of a new node
abbrev node : ℕ → ℕ → ℕ → ℕ → FakeInode
node uid gid mode dev = record (new uid gid) {
  mode = some mode;
  rdev = if is_device mode then some dev else none;
}

-- the report on a node: the rdev is that of a device, where it is not 0
abbrev pub made : ℕ → ℕ → ℕ → ℕ → Stat → Stat
made uid gid mode dev later = record later {
  st_uid = uid;
  st_gid = gid;
  st_mode = mode;
  st_rdev = if is_device mode && not (dev == 0) then dev else later.st_rdev;
}

made-stored :
    (wincode : Codec Xattrs) (uid gid mode dev : ℕ) (later : Stat)
    → 0 < mode
    → shown (some (stored wincode (node uid gid mode dev))) 0 0 later ≡ made uid gid mode dev later
made-stored wincode uid gid mode dev later h = ground arith

module _ (p : Platform) (sys : Sys) {D : DashMap} (name : CStr) (resolved : Bytes) (st later : Stat)
    (resolves : resolve_path_at p.sys p.sys.at_fdcwd name ≡ some resolved)
    (opens : p.sys.open_placeholder resolved ≡ true)
    (stats : stat_path p.sys (some resolved) ≡ found st)
    (stats_later : sys.real_stat name ≡ (pos 0, later))
    (same : key_from_stat later ≡ key_from_stat st) where
  -- For a library in a session whose table is valid and not full for the placeholder that mknod
  -- creates at the path, mknod returns 0, and a later stat of the path, as long as it is that
  -- file, reports the current ids, the mode that was asked for, which is not 0, and, for a
  -- device, the number of the device, unless that is 0.
  pub mknod-stat_shared :
      {l : Library D} {m : ShmInodeMap} (mode dev : ℕ)
      → IsShared l m
      → IsValid m
      → probe m (key_from_stat st) ≢ full
      → 0 < mode
      → ((mknod p name mode dev l).1 ≡ pos 0)
        × (stat (on_sys p sys) name (mknod p name mode dev l).0 ≡ (
          (mknod p name mode dev l).0,
          (pos 0, made m.header.current_uid m.header.current_gid mode dev later),
        ))
  unfolding mknod fake_mknod_path finish_fake_mknod stat
  mknod-stat_shared {l = l} {m = m} mode dev shared valid room typed =
      let key = key_from_stat st in
      let inode = node m.header.current_uid m.header.current_gid mode dev in
      let serves = set_inode-Serves p shared valid key inode room in
      let shows = overlay-put p sys later key _ (Map.get_inode p.pages m) same serves in
      rw
        (
          resolves,
          fake_mknod_path,
          opens,
          finish_fake_mknod,
          stats,
          (here p shared).ready,
          current_fake_uid-ids p (here p shared),
          current_fake_gid-ids p (here p shared),
          stats_later,
        )
        (
          refl,
          shows
              ∙ ap (report (set_inode p key inode l)) (
                  made-stored p.pages m.header.current_uid m.header.current_gid mode dev later
                    typed),
        )

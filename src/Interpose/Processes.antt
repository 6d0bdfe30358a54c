-- ===== src/Interpose/Processes.antt =====
-- Two processes of a session: what one records, the other reports, whether the session has a shared
-- table or a daemon.
use pseudoroot.Prelude.{ℕ, ◌^◌, ◌<◌, ◌≡◌, ◌≢◌, refl, sym, ◌∙◌, true, some, subst, unwrap_or, length}
use pseudoroot.Inode.{InodeKey, FakeInode, new, merge_ids, key_eq, key_eq_refl}
use pseudoroot.State
use pseudoroot.State.{DashMap}
use pseudoroot.State.Refinement.{get_inode-upsert_chown}
use pseudoroot.Shm.Table.{ShmInodeMap, full, probe}
use pseudoroot.Shm.Map
use pseudoroot.Shm.Valid.{IsValid}
use pseudoroot.Daemon.{Daemon, lookup_result}
use pseudoroot.Interpose.{ℤ, pos, Stat, fd, Sys, Platform, Library}
use pseudoroot.Interpose.Inode.{key_from_stat}
use pseudoroot.Interpose.Files.{patch_inode_fields}
use pseudoroot.Interpose.Hooks.{fchown, fstat, overlay}
use pseudoroot.Interpose.Serving.{modify_stat_buf-shown}
use pseudoroot.Interpose.Shared.{IsShared}
use pseudoroot.Interpose.Shared.Changes.{record_chown-session}
use pseudoroot.Interpose.Calls.{owned, source_stat-fd}
use pseudoroot.Interpose.Modes.{on_sys, Serves-on_sys}
use pseudoroot.Interpose.Remote.{
  IsCompact, IsRemote, chown_daemon, modify_stat_buf-remote, record_chown-remote,
}

-- the library in another process of the same daemon, which is `d` by now
abbrev pub meets : {D : DashMap} → Daemon D → Library D → Library D
meets d l = record l { client = record l.client { daemon = d } }

IsRemote-meets : {D : DashMap} (l : Library D) → IsRemote l → (d : Daemon D) → IsRemote (meets d l)
IsRemote-meets l remote d = record {
  done = remote.done;
  idle = remote.idle;
  session = remote.session;
  unshared = remote.unshared;
  enabled = remote.enabled;
  connected = remote.connected;
  up = remote.up;
}

key_eq-same : (k j : InodeKey) → j ≡ k → key_eq k j ≡ true
key_eq-same k j same = subst (λ q. key_eq k q ≡ true) (sym same) (key_eq_refl k)

module _ (p : Platform) (sys : Sys) {D : DashMap} (f g : ℤ) (st later : Stat)
    (stats : p.sys.real_fstat f ≡ (pos 0, st)) (stats_later : sys.real_fstat g ≡ (pos 0, later))
    (same : key_from_stat later ≡ key_from_stat st) where
  -- what the daemon holds of the file after the chown
  abbrev pub owner_of : Daemon D → ℕ → ℕ → FakeInode
  owner_of d uid gid = merge_ids uid gid (
      unwrap_or (State.get_inode d.state (key_from_stat st))
        (new d.state.current_uid d.state.current_gid))

  -- For two processes whose libraries are connected to the same daemon, and a file that both have
  -- open, fchown in the first returns 0, and a later fstat in the second reports the ids that
  -- were asked for, or the former ones where one means unchanged, and the recorded mode and rdev,
  -- as long as the messages fit in frames.
  pub fchown-fstat_remote :
      {l m : Library D} (uid gid : ℕ)
      → IsCompact p.wincode
      → IsRemote l
      → IsRemote m
      → length (
          p.wincode.inode_result.to_bytes (lookup_result (some (owner_of l.client.daemon uid gid))))
        < 2 ^ 31
      → ((fchown p f uid gid l).1 ≡ pos 0)
        × ((fstat (on_sys p sys) g (meets (fchown p f uid gid l).0.client.daemon m)).1 ≡ (
          pos 0,
          owned
              (unwrap_or
                (State.get_inode l.client.daemon.state (key_from_stat st))
                (new l.client.daemon.state.current_uid l.client.daemon.state.current_gid))
              uid
              gid
              later,
        ))
  unfolding fchown fstat overlay patch_inode_fields
  fchown-fstat_remote {l = l} {m = m} uid gid compact remote other small =
      let d = l.client.daemon in
      let key = key_from_stat st in
      let after : Daemon D = chown_daemon key uid gid d in
      let entry : State.get_inode after.state (key_from_stat later) ≡ some (owner_of d uid gid) =
        get_inode-upsert_chown d.state key uid gid d.state.current_uid d.state.current_gid
          (key_from_stat later)
        ∙ rw (key_eq-same _ _ same) refl in
      let shows =
        modify_stat_buf-remote (on_sys p sys) compact (IsRemote-meets m other after) later
          (owner_of d uid gid) entry small in
      rw
        (
          record_chown-remote p compact remote (fd f) st uid gid (source_stat-fd p f st stats),
          stats_later,
        )
        (refl, rw shows refl)

  -- For two processes of a session whose table is valid and not full for a file that both have
  -- open, fchown in the first returns 0, and a later fstat in the second reports the ids that
  -- were asked for, or the former ones where one means unchanged, and the recorded mode and rdev.
  pub fchown-fstat_session :
      {l other : Library D} {m : ShmInodeMap} (uid gid : ℕ)
      → IsShared l m
      → IsShared other m
      → IsValid m
      → probe m (key_from_stat st) ≢ full
      → ((fchown p f uid gid l).1 ≡ pos 0)
        × ((fstat (on_sys p sys) g (record other { shm = (fchown p f uid gid l).0.shm })).1 ≡ (
          pos 0,
          owned
              (unwrap_or
                (Map.get_inode p.pages m (key_from_stat st))
                (new m.header.current_uid m.header.current_gid))
              uid
              gid
              later,
        ))
  unfolding fchown fstat overlay
  fchown-fstat_session {m = m} uid gid shared other valid room =
      let (zero, serves) =
        record_chown-session p shared valid other (fd f) st uid gid (source_stat-fd p f st stats)
          room in
      let shows = modify_stat_buf-shown (on_sys p sys) (Serves-on_sys p sys serves) later in
      (zero, rw (stats_later, overlay, shows, key_eq-same _ _ same) refl)

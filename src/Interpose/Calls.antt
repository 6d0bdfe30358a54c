-- ===== src/Interpose/Calls.antt =====
-- What a program sees of its own calls: the owner that it set, and the ids that it took.
use pseudoroot.Prelude.{ℕ, ◌≡◌, ◌≢◌, refl, some, unwrap_or}
use pseudoroot.Inode.{InodeKey, FakeInode, Table, new, keep_or, merge_ids, chown, key_eq_refl}
use pseudoroot.State
use pseudoroot.State.{DashMap}
use pseudoroot.Shm.Table.{ShmInodeMap, full, probe}
use pseudoroot.Shm.Map
use pseudoroot.Shm.Valid.{IsValid}
use pseudoroot.ShmClient.{shm_set_current_uid_gid}
use pseudoroot.Interpose.{ℤ, pos, Stat, fd, Platform, Library}
use pseudoroot.Interpose.Inode.{found, key_from_stat, fstat_fd, source_stat}
use pseudoroot.Interpose.Backend.{set_current_ids}
use pseudoroot.Interpose.Hooks.{fchown, fstat, overlay, setuid, getuid, getgid}
use pseudoroot.Interpose.Serving.{
  Serves, modify_stat_buf-shown, current_fake_uid-ids, current_fake_gid-ids,
}
use pseudoroot.Interpose.Own.{IsOwn, own-Serves, record_chown-own}
use pseudoroot.Interpose.Shared.{IsShared, on_map, shared-Serves}
use pseudoroot.Interpose.Shared.Changes.{record_chown-shared}

-- the report on a file whose entry, or new entry, is `old` before the chown
abbrev pub owned : FakeInode → ℕ → ℕ → Stat → Stat
owned old uid gid st = record st {
  st_uid = keep_or old.uid uid;
  st_gid = keep_or old.gid gid;
  st_mode = unwrap_or old.mode st.st_mode;
  st_rdev = unwrap_or old.rdev st.st_rdev;
}

chown-here :
    (key : InodeKey) (uid gid default_uid default_gid : ℕ) (t : Table)
    → chown key uid gid default_uid default_gid t key
      ≡ some (merge_ids uid gid (unwrap_or (t key) (new default_uid default_gid)))
chown-here key uid gid default_uid default_gid t = rw (key_eq_refl key)

pub source_stat-fd :
    (p : Platform) (f : ℤ) (st : Stat)
    → p.sys.real_fstat f ≡ (pos 0, st)
    → source_stat p.sys (fd f) ≡ found st
unfolding source_stat fstat_fd
source_stat-fd p f st stats = rw stats

-- what the hooks of the stat family report of a file whose chown was recorded
pub overlay-chown :
    (p : Platform) {D : DashMap} {l : Library D} (st : Stat) (t : Table) {u g : ℕ}
    (uid gid default_uid default_gid : ℕ)
    → Serves p l (chown (key_from_stat st) uid gid default_uid default_gid t) u g
    → overlay p (pos 0, st) l ≡ (
      l,
      (pos 0, owned (unwrap_or (t (key_from_stat st)) (new default_uid default_gid)) uid gid st),
    )
unfolding overlay
overlay-chown p st t uid gid default_uid default_gid serves =
    let shows = modify_stat_buf-shown p serves st in
    let entry = chown-here (key_from_stat st) uid gid default_uid default_gid t in
    rw (overlay, shows, entry)

module _ (p : Platform) {D : DashMap} (f : ℤ) (st : Stat)
    (stats : p.sys.real_fstat f ≡ (pos 0, st)) where
  -- For a library outside of a session and without a daemon and an open file that fstat finds,
  -- fchown returns 0, and a later fstat of the file reports the ids that were asked for, or the
  -- former ones where one means unchanged, and the recorded mode and rdev.
  fchown-fstat_own :
      {l : Library D} (uid gid : ℕ)
      → IsOwn l
      → ((fchown p f uid gid l).1 ≡ pos 0)
        × (fstat p f (fchown p f uid gid l).0 ≡ (
          (fchown p f uid gid l).0,
          (
            pos 0,
            owned
                (unwrap_or
                  (State.get_inode l.global (key_from_stat st))
                  (new l.global.current_uid l.global.current_gid))
                uid
                gid
                st,
          ),
        ))
  unfolding fchown fstat
  fchown-fstat_own {l = l} uid gid own =
      let r = record_chown-own p own (fd f) st uid gid (source_stat-fd p f st stats) in
      (
        r.0,
        rw stats (
            overlay-chown p st (State.get_inode l.global) uid gid l.global.current_uid
              l.global.current_gid r.1),
      )

  -- For a library in a session whose table is valid and not full for an open file that fstat
  -- finds, fchown returns 0, and a later fstat of the file reports the ids that were asked for,
  -- or the former ones where one means unchanged, and the recorded mode and rdev.
  pub fchown-fstat_shared :
      {l : Library D} {m : ShmInodeMap} (uid gid : ℕ)
      → IsShared l m
      → IsValid m
      → probe m (key_from_stat st) ≢ full
      → ((fchown p f uid gid l).1 ≡ pos 0)
        × (fstat p f (fchown p f uid gid l).0 ≡ (
          (fchown p f uid gid l).0,
          (
            pos 0,
            owned
                (unwrap_or
                  (Map.get_inode p.pages m (key_from_stat st))
                  (new m.header.current_uid m.header.current_gid))
                uid
                gid
                st,
          ),
        ))
  unfolding fchown fstat
  fchown-fstat_shared {l = l} {m = m} uid gid shared valid room =
      let r =
        record_chown-shared p shared valid (fd f) st uid gid (source_stat-fd p f st stats) room in
      (
        r.0,
        rw stats (
            overlay-chown p st (Map.get_inode p.pages m) uid gid m.header.current_uid
              m.header.current_gid r.1),
      )

module _ (p : Platform) {D : DashMap} {l : Library D} where
  set_current_ids-own :
      (uid gid : ℕ)
      → IsOwn l
      → set_current_ids p uid gid l ≡ (
        record l { boot_uid = uid; boot_gid = gid; global = State.set_current l.global uid gid },
        pos 0,
      )
  unfolding set_current_ids
  set_current_ids-own uid gid own =
      let ready = (own-Serves p own (State.get_inode l.global) (λ q. refl)).ready in
      simp (ready, own.unshared, own.no_daemon)

  -- For a library outside of a session and without a daemon, setuid returns 0, getuid then gives
  -- the new id, and getgid the id that the state held.
  setuid-getuid_own :
      (uid : ℕ)
      → IsOwn l
      → ((setuid p uid l).1 ≡ pos 0)
        × (getuid p (setuid p uid l).0 ≡ ((setuid p uid l).0, uid))
        × (getgid p (setuid p uid l).0 ≡ ((setuid p uid l).0, l.global.current_gid))
  unfolding setuid getuid getgid State.set_current State.get_inode
  setuid-getuid_own uid own =
      let before = own-Serves p own (State.get_inode l.global) (λ q. refl) in
      let after : IsOwn (record l {
        boot_uid = uid;
        boot_gid = l.global.current_gid;
        global = State.set_current l.global uid l.global.current_gid;
      }) =
        record {
          done = own.done;
          idle = own.idle;
          session = own.session;
          unshared = own.unshared;
          no_daemon = own.no_daemon;
        } in
      let serves = own-Serves p after _ (λ q. refl) in
      rw (current_fake_gid-ids p before, set_current_ids-own uid l.global.current_gid own)
        (refl, current_fake_uid-ids p serves, current_fake_gid-ids p serves)

  pub set_current_ids-shared :
      {m : ShmInodeMap} (uid gid : ℕ)
      → IsShared l m
      → set_current_ids p uid gid l ≡ (
        record l {
          boot_uid = uid;
          boot_gid = gid;
          global = State.set_current l.global uid gid;
          shm = on_map (Map.set_current m uid gid);
        },
        pos 0,
      )
  unfolding set_current_ids shm_set_current_uid_gid
  set_current_ids-shared {m = m} uid gid shared =
      let ready = (shared-Serves p shared (Map.get_inode p.pages m) (λ q. refl)).ready in
      simp (ready, shared.shm)

  -- For a library in a session, setuid returns 0, getuid then gives the new id, and getgid the id
  -- that the table held.
  setuid-getuid_shared :
      {m : ShmInodeMap} (uid : ℕ)
      → IsShared l m
      → ((setuid p uid l).1 ≡ pos 0)
        × (getuid p (setuid p uid l).0 ≡ ((setuid p uid l).0, uid))
        × (getgid p (setuid p uid l).0 ≡ ((setuid p uid l).0, m.header.current_gid))
  unfolding setuid getuid getgid Map.set_current
  setuid-getuid_shared {m = m} uid shared =
      let before = shared-Serves p shared (Map.get_inode p.pages m) (λ q. refl) in
      let gid = m.header.current_gid in
      let after : IsShared
          (record l {
            boot_uid = uid;
            boot_gid = gid;
            global = State.set_current l.global uid gid;
            shm = on_map (Map.set_current m uid gid);
          })
          (Map.set_current m uid gid) =
        record { done = shared.done; idle = shared.idle; session = shared.session; shm = refl } in
      let serves = shared-Serves p after _ (λ q. refl) in
      rw (current_fake_gid-ids p before, set_current_ids-shared uid gid shared)
        (refl, current_fake_uid-ids p serves, current_fake_gid-ids p serves)

-- ===== src/Interpose/Identity.antt =====
-- What the ids that one process of a session takes are for another: getuid gives them, and the
-- report on a file without an entry does not.
use pseudoroot.Prelude.{ℕ, ◌≡◌, refl, none}
use pseudoroot.Inode.{InodeKey}
use pseudoroot.State.{DashMap}
use pseudoroot.Xattrs.{Xattrs}
use pseudoroot.Codec.{Codec}
use pseudoroot.Shm.Table.{ShmInodeMap, probe}
use pseudoroot.Shm.Map
use pseudoroot.Interpose.{pos, Stat, Platform, Library}
use pseudoroot.Interpose.Inode.{key_from_stat}
use pseudoroot.Interpose.Files.{modify_stat_buf}
use pseudoroot.Interpose.Hooks.{setuid, getuid, getgid}
use pseudoroot.Interpose.Serving.{modify_stat_buf-shown, current_fake_uid-ids, current_fake_gid-ids}
use pseudoroot.Interpose.Shared.{IsShared, shared-Serves, on_map}
use pseudoroot.Interpose.Calls.{set_current_ids-shared}

get_inode-set_current :
    (w : Codec Xattrs) (m : ShmInodeMap) (uid gid : ℕ) (key : InodeKey)
    → Map.get_inode w (Map.set_current m uid gid) key ≡ Map.get_inode w m key
unfolding Map.get_inode Map.set_current probe
get_inode-set_current w m uid gid key = refl

module _ (p : Platform) {D : DashMap} {l other : Library D} {m : ShmInodeMap} (uid : ℕ)
    (shared : IsShared l m) (joined : IsShared other m) (st : Stat)
    (unrecorded : Map.get_inode p.pages m (key_from_stat st) ≡ none) where
  -- the library of the second process behind the call in the first
  abbrev pub sees : Library D
  sees = record other { shm = (setuid p uid l).0.shm }

  -- For two processes of a session, setuid in the first returns 0, and in the second getuid then
  -- gives the new id and getgid the id that the table held, while the report on a file without an
  -- entry has the ids of the state of the second process itself, whatever was set.
  pub setuid-getuid_session :
      ((setuid p uid l).1 ≡ pos 0)
      × (getuid p sees ≡ (sees, uid))
      × (getgid p sees ≡ (sees, m.header.current_gid))
      × (modify_stat_buf p st sees ≡ (
        sees,
        record st { st_uid = other.global.current_uid; st_gid = other.global.current_gid },
      ))
  unfolding setuid getuid getgid Map.set_current
  setuid-getuid_session =
      let before = shared-Serves p shared (Map.get_inode p.pages m) (λ q. refl) in
      let gid = m.header.current_gid in
      let after : IsShared (record other { shm = on_map (Map.set_current m uid gid) })
          (Map.set_current m uid gid) =
        record { done = joined.done; idle = joined.idle; session = joined.session; shm = refl } in
      let serves =
        shared-Serves p after (Map.get_inode p.pages m)
          (λ q. get_inode-set_current p.pages m uid gid q) in
      let shows = modify_stat_buf-shown p serves st in
      rw (current_fake_gid-ids p before, set_current_ids-shared p uid gid shared)
        (refl, current_fake_uid-ids p serves, current_fake_gid-ids p serves, rw unrecorded at shows)

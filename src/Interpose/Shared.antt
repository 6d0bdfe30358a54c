-- ===== src/Interpose/Shared.antt =====
-- A library in a session, whose table is the shared one.
pub mod Changes
use pseudoroot.Prelude.{
  ℕ, ◌≡◌, ◌≢◌, refl, true, false, some, unwrap_or, leb, if◌then◌else◌, Bool-cases, inl, inr, subst,
  arith,
}
use pseudoroot.Inode.{InodeKey, FakeInode, Table, new, put, delete, chown}
use pseudoroot.State.{DashMap}
use pseudoroot.Xattrs.{Xattrs}
use pseudoroot.Codec.{Codec}
use pseudoroot.Shm.Table.{Header, ShmInodeMap, full, probe}
use pseudoroot.Shm.Map
use pseudoroot.Shm.Valid.{IsValid}
use pseudoroot.Shm.Refinement.{
  stored, upsert_inode-Models, upsert_chown-Models, remove_inode-Models,
}
use pseudoroot.ShmClient.{
  ShmClient, shm_get_current_uid_gid, shm_get_inode, shm_upsert_chown, shm_upsert_inode,
  shm_remove_inode,
}
use pseudoroot.Interpose.{pos, Stat, StatSource, CStr, Platform, Library}
use pseudoroot.Interpose.Inode.{found, key_from_stat, source_stat, stat_path}
use pseudoroot.Interpose.Backend.{
  ensure_session_backing_init, ensure_library_init, current_fake_ids, get_inode, set_inode,
  remove_inode, record_chown_key,
}
use pseudoroot.Interpose.Files.{
  compose_mode, record_chown, record_chmod_for_key, maybe_remove_inode, maybe_remove_inode_path,
}
use pseudoroot.Interpose.Serving.{
  Serves, current_fake_uid-ids, current_fake_gid-ids, update_inode-set_inode,
}

-- a client of the mapping `m`
abbrev pub on_map : ShmInodeMap → ShmClient
on_map m = record { active = true; mapped = some m }

-- the library is set up and its mapping is `m`
pub record IsShared {D : DashMap} (l : Library D) (m : ShmInodeMap) : Type 0 where
  pub done : l.library_init_done ≡ true
  pub idle : l.library_initializing ≡ false
  pub session : l.session_init ≡ true
  pub shm : l.shm ≡ on_map m

module _ (p : Platform) {D : DashMap} {l : Library D} {m : ShmInodeMap}
    (shared : IsShared l m) where
  pub shared-Serves :
      (t : Table)
      → ((q : InodeKey) → Map.get_inode p.pages m q ≡ t q)
      → Serves p l t m.header.current_uid m.header.current_gid
  unfolding ensure_library_init ensure_session_backing_init current_fake_ids get_inode
      shm_get_current_uid_gid shm_get_inode Map.current_uid Map.current_gid
  shared-Serves t same = record {
    done = shared.done;
    idle = shared.idle;
    ready = simp (shared.done, shared.session);
    ids = simp (shared.done, shared.session, shared.shm);
    lookup = λ q. simp (shared.shm, same q);
  }

  pub here : Serves p l (Map.get_inode p.pages m) m.header.current_uid m.header.current_gid
  here = shared-Serves (Map.get_inode p.pages m) (λ q. refl)

  pub IsShared-mapped : (m' : ShmInodeMap) → IsShared (record l { shm = on_map m' }) m'
  IsShared-mapped m' = record {
    done = shared.done;
    idle = shared.idle;
    session = shared.session;
    shm = refl;
  }

  pub set_inode-shared :
      (key : InodeKey) (inode : FakeInode)
      → set_inode p key inode l ≡ record l { shm = on_map (Map.upsert_inode p.pages m key inode) }
  unfolding set_inode shm_upsert_inode
  set_inode-shared key inode = simp (shared.shm)

  pub record_chown_key-shared :
      (key : InodeKey) (uid gid : ℕ)
      → record_chown_key p key uid gid l ≡ record l {
        shm =
            on_map
              (Map.upsert_chown p.pages m key uid gid m.header.current_uid m.header.current_gid);
      }
  unfolding record_chown_key shm_upsert_chown
  record_chown_key-shared key uid gid =
      simp (current_fake_uid-ids p here, current_fake_gid-ids p here, shared.shm)

  pub remove_inode-shared :
      (key : InodeKey)
      → remove_inode p key l ≡ record l { shm = on_map (Map.remove_inode p.pages m key).0 }
  unfolding remove_inode shm_remove_inode
  remove_inode-shared key = simp (shared.shm)

module _ (wincode : Codec Xattrs) (m : ShmInodeMap) (key : InodeKey) where
  pub header-upsert_chown :
      (uid gid default_uid default_gid : ℕ)
      → (Map.upsert_chown wincode m key uid gid default_uid default_gid).header ≡ m.header
  unfolding Map.upsert_chown Map.write_xattrs
  header-upsert_chown uid gid default_uid default_gid = ground arith

  pub header-upsert_inode :
      (inode : FakeInode) → (Map.upsert_inode wincode m key inode).header ≡ m.header
  unfolding Map.upsert_inode Map.write_xattrs
  header-upsert_inode inode = ground arith

  pub header-remove_inode : (Map.remove_inode wincode m key).0.header ≡ m.header
  unfolding Map.remove_inode Map.write_xattrs
  header-remove_inode = ground arith

module _ (p : Platform) {D : DashMap} {l : Library D} {m : ShmInodeMap}
    (shared : IsShared l m) where
  -- a write that leaves the header
  pub rewritten-Serves :
      (m' : ShmInodeMap)
      → m'.header ≡ m.header
      → (t : Table) → ((q : InodeKey) → Map.get_inode p.pages m' q ≡ t q)
      → Serves p (record l { shm = on_map m' }) t m.header.current_uid m.header.current_gid
  rewritten-Serves m' e t same =
      subst (λ (h : Header). Serves p (record l { shm = on_map m' }) t h.current_uid h.current_gid)
        e (shared-Serves p (IsShared-mapped p shared m') t same)

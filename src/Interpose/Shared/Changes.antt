-- ===== src/Interpose/Shared/Changes.antt =====
-- What the changes of a library in a session leave in the shared table.
use pseudoroot.Prelude.{
  ℕ, ◌≡◌, ◌≢◌, refl, some, unwrap_or, leb, if◌then◌else◌, Bool-cases, inl, inr,
}
use pseudoroot.Inode.{InodeKey, FakeInode, new, put, delete, chown}
use pseudoroot.State.{DashMap}
use pseudoroot.Shm.Table.{ShmInodeMap, full, probe}
use pseudoroot.Shm.Map
use pseudoroot.Shm.Valid.{IsValid}
use pseudoroot.Shm.Refinement.{
  stored, upsert_inode-Models, upsert_chown-Models, remove_inode-Models,
}
use pseudoroot.Interpose.{pos, Stat, StatSource, CStr, Platform, Library}
use pseudoroot.Interpose.Inode.{found, key_from_stat, source_stat, stat_path}
use pseudoroot.Interpose.Backend.{set_inode, remove_inode}
use pseudoroot.Interpose.Files.{
  compose_mode, record_chown, record_chmod_for_key, maybe_remove_inode, maybe_remove_inode_path,
}
use pseudoroot.Interpose.Serving.{Serves, update_inode-set_inode}
use pseudoroot.Interpose.Shared.{
  IsShared, on_map, here, set_inode-shared, record_chown_key-shared, remove_inode-shared,
  header-upsert_chown, header-upsert_inode, header-remove_inode, rewritten-Serves,
}

module _ (p : Platform) {D : DashMap} {l : Library D} {m : ShmInodeMap} (shared : IsShared l m)
    (valid : IsValid m) where
  -- the table after a chown by the current ids
  abbrev chowned : InodeKey → ℕ → ℕ → ShmInodeMap
  chowned key uid gid =
      Map.upsert_chown p.pages m key uid gid m.header.current_uid m.header.current_gid

  record_chown-on_map :
      (source : StatSource) (st : Stat) (uid gid : ℕ)
      → source_stat p.sys source ≡ found st
      → record_chown p source uid gid l
        ≡ (record l { shm = on_map (chowned (key_from_stat st) uid gid) }, pos 0)
  unfolding record_chown
  record_chown-on_map source st uid gid stats = rw (
    stats,
    record_chown,
    (here p shared).ready,
    record_chown_key-shared p shared (key_from_stat st) uid gid,
  )

  chown-Serves :
      (key : InodeKey) (uid gid : ℕ)
      → probe m key ≢ full
      → {other : Library D} → IsShared other m
      → Serves p
          (record other { shm = on_map (chowned key uid gid) })
          (chown key uid gid m.header.current_uid m.header.current_gid (Map.get_inode p.pages m))
          m.header.current_uid
          m.header.current_gid
  chown-Serves key uid gid room others =
      rewritten-Serves p others (chowned key uid gid)
        (header-upsert_chown p.pages m key uid gid _ _) _
        (upsert_chown-Models p.pages valid key uid gid m.header.current_uid m.header.current_gid
          room).1

  -- For a library in a session whose table is valid and not full for the file, record_chown on a
  -- source that stat finds returns 0, and the library then serves the table with the chown of
  -- that file merged in, and the same current ids.
  pub record_chown-shared :
      (source : StatSource) (st : Stat) (uid gid : ℕ)
      → source_stat p.sys source ≡ found st
      → probe m (key_from_stat st) ≢ full
      → ((record_chown p source uid gid l).1 ≡ pos 0)
        × Serves p
            (record_chown p source uid gid l).0
            (chown
              (key_from_stat st)
              uid
              gid
              m.header.current_uid
              m.header.current_gid
              (Map.get_inode p.pages m))
            m.header.current_uid
            m.header.current_gid
  record_chown-shared source st uid gid stats room =
      rw (record_chown-on_map source st uid gid stats)
        (refl, chown-Serves (key_from_stat st) uid gid room shared)

  -- what another process of the session serves after a chown
  pub record_chown-session :
      {other : Library D}
      → IsShared other m
      → (source : StatSource) (st : Stat) (uid gid : ℕ) → source_stat p.sys source ≡ found st
      → probe m (key_from_stat st) ≢ full
      → ((record_chown p source uid gid l).1 ≡ pos 0)
        × Serves p
            (record other { shm = (record_chown p source uid gid l).0.shm })
            (chown
              (key_from_stat st)
              uid
              gid
              m.header.current_uid
              m.header.current_gid
              (Map.get_inode p.pages m))
            m.header.current_uid
            m.header.current_gid
  record_chown-session others source st uid gid stats room =
      rw (record_chown-on_map source st uid gid stats)
        (refl, chown-Serves (key_from_stat st) uid gid room others)

  pub set_inode-Serves :
      (key : InodeKey) (inode : FakeInode)
      → probe m key ≢ full
      → Serves p
          (set_inode p key inode l)
          (put key (stored p.pages inode) (Map.get_inode p.pages m))
          m.header.current_uid
          m.header.current_gid
  set_inode-Serves key inode room = rw (set_inode-shared p shared key inode) (
      rewritten-Serves p shared _ (header-upsert_inode p.pages m key inode) _
        (upsert_inode-Models p.pages valid key inode room).1)

  -- For a library in a session whose table is valid and not full for the key,
  -- record_chmod_for_key leaves a library that serves the table with the composed mode in the
  -- entry of the key, as far as the shared table can hold that entry, and every other entry as it
  -- was.
  pub record_chmod_for_key-shared :
      (key : InodeKey) (real_mode req_mode : ℕ)
      → probe m key ≢ full
      → Serves p
          (record_chmod_for_key p key real_mode req_mode l)
          (put key
            (stored p.pages
              (record (unwrap_or
                (Map.get_inode p.pages m key)
                (new m.header.current_uid m.header.current_gid)) {
                  mode = some (compose_mode real_mode req_mode);
                }))
            (Map.get_inode p.pages m))
          m.header.current_uid
          m.header.current_gid
  unfolding record_chmod_for_key
  record_chmod_for_key-shared key real_mode req_mode room =
      let inode : FakeInode =
        record (unwrap_or (Map.get_inode p.pages m key)
          (new m.header.current_uid m.header.current_gid)) {
            mode = some (compose_mode real_mode req_mode);
          } in
      rw
        (update_inode-set_inode p (here p shared) key
          (λ old. record old { mode = some (compose_mode real_mode req_mode) }))
        (set_inode-Serves key inode room)

  pub remove_inode-Serves :
      (key : InodeKey)
      → Serves p
          (remove_inode p key l)
          (delete key (Map.get_inode p.pages m))
          m.header.current_uid
          m.header.current_gid
  remove_inode-Serves key = rw (remove_inode-shared p shared key) (
      rewritten-Serves p shared _ (header-remove_inode p.pages m key) _
        (remove_inode-Models p.pages valid key).0.1)

  -- For a library in a session whose table is valid, maybe_remove_inode_path on a path that stat
  -- finds drops the entry of the file if its link count is at most 1, and changes no entry
  -- otherwise.
  pub maybe_remove_inode_path-shared :
      (name : CStr) (st : Stat)
      → stat_path p.sys name ≡ found st
      → Serves p
          (maybe_remove_inode_path p name l)
          (if leb st.st_nlink 1
            then delete (key_from_stat st) (Map.get_inode p.pages m)
            else Map.get_inode p.pages m)
          m.header.current_uid
          m.header.current_gid
  unfolding maybe_remove_inode_path maybe_remove_inode
  maybe_remove_inode_path-shared name st stats = elim (Bool-cases (leb st.st_nlink 1)) [
    | inl e ↦
        rw (stats, maybe_remove_inode_path, (here p shared).ready, e)
          (remove_inode-Serves (key_from_stat st))
    | inr e ↦ rw (stats, maybe_remove_inode_path, (here p shared).ready, e) (here p shared)
  ]

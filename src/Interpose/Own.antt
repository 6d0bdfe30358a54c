-- ===== src/Interpose/Own.antt =====
-- A library outside of a session, whose table is its own.
use pseudoroot.Prelude.{
  ℕ, ◌≡◌, refl, true, false, some, unwrap_or, leb, if◌then◌else◌, Bool-cases, inl, inr,
}
use pseudoroot.Inode.{InodeKey, FakeInode, Table, new, put, delete, chown}
use pseudoroot.State
use pseudoroot.State.{DashMap, FakeRootState}
use pseudoroot.State.Refinement.{
  get_inode-set_inode, get_inode-remove_inode, get_inode-upsert_chown,
}
use pseudoroot.ShmClient.{shm_get_current_uid_gid}
use pseudoroot.Interpose.{pos, Stat, StatSource, CStr, Platform, Library}
use pseudoroot.Interpose.Inode.{found, key_from_stat, source_stat, stat_path}
use pseudoroot.Interpose.Backend.{
  ensure_session_backing_init, ensure_library_init, current_fake_ids, daemon_or_global_ids,
  get_inode, set_inode, remove_inode, record_chown_key, chown_global,
}
use pseudoroot.Interpose.Files.{
  compose_mode, record_chown, record_chmod_for_key, maybe_remove_inode, maybe_remove_inode_path,
}
use pseudoroot.Interpose.Serving.{
  Serves, current_fake_uid-ids, current_fake_gid-ids, update_inode-set_inode,
}

pub record IsOwn {D : DashMap} (l : Library D) : Type 0 where
  pub done : l.library_init_done ≡ true
  pub idle : l.library_initializing ≡ false
  pub session : l.session_init ≡ true
  pub unshared : l.shm.active ≡ false
  pub no_daemon : l.client.enabled ≡ false

module _ (p : Platform) {D : DashMap} {l : Library D} (own : IsOwn l) where
  pub own-Serves :
      (t : Table)
      → ((q : InodeKey) → State.get_inode l.global q ≡ t q)
      → Serves p l t l.global.current_uid l.global.current_gid
  unfolding ensure_library_init ensure_session_backing_init current_fake_ids daemon_or_global_ids
      get_inode shm_get_current_uid_gid
  own-Serves t same = record {
    done = own.done;
    idle = own.idle;
    ready = simp (own.done, own.session);
    ids = simp (own.done, own.session, own.unshared, own.no_daemon);
    lookup = λ q. simp (own.unshared, own.no_daemon, same q);
  }

module _ {D : DashMap} where
  pub IsOwn-global :
      {l : Library D} → IsOwn l → (g : FakeRootState D) → IsOwn (record l { global = g })
  IsOwn-global own g = record {
    done = own.done;
    idle = own.idle;
    session = own.session;
    unshared = own.unshared;
    no_daemon = own.no_daemon;
  }

module _ (p : Platform) {D : DashMap} {l : Library D} (own : IsOwn l) where
  here : Serves p l (State.get_inode l.global) l.global.current_uid l.global.current_gid
  here = own-Serves p own (State.get_inode l.global) (λ q. refl)

  pub set_inode-own :
      (key : InodeKey) (inode : FakeInode)
      → set_inode p key inode l ≡ record l { global = State.set_inode l.global key inode }
  unfolding set_inode
  set_inode-own key inode = simp (own.unshared, own.no_daemon)

  record_chown_key-own :
      (key : InodeKey) (uid gid : ℕ)
      → record_chown_key p key uid gid l ≡ record l {
        global = State.upsert_chown l.global key uid gid l.global.current_uid l.global.current_gid;
      }
  unfolding record_chown_key chown_global
  record_chown_key-own key uid gid =
      simp (current_fake_uid-ids p here, current_fake_gid-ids p here, own.unshared, own.no_daemon)

  -- For a library outside of a session and without a daemon, record_chown on a source that stat
  -- finds returns 0, and the library then serves the table with the chown of that file merged in,
  -- and the same current ids.
  pub record_chown-own :
      (source : StatSource) (st : Stat) (uid gid : ℕ)
      → source_stat p.sys source ≡ found st
      → ((record_chown p source uid gid l).1 ≡ pos 0)
        × Serves p
            (record_chown p source uid gid l).0
            (chown
              (key_from_stat st)
              uid
              gid
              l.global.current_uid
              l.global.current_gid
              (State.get_inode l.global))
            l.global.current_uid
            l.global.current_gid
  unfolding record_chown State.upsert_chown
  record_chown-own source st uid gid stats =
      let g =
        State.upsert_chown l.global (key_from_stat st) uid gid l.global.current_uid
          l.global.current_gid in
      rw (stats, record_chown, here.ready, record_chown_key-own (key_from_stat st) uid gid)
        (
          refl,
          own-Serves p (IsOwn-global own g) _ (
              get_inode-upsert_chown l.global (key_from_stat st) uid gid l.global.current_uid
                l.global.current_gid),
        )

  -- For a library outside of a session and without a daemon, record_chmod_for_key leaves a
  -- library that serves the table with the composed mode in the entry of the key, a new entry of
  -- the current ids if there was none, and every other entry as it was.
  pub record_chmod_for_key-own :
      (key : InodeKey) (real_mode req_mode : ℕ)
      → Serves p
          (record_chmod_for_key p key real_mode req_mode l)
          (put key
            (record (unwrap_or
              (State.get_inode l.global key)
              (new l.global.current_uid l.global.current_gid)) {
                mode = some (compose_mode real_mode req_mode);
              })
            (State.get_inode l.global))
          l.global.current_uid
          l.global.current_gid
  unfolding record_chmod_for_key State.set_inode
  record_chmod_for_key-own key real_mode req_mode =
      let inode : FakeInode =
        record (unwrap_or (State.get_inode l.global key)
          (new l.global.current_uid l.global.current_gid)) {
            mode = some (compose_mode real_mode req_mode);
          } in
      rw
        (
          update_inode-set_inode p here key
              (λ old. record old { mode = some (compose_mode real_mode req_mode) }),
          set_inode-own key inode,
        )
        (own-Serves p (IsOwn-global own (State.set_inode l.global key inode)) _
          (get_inode-set_inode l.global key inode))

  remove_inode-own :
      (key : InodeKey)
      → remove_inode p key l ≡ record l { global = (State.remove_inode l.global key).0 }
  unfolding remove_inode
  remove_inode-own key = simp (own.unshared, own.no_daemon)

  -- For a library outside of a session and without a daemon, maybe_remove_inode_path on a path
  -- that stat finds drops the entry of the file if its link count is at most 1, and changes no
  -- entry otherwise.
  maybe_remove_inode_path-own :
      (name : CStr) (st : Stat)
      → stat_path p.sys name ≡ found st
      → Serves p
          (maybe_remove_inode_path p name l)
          (if leb st.st_nlink 1
            then delete (key_from_stat st) (State.get_inode l.global)
            else State.get_inode l.global)
          l.global.current_uid
          l.global.current_gid
  unfolding maybe_remove_inode_path maybe_remove_inode State.remove_inode
  maybe_remove_inode_path-own name st stats = elim (Bool-cases (leb st.st_nlink 1)) [
    | inl e ↦
        let g = (State.remove_inode l.global (key_from_stat st)).0 in
        rw (stats, maybe_remove_inode_path, here.ready, e, remove_inode-own (key_from_stat st))
          (own-Serves p (IsOwn-global own g) _
            (λ q. (get_inode-remove_inode l.global (key_from_stat st) q).0))
    | inr e ↦ rw (stats, maybe_remove_inode_path, here.ready, e) here
  ]

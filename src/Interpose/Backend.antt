-- ===== src/Interpose/Backend.antt =====
-- pseudoroot/interpose/src/ownership.rs: initialization, and the methods that choose between the
-- shared table, the daemon and the process's own table.
use pseudoroot.Prelude.{
  ℕ, true, false, ◌||◌, not, Option, none, some, if◌then◌else◌, unwrap_or, ◌==◌,
}
use pseudoroot.Inode.{InodeKey, FakeInode, new, id_unchanged}
use pseudoroot.State
use pseudoroot.State.{DashMap, FakeRootState}
use pseudoroot.Client.{
  daemon_mode_enabled, daemon_mode_active, init_daemon_connection, daemon_init,
  daemon_get_current_uid_gid, daemon_set_current_uid_gid, daemon_get_inode, daemon_set_inode,
  daemon_remove_inode, daemon_upsert_chown,
}
use pseudoroot.ShmClient.{
  shm_mode_active, init_shm_from_env, shm_get_current_uid_gid, shm_set_current_uid_gid,
  shm_get_inode, shm_upsert_chown, shm_upsert_inode, shm_remove_inode,
}
use pseudoroot.Interpose.{ℤ, pos, Platform, Library}

module _ {D : DashMap} where
  unfoldable pub store_bootstrap_ids : ℕ → ℕ → Library D → Library D
  store_bootstrap_ids uid gid l = record l { boot_uid = uid; boot_gid = gid; ctor_done = true }

  unfoldable pub finish_library_init : Library D → Library D
  finish_library_init l = record l {
    global = State.set_current l.global l.boot_uid l.boot_gid;
    library_init_done = true;
  }

module _ (p : Platform) {D : DashMap} where
  unfoldable pub ensure_session_backing_init : Library D → Library D
  ensure_session_backing_init l =
      if l.session_init
      then l
      else (let mapped : Library D = record l {
        session_init = true;
        shm = (init_shm_from_env l.shm_env l.shm).0;
      } in
          if shm_mode_active mapped.shm || not (daemon_mode_enabled mapped.client)
          then mapped
          else record mapped {
            client =
                (daemon_init p.wincode l.boot_uid l.boot_gid
                  (init_daemon_connection mapped.client).0).0;
          })

  -- the closure of `LIBRARY_INIT`, once
  abbrev call_once : Library D → Library D
  call_once l =
      if l.library_init
      then l
      else record (finish_library_init (record l { library_initializing = true })) {
        library_initializing = false;
        library_init = true;
      }

  unfoldable pub ensure_library_init : Library D → Library D
  unfolding ensure_session_backing_init
  ensure_library_init l =
      if l.library_init_done
      then ensure_session_backing_init l
      else if not l.ctor_done
      then l
      else if l.library_initializing
      then l
      else ensure_session_backing_init (call_once l)

  -- the ids that the daemon or else the process's own state holds
  unfoldable pub daemon_or_global_ids : Library D → Library D × (ℕ × ℕ)
  daemon_or_global_ids l =
      let own : ℕ × ℕ = (l.global.current_uid, l.global.current_gid) in
      if daemon_mode_active l.client
      then (let r = daemon_get_current_uid_gid p.wincode l.client in
          (record l { client = r.0 }, unwrap_or r.1 own))
      else (l, own)

  -- `current_fake_uid` and `current_fake_gid` make the same choices
  unfoldable pub current_fake_ids : Library D → Library D × (ℕ × ℕ)
  unfolding daemon_or_global_ids
  current_fake_ids l =
      if not l.library_init_done
      then (l, (l.boot_uid, l.boot_gid))
      else (let ready = ensure_session_backing_init l in
          elim (shm_get_current_uid_gid ready.shm) [
            | some ids ↦ (ready, ids)
            | none ↦ daemon_or_global_ids ready
          ])

  unfoldable pub current_fake_uid : Library D → Library D × ℕ
  current_fake_uid l = let r = current_fake_ids l in (r.0, r.1.0)

  unfoldable pub current_fake_gid : Library D → Library D × ℕ
  current_fake_gid l = let r = current_fake_ids l in (r.0, r.1.1)

  unfoldable pub set_current_ids : ℕ → ℕ → Library D → Library D × ℤ
  set_current_ids uid gid l =
      let ready = ensure_library_init l in
      let own : Library D = record ready {
        boot_uid = uid;
        boot_gid = gid;
        global = State.set_current ready.global uid gid;
      } in
      if shm_mode_active own.shm
      then (record own { shm = shm_set_current_uid_gid uid gid own.shm }, pos 0)
      else if daemon_mode_enabled own.client
      then (
        record own { client = (daemon_set_current_uid_gid p.wincode uid gid own.client).0 },
        pos 0,
      )
      else (own, pos 0)

  unfoldable pub get_inode : InodeKey → Library D → Library D × Option FakeInode
  get_inode key l =
      if shm_mode_active l.shm
      then (l, shm_get_inode p.pages key l.shm)
      else if daemon_mode_active l.client
      then (let r = daemon_get_inode p.wincode key l.client in
          let asked : Library D = record l { client = r.0 } in
          elim r.1 [
            | some inode ↦ (asked, some inode)
            | none ↦ (asked, State.get_inode l.global key)
          ])
      else (l, State.get_inode l.global key)

  unfoldable pub set_inode : InodeKey → FakeInode → Library D → Library D
  set_inode key inode l =
      if shm_mode_active l.shm
      then record l { shm = shm_upsert_inode p.pages key inode l.shm }
      else (let own : Library D = record l { global = State.set_inode l.global key inode } in
          if daemon_mode_enabled own.client
          then record own { client = (daemon_set_inode p.wincode key inode own.client).0 }
          else own)

  unfoldable pub update_inode : InodeKey → (FakeInode → FakeInode) → Library D → Library D
  update_inode key f l =
      let r = get_inode key l in
      elim r.1 [
        | some inode ↦ set_inode key (f inode) r.0
        | none ↦
            let uid = current_fake_uid r.0 in
            let gid = current_fake_gid uid.0 in set_inode key (f (new uid.1 gid.1)) gid.0
      ]

  unfoldable pub remove_inode : InodeKey → Library D → Library D
  remove_inode key l =
      if shm_mode_active l.shm
      then record l { shm = (shm_remove_inode p.pages key l.shm).0 }
      else (let own : Library D = record l { global = (State.remove_inode l.global key).0 } in
          if daemon_mode_enabled own.client
          then record own { client = (daemon_remove_inode p.wincode key own.client).0 }
          else own)

  -- the part of `record_chown_key` behind the two early returns
  unfoldable pub chown_global : InodeKey → ℕ → ℕ → ℕ → ℕ → Library D → Library D
  chown_global key uid gid fake_uid fake_gid l =
      let own : Library D = record l {
        global = State.upsert_chown l.global key uid gid fake_uid fake_gid;
      } in
      if daemon_mode_enabled own.client
      then (elim (State.get_inode own.global key) [
        | some inode ↦ record own { client = (daemon_set_inode p.wincode key inode own.client).0 }
        | none ↦ own
      ])
      else own

  unfoldable pub record_chown_key : InodeKey → ℕ → ℕ → Library D → Library D
  unfolding chown_global
  record_chown_key key uid gid l =
      let u = current_fake_uid l in
      let g = current_fake_gid u.0 in
      let ready : Library D = g.0 in
      if shm_mode_active ready.shm
      then record ready { shm = shm_upsert_chown p.pages key uid gid u.1 g.1 ready.shm }
      else if daemon_mode_active ready.client
      then record ready {
        client = (daemon_upsert_chown p.wincode key uid gid u.1 g.1 ready.client).0;
      }
      else chown_global key uid gid u.1 g.1 ready

  unfoldable pub read_fs_uid : Library D → Library D × ℕ
  read_fs_uid l = if l.fs_uid == id_unchanged then current_fake_uid l else (l, l.fs_uid)

  unfoldable pub read_fs_gid : Library D → Library D × ℕ
  read_fs_gid l = if l.fs_gid == id_unchanged then current_fake_gid l else (l, l.fs_gid)

  unfoldable pub set_fsuid : ℕ → Library D → Library D × ℕ
  set_fsuid uid l = let r = read_fs_uid l in (record r.0 { fs_uid = uid }, r.1)

  unfoldable pub setfsgid : ℕ → Library D → Library D × ℕ
  setfsgid gid l = let r = read_fs_gid l in (record r.0 { fs_gid = gid }, r.1)

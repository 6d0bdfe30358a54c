-- ===== src/Interpose/Remote.antt =====
-- A library that is connected to a daemon: every choice of the backend is a request to it.
use pseudoroot.Prelude.{
  ℕ, ◌+◌, ◌%◌, ◌^◌, ◌<◌, ◌≡◌, refl, ap, ◌∙◌, Option, true, false, some, [], length, arith,
}
use pseudoroot.Prelude.Bytes.{Bytes}
use pseudoroot.Inode.{InodeKey, FakeInode}
use pseudoroot.State
use pseudoroot.State.{DashMap}
use pseudoroot.Protocol
use pseudoroot.Protocol.{
  MessageType, response, ProtocolMessage, get_current_uid_gid, get_ownership, UidGidPayload,
  InodeKeyPayload, ChownPayload, Wincode,
}
use pseudoroot.Daemon.{Daemon, dispatch, dispatch_message, lookup_result}
use pseudoroot.Daemon.Serving.{Fits}
use pseudoroot.Client.{
  Client, daemon_request, daemon_get_current_uid_gid, daemon_get_inode, daemon_upsert_chown,
}
use pseudoroot.Client.Remote.{IsLive, daemon_request-live, found_inode-lookup}
use pseudoroot.ShmClient.{shm_get_current_uid_gid}
use pseudoroot.Interpose.{pos, Stat, StatSource, Platform, Library}
use pseudoroot.Interpose.Inode.{found, key_from_stat, source_stat}
use pseudoroot.Interpose.Backend.{
  ensure_session_backing_init, ensure_library_init, daemon_or_global_ids, current_fake_ids,
  current_fake_uid, current_fake_gid, get_inode, record_chown_key,
}
use pseudoroot.Interpose.Files.{record_chown, patch_inode_fields, modify_stat_buf}

-- The serializer writes ids, keys and the fields of a chown in less than 2 GiB, and a message with
-- a payload of less than 2 GiB fits in a frame.
pub record IsCompact (w : Wincode) : Type 0 where
  pub message :
      (t : MessageType) (payload : Bytes) (id : ℕ)
      → length payload < 2 ^ 31
      → Fits w (Protocol.new t payload id)
  pub uid_gid : (u : UidGidPayload) → length (w.uid_gid.to_bytes u) < 2 ^ 31
  pub inode_key : (k : InodeKeyPayload) → length (w.inode_key.to_bytes k) < 2 ^ 31
  pub chown : (c : ChownPayload) → length (w.chown.to_bytes c) < 2 ^ 31

-- the library is set up, and connected to a daemon
pub record IsRemote {D : DashMap} (l : Library D) : Type 0 where
  pub done : l.library_init_done ≡ true
  pub idle : l.library_initializing ≡ false
  pub session : l.session_init ≡ true
  pub unshared : l.shm.active ≡ false
  pub enabled : l.client.enabled ≡ true
  pub connected : l.client.connected ≡ true
  pub up : l.client.up ≡ true

-- the client behind one more request, which left this daemon
abbrev asked : {D : DashMap} → Client D → Daemon D → Client D
asked c d = record c { next_id = (c.next_id + 1) % 2 ^ 64; daemon = d }

-- the library with another client behind one more request
abbrev pub asked_by : {D : DashMap} → Library D → Daemon D → Library D
asked_by l d = record l { client = asked l.client d }

module _ {D : DashMap} (l : Library D) (remote : IsRemote l) (d : Daemon D) where
  IsRemote-asked_by : IsRemote (asked_by l d)
  IsRemote-asked_by = record {
    done = remote.done;
    idle = remote.idle;
    session = remote.session;
    unshared = remote.unshared;
    enabled = remote.enabled;
    connected = remote.connected;
    up = remote.up;
  }

module _ (p : Platform) (compact : IsCompact p.wincode) {D : DashMap} {l : Library D}
    (remote : IsRemote l) where
  ready : ensure_library_init p l ≡ l
  unfolding ensure_library_init ensure_session_backing_init
  ready = simp (remote.done, remote.session)

  -- a request with a small payload that is answered by a small one
  request :
      (t : MessageType) (payload out : Bytes) (d : Daemon D)
      → length payload < 2 ^ 31
      → length out < 2 ^ 31
      → dispatch_message p.wincode (Protocol.new t payload l.client.next_id) l.client.daemon
        ≡ (d, Protocol.new response out l.client.next_id)
      → daemon_request p.wincode t payload l.client
        ≡ (asked l.client d, some (Protocol.new response out l.client.next_id))
  request t payload out d small answer turn =
      let live : IsLive p.wincode t payload l.client = record {
        active = simp (remote.enabled, remote.connected);
        up = remote.up;
        request = compact.message t payload l.client.next_id small;
        answer = rw turn (compact.message response out l.client.next_id answer);
      } in
      daemon_request-live p.wincode t payload l.client live
      ∙ ap (λ (r : Daemon D × ProtocolMessage). (asked l.client r.0, some r.1)) turn

  ids : daemon_get_current_uid_gid p.wincode l.client ≡ (
    asked l.client l.client.daemon,
    some (l.client.daemon.state.current_uid, l.client.daemon.state.current_gid),
  )
  unfolding daemon_get_current_uid_gid dispatch_message dispatch
  ids =
      rw (request get_current_uid_gid [] _ _ (omega arith) (compact.uid_gid _) refl)
        (rw (p.wincode.uid_gid.roundtrip) refl)

  -- The current ids are those of the daemon.
  current_fake_ids-remote : current_fake_ids p l ≡ (
    asked_by l l.client.daemon,
    (l.client.daemon.state.current_uid, l.client.daemon.state.current_gid),
  )
  unfolding current_fake_ids daemon_or_global_ids ensure_session_backing_init
      shm_get_current_uid_gid
  current_fake_ids-remote =
      simp (remote.done, remote.session, remote.unshared, remote.enabled, remote.connected, ids)

  chowned :
      (key : InodeKey) (uid gid default_uid default_gid : ℕ)
      → (daemon_upsert_chown p.wincode key uid gid default_uid default_gid l.client).0
        ≡ asked l.client (record l.client.daemon {
          state = State.upsert_chown l.client.daemon.state key uid gid default_uid default_gid;
        })
  unfolding daemon_upsert_chown dispatch_message dispatch
  chowned key uid gid default_uid default_gid =
      let turn =
        request MessageType.upsert_chown _ [] _ (compact.chown _) (omega arith)
          (rw (p.wincode.chown.roundtrip) refl) in
      ap (λ (r : Client D × Option ProtocolMessage). r.0) turn

  looked_up :
      (key : InodeKey)
      → length (
          p.wincode.inode_result.to_bytes
            (lookup_result (State.get_inode l.client.daemon.state key)))
        < 2 ^ 31
      → daemon_get_inode p.wincode key l.client
        ≡ (asked l.client l.client.daemon, State.get_inode l.client.daemon.state key)
  unfolding daemon_get_inode dispatch_message dispatch
  looked_up key small =
      let turn =
        request get_ownership (p.wincode.inode_key.to_bytes (record { dev = key.0; ino = key.1 }))
          (p.wincode.inode_result.to_bytes
            (lookup_result (State.get_inode l.client.daemon.state key)))
          l.client.daemon (compact.inode_key _) small (rw (p.wincode.inode_key.roundtrip) refl) in
      rw (turn, p.wincode.inode_result.roundtrip)
        (ap (λ (o : Option FakeInode). (asked l.client l.client.daemon, o))
          (found_inode-lookup (State.get_inode l.client.daemon.state key)))

  fake_uid : current_fake_uid p l ≡ (asked_by l l.client.daemon, l.client.daemon.state.current_uid)
  unfolding current_fake_uid
  fake_uid = rw (current_fake_ids-remote) refl

  fake_gid : current_fake_gid p l ≡ (asked_by l l.client.daemon, l.client.daemon.state.current_gid)
  unfolding current_fake_gid
  fake_gid = rw (current_fake_ids-remote) refl

  -- A read asks the daemon, where that has an entry.
  get_inode-remote :
      (key : InodeKey) (inode : FakeInode)
      → State.get_inode l.client.daemon.state key ≡ some inode
      → length (p.wincode.inode_result.to_bytes (lookup_result (some inode))) < 2 ^ 31
      → get_inode p key l ≡ (asked_by l l.client.daemon, some inode)
  unfolding get_inode
  get_inode-remote key inode e small =
      let found : daemon_get_inode p.wincode key l.client
          ≡ (asked l.client l.client.daemon, some inode) =
        looked_up key (rw e small)
        ∙ ap (λ (o : Option FakeInode). (asked l.client l.client.daemon, o)) e in
      simp (remote.unshared, remote.enabled, remote.connected, found)

  -- what stat reports of a file with an entry
  pub modify_stat_buf-remote :
      (st : Stat) (inode : FakeInode)
      → State.get_inode l.client.daemon.state (key_from_stat st) ≡ some inode
      → length (p.wincode.inode_result.to_bytes (lookup_result (some inode))) < 2 ^ 31
      → modify_stat_buf p st l ≡ (asked_by l l.client.daemon, patch_inode_fields st inode)
  unfolding modify_stat_buf
  modify_stat_buf-remote st inode e small = simp (
    modify_stat_buf,
    remote.idle,
    ready,
    remote.done,
    get_inode-remote (key_from_stat st) inode e small,
  )

-- the daemon with a chown by its own ids
abbrev pub chown_daemon : {D : DashMap} → InodeKey → ℕ → ℕ → Daemon D → Daemon D
chown_daemon key uid gid d = record d {
  state = State.upsert_chown d.state key uid gid d.state.current_uid d.state.current_gid;
}

module _ (p : Platform) (compact : IsCompact p.wincode) {D : DashMap} {l : Library D}
    (remote : IsRemote l) where
  record_chown_key-remote :
      (key : InodeKey) (uid gid : ℕ)
      → record_chown_key p key uid gid l ≡ (
          let d = l.client.daemon in
          asked_by (asked_by (asked_by l d) d) (chown_daemon key uid gid d))
  unfolding record_chown_key
  record_chown_key-remote key uid gid =
      let d = l.client.daemon in
      let one = IsRemote-asked_by l remote d in
      let two = IsRemote-asked_by (asked_by l d) one d in
      let last = chowned p compact two key uid gid d.state.current_uid d.state.current_gid in
      rw
        (
          fake_uid p compact remote,
          fake_gid p compact one,
          last,
          remote.unshared,
          remote.enabled,
          remote.connected,
        )
        refl

  pub record_chown-remote :
      (source : StatSource) (st : Stat) (uid gid : ℕ)
      → source_stat p.sys source ≡ found st
      → record_chown p source uid gid l ≡ (
        (let d = l.client.daemon in
            asked_by (asked_by (asked_by l d) d) (chown_daemon (key_from_stat st) uid gid d)),
        pos 0,
      )
  unfolding record_chown
  record_chown-remote source st uid gid stats =
      rw
        (
          stats,
          record_chown,
          ready p compact remote,
          record_chown_key-remote (key_from_stat st) uid gid,
        )
        refl

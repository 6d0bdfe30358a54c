-- ===== src/Daemon.antt =====
-- pseudoroot-core/src/daemon_server.rs: what the daemon answers to a message, and the loop that
-- serves one connection.
pub mod Dispatch
pub mod Serving
pub mod Server
pub mod Shutdown
pub mod Blocking
pub mod Mixed
pub mod Rounds
use pseudoroot.Prelude.{
  ℕ, zero, suc, Bool, true, false, Option, none, some, [], ◌++◌, if◌then◌else◌,
}
use pseudoroot.Prelude.Bytes.{Bytes, codes}
use pseudoroot.Inode.{FakeInode}
use pseudoroot.State.{
  DashMap, FakeRootState, default, set_current, set_inode, get_inode, remove_inode, upsert_chown,
}
use pseudoroot.Protocol.{
  MessageType, register_ownership, set_current_uid_gid, get_current_uid_gid, ping, response, error,
  get_ownership, remove_ownership, init, shutdown, ProtocolMessage, InodeKeyPayload,
  InodeStatePayload, InodeStateResult, UidGidPayload, ChownPayload, Wincode, new_response,
  new_error, write_framed, read_framed,
}

-- the shared state and the shutdown flag
pub record Daemon (D : DashMap) : Type 0 where
  pub state : FakeRootState D
  pub stopping : Bool

abbrev found_result : FakeInode → InodeStateResult
found_result inode = record {
  found = true;
  uid = inode.uid;
  gid = inode.gid;
  mode = inode.mode;
  rdev = inode.rdev;
  xattrs = inode.xattrs;
}

-- `result` of the `GetOwnership` branch
abbrev pub lookup_result : Option FakeInode → InodeStateResult
lookup_result (some inode) = found_result inode
lookup_result none = record {
  found = false;
  uid = 0;
  gid = 0;
  mode = none;
  rdev = none;
  xattrs = [];
}

-- `send_message`: the bytes of one response on the stream
abbrev pub send_message : Wincode → ProtocolMessage → Bytes
send_message w message = write_framed (w.message.to_bytes message)

module _ {D : DashMap} where
  unfoldable pub new_shared_state : ℕ → ℕ → FakeRootState D
  unfolding default set_current
  new_shared_state uid gid = set_current default uid gid

  -- `message.message_type`'s branch: the payload and the id of the request, and the daemon
  unfoldable pub dispatch :
      Wincode → MessageType → Bytes → ℕ → Daemon D → Daemon D × ProtocolMessage
  dispatch w ping payload id d = (d, new_response id (codes "pong"))
  dispatch w get_current_uid_gid payload id d = (
    d,
    new_response id
        (w.uid_gid.to_bytes (record { uid = d.state.current_uid; gid = d.state.current_gid })),
  )
  dispatch w set_current_uid_gid payload id d = elim (w.uid_gid.from_bytes payload) [
    | some p ↦ (record d { state = set_current d.state p.uid p.gid }, new_response id [])
    | none ↦ (d, new_error id (codes "Invalid UidGidPayload"))
  ]
  dispatch w register_ownership payload id d = elim (w.inode_state.from_bytes payload) [
    | some p ↦ (
      record d {
        state =
            set_inode d.state (p.dev, p.ino)
              (record {
                uid = p.uid;
                gid = p.gid;
                mode = p.mode;
                rdev = p.rdev;
                xattrs = p.xattrs;
              });
      },
      new_response id [],
    )
    | none ↦ (d, new_error id (codes "Invalid InodeStatePayload"))
  ]
  dispatch w MessageType.upsert_chown payload id d = elim (w.chown.from_bytes payload) [
    | some p ↦ (
      record d {
        state = upsert_chown d.state (p.dev, p.ino) p.uid p.gid p.default_uid p.default_gid;
      },
      new_response id [],
    )
    | none ↦ (d, new_error id (codes "Invalid ChownPayload"))
  ]
  dispatch w get_ownership payload id d = elim (w.inode_key.from_bytes payload) [
    | some p ↦ (
      d,
      new_response id (w.inode_result.to_bytes (lookup_result (get_inode d.state (p.dev, p.ino)))),
    )
    | none ↦ (d, new_error id (codes "Invalid InodeKeyPayload"))
  ]
  dispatch w remove_ownership payload id d = elim (w.inode_key.from_bytes payload) [
    | some p ↦ (record d { state = (remove_inode d.state (p.dev, p.ino)).0 }, new_response id [])
    | none ↦ (d, new_error id (codes "Invalid InodeKeyPayload"))
  ]
  dispatch w init payload id d = elim (w.uid_gid.from_bytes payload) [
    | some p ↦ (record d { state = set_current d.state p.uid p.gid }, new_response id [])
    | none ↦ (d, new_error id (codes "Invalid UidGidPayload"))
  ]
  dispatch w shutdown payload id d = (record d { stopping = true }, new_response id [])
  dispatch w response payload id d = (d, new_error id (codes "Unexpected message type"))
  dispatch w error payload id d = (d, new_error id (codes "Unexpected message type"))

  unfoldable pub dispatch_message :
      Wincode → ProtocolMessage → Daemon D → Daemon D × ProtocolMessage
  dispatch_message w message d =
      dispatch w message.message_type message.payload message.request_id d

  -- `handle_client` on what the client sends: the rounds, the responses that the client still takes,
  -- and what was sent so far. The connection ends at a read error, an invalid message or a failed
  -- send; `none` where it has not ended within the rounds.
  unfoldable pub handle_client :
      Wincode → ℕ → ℕ → Bytes → Bytes → Daemon D → Option (Daemon D × Bytes)
  handle_client w zero room input output d = none
  handle_client w (suc rounds) room input output d = elim (read_framed input) [
    | none ↦ some (d, output)
    | some frame ↦ elim (w.message.from_bytes frame.0) [
      | none ↦ some (d, output)
      | some message ↦
          let turn = dispatch_message w message d in
          elim room [
            | zero ↦ some (turn.0, output)
            | suc left ↦
                handle_client w rounds left frame.1 (output ++ send_message w turn.1) turn.0
          ]
    ]
  ]

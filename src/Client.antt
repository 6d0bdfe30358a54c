-- ===== src/Client.antt =====
-- pseudoroot-core/src/daemon_client.rs: the requests that the preloaded library sends to a daemon.
-- The connection is a link to the daemon's loop; a link that is down fails every request.
pub mod Channel
pub mod Remote
use pseudoroot.Prelude.{
  ℕ, Bool, true, false, ◌&&◌, not, Option, none, some, [], if◌then◌else◌, ◌>>=◌,
}
use pseudoroot.Prelude.Bytes.{Bytes}
use pseudoroot.Inode.{InodeKey, FakeInode}
use pseudoroot.State.{DashMap}
use pseudoroot.Protocol.{
  MessageType, register_ownership, set_current_uid_gid, get_current_uid_gid, ping, response, error,
  get_ownership, remove_ownership, init, shutdown, ProtocolMessage, InodeStateResult, Wincode, new,
  next_request_id,
}
use pseudoroot.Protocol.Channel.{IpcChannel, IoResult, ok, err, request}
use pseudoroot.Daemon.{Daemon, send_message, handle_client}

pub record Client (D : DashMap) : Type 0 where
  -- `DAEMON_SOCKET_ENV` is set
  pub enabled : Bool
  -- `DAEMON_CONNECTED`
  pub connected : Bool
  -- `REQUEST_ID`
  pub next_id : ℕ
  -- the other end of the socket
  pub up : Bool
  pub daemon : Daemon D

abbrev is_error : MessageType → Bool
is_error error = true
is_error _ = false

abbrev is_response : MessageType → Bool
is_response response = true
is_response _ = false

-- `r.found.then_some(FakeInode { .. })`
abbrev found_inode : InodeStateResult → Option FakeInode
found_inode r =
    if r.found
    then some (record { uid = r.uid; gid = r.gid; mode = r.mode; rdev = r.rdev; xattrs = r.xattrs })
    else none

abbrev not_error : Option ProtocolMessage → Bool
not_error none = false
not_error (some r) = not (is_error r.message_type)

-- the payload of a `Response`, read by `read`
abbrev of_response : {A : Type 0} → (Bytes → Option A) → Option ProtocolMessage → Option A
of_response read none = none
of_response read (some r) = if is_response r.message_type then read r.payload else none

-- `.ok()`
abbrev pub to_option : {A : Type 0} → IoResult A → Option A
to_option (ok x) = some x
to_option (err e) = none

-- a channel whose stream brings `reply`
abbrev pub replying : Bytes → IpcChannel
replying reply = record {
  stream = some (record { writable = true; written = []; unread = reply });
  socket_path = [];
}

module _ {D : DashMap} where
  abbrev pub daemon_mode_enabled : Client D → Bool
  daemon_mode_enabled c = c.enabled

  abbrev pub daemon_mode_active : Client D → Bool
  daemon_mode_active c = daemon_mode_enabled c && c.connected

  -- `init_daemon_connection`: whether the socket could be connected is the link's
  unfoldable pub init_daemon_connection : Client D → Client D × Bool
  init_daemon_connection c =
      if not (daemon_mode_enabled c)
      then (c, false)
      else if c.connected
      then (c, true)
      else (record c { connected = c.up }, c.up)

  -- a request on a channel whose stream brings what the loop of the daemon sends for the frame that
  -- is written
  unfoldable pub exchange : Wincode → ProtocolMessage → Daemon D → Daemon D × Option ProtocolMessage
  exchange w message d = elim (handle_client w 2 1 (send_message w message) [] d) [
    | none ↦ (d, none)
    | some served ↦ (served.0, to_option (request w message (replying served.1)).1)
  ]

  unfoldable pub daemon_request :
      Wincode → MessageType → Bytes → Client D → Client D × Option ProtocolMessage
  daemon_request w message_type payload c =
      if daemon_mode_active c
      then (let id = next_request_id c.next_id in
          let sent = exchange w (new message_type payload id.0) c.daemon in
          if c.up
          then (record c { next_id = id.1; daemon = sent.0 }, sent.1)
          else (record c { next_id = id.1 }, none))
      else (c, none)

  abbrev daemon_request_ok : Wincode → MessageType → Bytes → Client D → Client D × Bool
  daemon_request_ok w message_type payload c =
      let r = daemon_request w message_type payload c in (r.0, not_error r.1)

  unfoldable pub daemon_get_current_uid_gid : Wincode → Client D → Client D × Option (ℕ × ℕ)
  daemon_get_current_uid_gid w c =
      let r = daemon_request w get_current_uid_gid [] c in
      (r.0, of_response w.uid_gid.from_bytes r.1 >>= λ p. some (p.uid, p.gid))

  unfoldable pub daemon_set_current_uid_gid : Wincode → ℕ → ℕ → Client D → Client D × Bool
  daemon_set_current_uid_gid w uid gid c =
      daemon_request_ok w set_current_uid_gid (w.uid_gid.to_bytes (record { uid = uid; gid = gid }))
        c

  unfoldable pub daemon_get_inode : Wincode → InodeKey → Client D → Client D × Option FakeInode
  daemon_get_inode w key c =
      let r =
        daemon_request w get_ownership (w.inode_key.to_bytes (record { dev = key.0; ino = key.1 }))
          c in
      (r.0, of_response w.inode_result.from_bytes r.1 >>= found_inode)

  unfoldable pub daemon_upsert_chown :
      Wincode → InodeKey → ℕ → ℕ → ℕ → ℕ → Client D → Client D × Bool
  daemon_upsert_chown w key uid gid default_uid default_gid c =
      daemon_request_ok w MessageType.upsert_chown
        (w.chown.to_bytes (record {
          dev = key.0;
          ino = key.1;
          uid = uid;
          gid = gid;
          default_uid = default_uid;
          default_gid = default_gid;
        }))
        c

  unfoldable pub daemon_set_inode : Wincode → InodeKey → FakeInode → Client D → Client D × Bool
  daemon_set_inode w key inode c =
      daemon_request_ok w register_ownership
        (w.inode_state.to_bytes (record {
          dev = key.0;
          ino = key.1;
          uid = inode.uid;
          gid = inode.gid;
          mode = inode.mode;
          rdev = inode.rdev;
          xattrs = inode.xattrs;
        }))
        c

  unfoldable pub daemon_remove_inode : Wincode → InodeKey → Client D → Client D × Bool
  daemon_remove_inode w key c =
      daemon_request_ok w remove_ownership
        (w.inode_key.to_bytes (record { dev = key.0; ino = key.1 })) c

  unfoldable pub daemon_init : Wincode → ℕ → ℕ → Client D → Client D × Bool
  daemon_init w uid gid c =
      daemon_request_ok w init (w.uid_gid.to_bytes (record { uid = uid; gid = gid })) c

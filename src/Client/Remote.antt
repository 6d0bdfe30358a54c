-- ===== src/Client/Remote.antt =====
-- Requests over a live connection to a daemon, and over one that is down.
use pseudoroot.Prelude.{
  ℕ, ◌+◌, ◌%◌, ◌^◌, ◌≡◌, refl, true, false, ◌&&◌, Option, none, some, [], arith,
}
use mathlib.Core.List.{append-nil}
use pseudoroot.Prelude.Bytes.{Bytes}
use pseudoroot.Inode.{InodeKey, FakeInode, put, delete, chown}
use pseudoroot.State.{DashMap, get_inode}
use pseudoroot.State.Refinement.{
  get_inode-set_inode, get_inode-remove_inode, get_inode-upsert_chown,
}
use pseudoroot.Protocol.{
  MessageType, register_ownership, get_ownership, remove_ownership, ProtocolMessage, Wincode, new,
}
use pseudoroot.Daemon.{Daemon, dispatch, dispatch_message, lookup_result}
use pseudoroot.Client.Channel.{request-dispatch}
use pseudoroot.Daemon.Serving.{Fits}
use pseudoroot.Client.{
  Client, daemon_mode_active, exchange, daemon_request, daemon_get_inode, daemon_upsert_chown,
  daemon_set_inode, daemon_remove_inode, found_inode,
}

pub found_inode-lookup : (o : Option FakeInode) → found_inode (lookup_result o) ≡ o
found_inode-lookup none = refl
found_inode-lookup (some inode) = refl

module _ {D : DashMap} (w : Wincode) where
  -- the connection is live, and the request and its answer fit in a frame
  pub record IsLive (message_type : MessageType) (payload : Bytes) (c : Client D) : Type 0 where
    pub active : daemon_mode_active c ≡ true
    pub up : c.up ≡ true
    pub request : Fits w (new message_type payload c.next_id)
    pub answer : Fits w (dispatch_message w (new message_type payload c.next_id) c.daemon).1

  pub exchange-dispatch :
      (message : ProtocolMessage) (d : Daemon D)
      → Fits w message
      → Fits w (dispatch_message w message d).1
      → exchange w message d
        ≡ ((dispatch_message w message d).0, some (dispatch_message w message d).1)
  unfolding exchange
  exchange-dispatch message d out back =
      let (served, loop, same, answered, cut_off, unconnected) =
        request-dispatch w [] [] [] message d out back in
      let reply = rw append-nil at answered in rw (loop, exchange, reply, same)

  -- the client after a request that was served, and the answer
  pub daemon_request-live :
      (message_type : MessageType) (payload : Bytes) (c : Client D)
      → IsLive message_type payload c
      → daemon_request w message_type payload c ≡ (
          let turn = dispatch_message w (new message_type payload c.next_id) c.daemon in
          (record c { next_id = (c.next_id + 1) % 2 ^ 64; daemon = turn.0 }, some turn.1))
  unfolding daemon_request
  daemon_request-live message_type payload c live = rw (
    live.active,
    live.up,
    exchange-dispatch (new message_type payload c.next_id) c.daemon live.request live.answer,
  )

  -- Where the client is not connected or the socket is down, daemon_request returns none and does
  -- not change the daemon.
  pub daemon_request-dead :
      (message_type : MessageType) (payload : Bytes) (c : Client D)
      → (daemon_mode_active c && c.up) ≡ false
      → ((daemon_request w message_type payload c).1 ≡ none)
        × ((daemon_request w message_type payload c).0.daemon ≡ c.daemon)
  unfolding daemon_request
  daemon_request-dead message_type payload c dead = ground arith

module _ {D : DashMap} (w : Wincode) (c : Client D) (key : InodeKey) where
  -- Over a live connection whose request and answer fit in a frame, daemon_get_inode returns the
  -- entry in the table of the daemon and does not change the daemon.
  pub daemon_get_inode-live :
      IsLive w get_ownership (w.inode_key.to_bytes (record { dev = key.0; ino = key.1 })) c
      → ((daemon_get_inode w key c).1 ≡ get_inode c.daemon.state key)
        × ((daemon_get_inode w key c).0.daemon ≡ c.daemon)
  unfolding daemon_get_inode dispatch_message dispatch
  daemon_get_inode-live live =
      rw (daemon_request-live w get_ownership _ c live, w.inode_key.roundtrip)
        (rw w.inode_result.roundtrip (found_inode-lookup (get_inode c.daemon.state key), refl))

  -- Over a live connection whose request and answer fit in a frame, daemon_set_inode succeeds,
  -- and the table of the daemon then reads as before with the key set to the inode.
  pub daemon_set_inode-live :
      (inode : FakeInode)
      → IsLive w register_ownership
          (w.inode_state.to_bytes (record {
            dev = key.0;
            ino = key.1;
            uid = inode.uid;
            gid = inode.gid;
            mode = inode.mode;
            rdev = inode.rdev;
            xattrs = inode.xattrs;
          }))
          c
      → ((daemon_set_inode w key inode c).1 ≡ true)
        × ((q : InodeKey)
            → get_inode (daemon_set_inode w key inode c).0.daemon.state q
              ≡ put key inode (get_inode c.daemon.state) q)
  unfolding daemon_set_inode dispatch_message dispatch
  daemon_set_inode-live inode live =
      rw (daemon_request-live w register_ownership _ c live, w.inode_state.roundtrip)
        (refl, get_inode-set_inode c.daemon.state key inode)

  -- Over a live connection whose request and answer fit in a frame, daemon_upsert_chown succeeds,
  -- and the table of the daemon then reads as before with the chown merged into the entry of the
  -- key, or into a new entry of the default ids.
  pub daemon_upsert_chown-live :
      (uid gid default_uid default_gid : ℕ)
      → IsLive w MessageType.upsert_chown
          (w.chown.to_bytes (record {
            dev = key.0;
            ino = key.1;
            uid = uid;
            gid = gid;
            default_uid = default_uid;
            default_gid = default_gid;
          }))
          c
      → ((daemon_upsert_chown w key uid gid default_uid default_gid c).1 ≡ true)
        × ((q : InodeKey)
            → get_inode
                (daemon_upsert_chown w key uid gid default_uid default_gid c).0.daemon.state
                q
              ≡ chown key uid gid default_uid default_gid (get_inode c.daemon.state) q)
  unfolding daemon_upsert_chown dispatch_message dispatch
  daemon_upsert_chown-live uid gid default_uid default_gid live =
      rw (daemon_request-live w MessageType.upsert_chown _ c live, w.chown.roundtrip)
        (refl, get_inode-upsert_chown c.daemon.state key uid gid default_uid default_gid)

  -- Over a live connection whose request and answer fit in a frame, daemon_remove_inode succeeds,
  -- and the table of the daemon then reads as before without the key.
  daemon_remove_inode-live :
      IsLive w remove_ownership (w.inode_key.to_bytes (record { dev = key.0; ino = key.1 })) c
      → ((daemon_remove_inode w key c).1 ≡ true)
        × ((q : InodeKey)
            → get_inode (daemon_remove_inode w key c).0.daemon.state q
              ≡ delete key (get_inode c.daemon.state) q)
  unfolding daemon_remove_inode dispatch_message dispatch
  daemon_remove_inode-live live =
      rw (daemon_request-live w remove_ownership _ c live, w.inode_key.roundtrip)
        (refl, λ q. (get_inode-remove_inode c.daemon.state key q).0)

-- ===== src/Protocol.antt =====
-- pseudoroot-core/src/protocol.rs: messages, payloads and frames. The serializer is a parameter; a
-- stream is the bytes that are still to be read.
pub mod Channel
pub mod Framing
use pseudoroot.Prelude.{
  ℕ, ◌+◌, ◌%◌, ◌^◌, ◌<◌, ◌≡◌, Bool, Option, none, some, ◌++◌, leb, if◌then◌else◌, ◌>>=◌, length,
  take, drop,
}
use pseudoroot.Prelude.Bytes.{Bytes, to_be_bytes, from_be_bytes, codes}
use pseudoroot.Xattrs.{Xattrs}

pub data MessageType : Type 0 where
  register_ownership set_current_uid_gid get_current_uid_gid ping response error : MessageType
  get_ownership remove_ownership init upsert_chown shutdown : MessageType

pub record ProtocolMessage : Type 0 where
  pub message_type : MessageType
  pub payload : Bytes
  pub request_id : ℕ

pub record InodeKeyPayload : Type 0 where
  pub dev : ℕ
  pub ino : ℕ

pub record InodeStatePayload : Type 0 where
  pub dev : ℕ
  pub ino : ℕ
  pub uid : ℕ
  pub gid : ℕ
  pub mode : Option ℕ
  pub rdev : Option ℕ
  pub xattrs : Xattrs

pub record InodeStateResult : Type 0 where
  pub found : Bool
  pub uid : ℕ
  pub gid : ℕ
  pub mode : Option ℕ
  pub rdev : Option ℕ
  pub xattrs : Xattrs

pub record UidGidPayload : Type 0 where
  pub uid : ℕ
  pub gid : ℕ

pub record ChownPayload : Type 0 where
  pub dev : ℕ
  pub ino : ℕ
  pub uid : ℕ
  pub gid : ℕ
  pub default_uid : ℕ
  pub default_gid : ℕ

-- `serialize_wincode` and `deserialize_wincode` at one type. Serialization of these types does not
-- fail, so that the source's `expect` does not panic.
pub record Wire (A : Type 0) : Type 0 where
  pub to_bytes : A → Bytes
  pub from_bytes : Bytes → Option A
  pub roundtrip : (a : A) → from_bytes (to_bytes a) ≡ some a

-- the serializer at every type that is sent
pub record Wincode : Type 0 where
  pub message : Wire ProtocolMessage
  pub uid_gid : Wire UidGidPayload
  pub inode_key : Wire InodeKeyPayload
  pub inode_state : Wire InodeStatePayload
  pub inode_result : Wire InodeStateResult
  pub chown : Wire ChownPayload

abbrev pub new : MessageType → Bytes → ℕ → ProtocolMessage
new message_type payload request_id = record {
  message_type = message_type;
  payload = payload;
  request_id = request_id;
}

abbrev pub new_response : ℕ → Bytes → ProtocolMessage
new_response request_id payload = new response payload request_id

abbrev pub new_error : ℕ → Bytes → ProtocolMessage
new_error request_id error_message = new error error_message request_id

-- `next_request_id`: the id, and the counter after it
abbrev pub next_request_id : ℕ → ℕ × ℕ
next_request_id counter = (counter, (counter + 1) % 2 ^ 64)

-- what `write_framed` puts on the stream
unfoldable pub write_framed : Bytes → Bytes
write_framed bytes = to_be_bytes (length bytes % 2 ^ 32) ++ bytes

-- `Read::read_exact`: the bytes, and the stream after them
unfoldable pub read_exact : ℕ → Bytes → Option (Bytes × Bytes)
read_exact n stream = if leb n (length stream) then some (take n stream, drop n stream) else none

unfoldable pub read_framed : Bytes → Option (Bytes × Bytes)
read_framed stream = read_exact 4 stream >>= λ head. read_exact (from_be_bytes head.0) head.1

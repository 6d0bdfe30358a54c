-- ===== src/Protocol/Channel.antt =====
-- `IpcChannel` of pseudoroot-core/src/protocol.rs: one end of a socket, and what it answers where the
-- socket is not connected. A stream is what was written to it and the bytes that are still to be
-- read; the connection is a parameter.
use pseudoroot.Prelude.{Bool, true, false, Option, none, some, [], ◌++◌, if◌then◌else◌}
use pseudoroot.Prelude.Bytes.{Bytes}
use pseudoroot.Protocol.{ProtocolMessage, Wincode, write_framed, read_framed}

pub record Stream : Type 0 where
  -- whether the other end still takes what is written
  pub writable : Bool
  pub written : Bytes
  pub unread : Bytes

pub record IpcChannel : Type 0 where
  pub stream : Option Stream
  pub socket_path : Bytes

-- the errors of std::io, as far as they are told apart
pub data IoError : Type 0 where
  refused blocking not_connected broken_pipe unexpected_eof invalid_data : IoError

pub data IoResult {ℓ} (A : Type ℓ) : Type ℓ where
  ok : A → IoResult A
  err : IoError → IoResult A

-- `UnixStream::connect` and `set_nonblocking`
pub record Connector : Type 0 where
  pub connect : Bytes → Option Stream
  pub set_nonblocking : Stream → Bool

abbrev pub channel_new : Bytes → IpcChannel
channel_new socket_path = record { stream = none; socket_path = socket_path }

unfoldable pub connect : Connector → IpcChannel → IpcChannel × IoResult {0} Unit
connect c ch = elim ch.stream [
  | some stream ↦ (ch, ok tt)
  | none ↦ elim (c.connect ch.socket_path) [
    | none ↦ (ch, err refused)
    | some stream ↦
        if c.set_nonblocking stream
        then (record ch { stream = some stream }, ok tt)
        else (ch, err blocking)
  ]
]

abbrev pub is_connected : IpcChannel → Bool
is_connected ch = elim ch.stream [ some stream ↦ true | none ↦ false ]

unfoldable pub send : Wincode → ProtocolMessage → IpcChannel → IpcChannel × IoResult {0} Unit
send w message ch = elim ch.stream [
  | none ↦ (ch, err not_connected)
  | some stream ↦
      let bytes = write_framed (w.message.to_bytes message) in
      if stream.writable
      then (
        record ch { stream = some (record stream { written = stream.written ++ bytes }) },
        ok tt,
      )
      else (ch, err broken_pipe)
]

-- `ok_or_else` in `recv`
abbrev pub decoded : Option ProtocolMessage → IoResult ProtocolMessage
decoded none = err invalid_data
decoded (some message) = ok message

-- A frame that ends early is read to the end of the stream.
abbrev pub received :
    Wincode → IpcChannel → Stream → Option (Bytes × Bytes) → IpcChannel × IoResult ProtocolMessage
received w ch stream none =
    (record ch { stream = some (record stream { unread = [] }) }, err unexpected_eof)
received w ch stream (some frame) = (
  record ch { stream = some (record stream { unread = frame.1 }) },
  decoded (w.message.from_bytes frame.0),
)

unfoldable pub recv : Wincode → IpcChannel → IpcChannel × IoResult ProtocolMessage
recv w ch = elim ch.stream [
  | none ↦ (ch, err not_connected)
  | some stream ↦ received w ch stream (read_framed stream.unread)
]

unfoldable pub request :
    Wincode → ProtocolMessage → IpcChannel → IpcChannel × IoResult ProtocolMessage
unfolding send recv
request w message ch =
    let sent = send w message ch in
    elim sent.1 [ ok done ↦ recv w sent.0 | err e ↦ (sent.0, err e) ]

-- ===== src/Client/Channel.antt =====
-- A request over a channel to the daemon.
use pseudoroot.Prelude.{◌≡◌, refl, arith, Bool, true, false, some, [], ◌∷◌, ◌++◌}
use mathlib.Core.List.{append-nil}
use pseudoroot.Prelude.Bytes.{Bytes}
use pseudoroot.State.{DashMap}
use pseudoroot.Protocol.{ProtocolMessage, Wincode}
use pseudoroot.Protocol.Framing.{read_framed-write_framed}
use pseudoroot.Protocol.Channel.{
  IpcChannel, ok, err, not_connected, broken_pipe, channel_new, send, recv, request,
}
use pseudoroot.Daemon.{Daemon, dispatch_message, send_message, handle_client}
use pseudoroot.Daemon.Serving.{Fits, handle_client-answer}

-- a channel by its path, whether the other end takes what is written, and its stream
abbrev pub channel : Bytes → Bool → Bytes → Bytes → IpcChannel
channel path writable written unread = record {
  stream = some (record { writable = writable; written = written; unread = unread });
  socket_path = path;
}

module _ {D : DashMap} (w : Wincode) (path before later : Bytes) (message : ProtocolMessage)
    (d : Daemon D) (out : Fits w message) (back : Fits w (dispatch_message w message d).1) where
  -- Where a request and its answer fit in a frame, the loop of the daemon serves the frame that
  -- request writes, and on a stream that brings what the loop sends, with any bytes behind it,
  -- request writes that frame behind what was written, returns the answer of the daemon, and
  -- leaves the bytes behind it. Where the other end takes nothing, or the channel is not
  -- connected, request leaves the channel as it is and returns the error that says so.
  pub request-dispatch :
      (served : Daemon D × Bytes) × (handle_client w 2 1 (send_message w message) [] d
        ≡ some served)
      × (served.0 ≡ (dispatch_message w message d).0)
      × (request w message (channel path true before (served.1 ++ later)) ≡ (
        channel path true (before ++ send_message w message) later,
        ok (dispatch_message w message d).1,
      ))
      × (request w message (channel path false before (served.1 ++ later))
          ≡ (channel path false before (served.1 ++ later), err broken_pipe))
      × (request w message (channel_new path) ≡ (channel_new path, err not_connected))
  unfolding request send recv
  request-dispatch =
      let turn = dispatch_message w message d in
      let served : handle_client w 2 1 (send_message w message) [] d
          ≡ some (turn.0, send_message w turn.1) =
        simp append-nil at (handle_client-answer w (message ∷ []) 2 [] d (omega arith) (out, tt)) in
      let frame = read_framed-write_framed (w.message.to_bytes turn.1) later back in
      (
        (turn.0, send_message w turn.1),
        served,
        refl,
        rw (frame, w.message.roundtrip turn.1) refl,
        refl,
        refl,
      )

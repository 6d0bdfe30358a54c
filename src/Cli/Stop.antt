-- ===== src/Cli/Stop.antt =====
-- Stopping a daemon from the command line.
use pseudoroot.Prelude.{ℕ, ◌≡◌, true, false, Option, [], unwrap_or}
use pseudoroot.Prelude.Bytes.{Bytes}
use pseudoroot.State.{DashMap}
use pseudoroot.Protocol.{Wincode, new, shutdown, next_request_id, new_response}
use pseudoroot.Daemon.{Daemon, dispatch_message, dispatch}
use pseudoroot.Daemon.Serving.{Fits}
use pseudoroot.Client.Remote.{exchange-dispatch}
use pseudoroot.Cli.{CliHost, default_socket_path, stop_daemon}

module _ {D : DashMap} (w : Wincode) (h : CliHost) (socket_path : Option Bytes) (id : ℕ)
    (d : Daemon D) where
  -- Where the socket can be connected and the request and its answer fit in a frame, stop_daemon
  -- sets the flag of the daemon, changes nothing else of it, leaves the file of the socket to it,
  -- and exits with 0.
  pub stop_daemon-stops :
      h.connect (unwrap_or socket_path default_socket_path) ≡ true
      → Fits w (new shutdown [] (next_request_id id).0)
      → Fits w (new_response (next_request_id id).0 [])
      → stop_daemon w h socket_path id d ≡ (record d { stopping = true }, (false, 0))
  unfolding stop_daemon dispatch_message dispatch
  stop_daemon-stops up out back =
      rw (up, exchange-dispatch w (new shutdown [] (next_request_id id).0) d out back)

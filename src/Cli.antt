-- ===== src/Cli.antt =====
-- pseudoroot/src/bin/pdr.rs: what the command line makes of its arguments, and the codes that it exits
-- with. The parser of the clap crate is left out: a parsed command line is given.
pub mod Arguments
pub mod Identity
pub mod Stop
use pseudoroot.Prelude.{
  ℕ, Bool, true, false, ◌||◌, not, Option, none, some, List, [], ◌∷◌, ◌==◌, if◌then◌else◌,
  unwrap_or, ◌>>=◌,
}
use pseudoroot.Prelude.Bytes.{Bytes, bytes_eq, codes}
use pseudoroot.Prelude.Decimal.{to_string}
use pseudoroot.State.{DashMap}
use pseudoroot.Protocol.{Wincode, new, shutdown, next_request_id}
use pseudoroot.Daemon.{Daemon}
use pseudoroot.Daemon.Server.{Action, Socket, run_blocking}
use pseudoroot.Client.{exchange}
use pseudoroot.Supervisor.Command.{Command, command_new, set_args, set_env}
use pseudoroot.Supervisor.Process.{Process, uid_env, gid_env, daemon_socket_env}
use pseudoroot.Supervisor.Session.{fakeroot}

abbrev pub subcommands : List Bytes
subcommands =
    codes "run"
    ∷ codes "start"
    ∷ codes "stop"
    ∷ codes "status"
    ∷ codes "print-library-path"
    ∷ codes "help"
    ∷ []

abbrev pub listed : Bytes → List Bytes → Bool
listed name [] = false
listed name (known ∷ names) = bytes_eq known name || listed name names

abbrev pub is_flag : Bytes → Bool
is_flag [] = false
is_flag (c ∷ rest) = c == b'-'

-- On the bytes of the first argument: where it is not UTF-8, neither is what it is compared with.
unfoldable pub adjust_args : List Bytes → List Bytes
adjust_args [] = []
adjust_args (name ∷ []) = name ∷ []
adjust_args (name ∷ first ∷ rest) =
    if bytes_eq first (codes "run") || (listed first subcommands || is_flag first)
    then name ∷ first ∷ rest
    else name ∷ codes "run" ∷ first ∷ rest

pub record RunArgs : Type 0 where
  pub uid : ℕ
  pub gid : ℕ
  pub daemon : Bool
  pub socket_path : Option Bytes

pub record StartArgs : Type 0 where
  pub socket_path : Option Bytes
  pub uid : ℕ
  pub gid : ℕ
  pub cleanup : Bool

pub data Commands : Type 0 where
  run : List Bytes → RunArgs → Commands
  start : StartArgs → Commands
  stop status : Option Bytes → Commands
  print_library_path : Commands

pub record Cli : Type 0 where
  pub run : RunArgs
  pub action : Option Commands
  pub command : List Bytes

-- `DEFAULT_SOCKET_PATH`
abbrev pub default_socket_path : Bytes
default_socket_path = codes "/tmp/pseudoroot.sock"

-- `base` in `run_command`
unfoldable pub base_command : Bytes → List Bytes → RunArgs → Command
base_command program args r =
    let cmd = set_args args (command_new program) in
    let with_ids = set_env gid_env (to_string r.gid) (set_env uid_env (to_string r.uid) cmd) in
    if r.daemon
    then set_env daemon_socket_env (unwrap_or r.socket_path default_socket_path) with_ids
    else with_ids

-- What the calls that leave the program answer, for the path of the socket where there is one.
pub record CliHost : Type 0 where
  pub library : Option Bytes
  -- `Command::status`, with the code of a process that was not killed by a signal
  pub status : Command → Option (Option ℕ)
  pub set_handler : Bool
  -- whether Ctrl+C is pressed before the daemon ends
  pub interrupted : Bool
  pub socket : Bytes → Socket
  pub connect : Bytes → Bool
  pub remove_file : Bytes → Bool

-- the code of the exit, or `none` where `fakeroot` panics
unfoldable pub run_command : Process → CliHost → List Bytes → RunArgs → Option ℕ
unfolding base_command
run_command p h [] r = some 1
run_command p h (program ∷ args) r = fakeroot p h.library (base_command program args r) >>= λ cmd.
    elim (h.status cmd) [ none ↦ some 1 | some code ↦ some (unwrap_or code 1) ]

unfoldable pub print_library : CliHost → ℕ
print_library h = elim h.library [ some path ↦ 0 | none ↦ 1 ]

-- behind the steps that the daemon's threads took
unfoldable pub start_daemon : (D : DashMap) → Wincode → CliHost → StartArgs → List Action → Option ℕ
start_daemon D w h r actions =
    let path = unwrap_or r.socket_path default_socket_path in
    let served = run_blocking D w (h.socket path) r.uid r.gid r.cleanup actions in
    if not h.set_handler
    then some 1
    else if h.interrupted
    then some 0
    else served >>= λ result. some (if result.0 then 0 else 1)

unfoldable pub check_daemon_status : CliHost → Option Bytes → ℕ
check_daemon_status h socket_path =
    if h.connect (unwrap_or socket_path default_socket_path) then 0 else 1

module _ {D : DashMap} where
  -- with the daemon at the other end: the daemon behind the call, whether `stop` removed the file of
  -- the socket, and the code of the exit
  unfoldable pub stop_daemon :
      Wincode → CliHost → Option Bytes → ℕ → Daemon D → Daemon D × (Bool × ℕ)
  stop_daemon w h socket_path id d =
      let answer = exchange w (new shutdown [] (next_request_id id).0) d in
      let path = unwrap_or socket_path default_socket_path in
      if not (h.connect path)
      then (d, (h.remove_file path, 0))
      else (answer.0, (false, (elim answer.1 [ some response ↦ 0 | none ↦ 1 ])))

  -- the branches of `main`: the daemon at the other end, and the code of the exit
  unfoldable pub main :
      Wincode → Process → CliHost → Cli → ℕ → List Action → Daemon D → Daemon D × Option ℕ
  unfolding run_command print_library start_daemon stop_daemon check_daemon_status
  main w p h cli id actions d = elim cli.action [
    | none ↦ (d, run_command p h cli.command cli.run)
    | some command ↦ elim command [
      | run words r ↦ (d, run_command p h words r)
      | start r ↦ (d, start_daemon D w h r actions)
      | stop socket_path ↦
          let stopped = stop_daemon w h socket_path id d in (stopped.0, some stopped.1.1)
      | status socket_path ↦ (d, some (check_daemon_status h socket_path))
      | print_library_path ↦ (d, some (print_library h))
    ]
  ]

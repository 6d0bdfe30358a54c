-- ===== src/Supervisor/Session.antt =====
-- The entry points of pseudoroot/src/lib.rs: `fakeroot` rewrites a command, and `init` runs the
-- session in the process that such a command starts.
use pseudoroot.Prelude.{
  ℕ, ◌-◌, ◌%◌, ◌^◌, Bool, true, false, ◌||◌, Option, none, some, List, [], ◌∷◌, if◌then◌else◌,
  unwrap_or, drop, ◌⊎◌, inl, inr,
}
use pseudoroot.Prelude.Bytes.{Bytes, codes}
use pseudoroot.Prelude.Decimal.{to_string}
use pseudoroot.State.{DashMap, FakeRootState}
use pseudoroot.Daemon.{new_shared_state}
use pseudoroot.Shm.Table.{ShmInodeMap}
use pseudoroot.Shm.Map.{IoError, ok, err, Os, create}
use pseudoroot.Supervisor.Command.{
  Command, command_new, set_args, set_env, env_remove, clone_command, supervise_command,
  command_has_env,
}
use pseudoroot.Supervisor.Process.{
  Process, var, is_set, env_u32, session_shm_enabled, supervisor_exe, supervise_var, standalone_env,
  daemon_socket_env, shm_fd_env, shm_len_env, uid_env, gid_env,
}
use pseudoroot.Supervisor.Library.{join}
use pseudoroot.Supervisor.Preload.{apply_preload}

unfoldable pub session_supervision_enabled : Process → Command → Bool
session_supervision_enabled p cmd =
    if is_set (p.env supervise_var)
    then false
    else if command_has_env cmd daemon_socket_env || is_set (var p daemon_socket_env)
    then false
    else if command_has_env cmd standalone_env || is_set (var p standalone_env)
    then false
    else true

-- `none` is a panic
unfoldable pub build_supervise_command : Process → Command → Option Command
build_supervise_command p base = elim (supervisor_exe p) [
  | none ↦ none
  | some exe ↦ some (supervise_command exe supervise_var base)
]

-- with what `library_path` answers
unfoldable pub fakeroot : Process → Option Bytes → Command → Option Command
fakeroot p library cmd =
    if session_supervision_enabled p cmd then build_supervise_command p cmd else (elim library [
      | none ↦ none
      | some lib_path ↦ some (apply_preload p (clone_command cmd) lib_path)
    ])

pub data SessionError : Type 0 where
  no_program no_library no_session_dir no_session_daemon not_executed : SessionError
  no_session_map : IoError → SessionError

-- What the calls of the system answer in `run_session`.
pub record SessionHost : Type 0 where
  -- `library_path`
  pub library : Option Bytes
  -- `TempDir::new`
  pub socket_dir : Option Bytes
  pub os : Os
  -- the descriptor of the map, and its flags
  pub fd : ℕ
  pub flags : ℕ
  pub f_getfd : Bool
  pub f_setfd : Bool
  -- `bind_listener`
  pub bind : Bool
  -- `Command::status`, with the code of a process that was not killed by a signal
  pub status : Command → Option (Option ℕ)

-- `fcntl(fd, F_SETFD, flags & !FD_CLOEXEC)`, if the flags can be read
unfoldable pub clear_cloexec : SessionHost → ℕ
clear_cloexec h =
    if h.f_getfd then (if h.f_setfd then h.flags - h.flags % 2 else h.flags) else h.flags

-- the session's table with the flags of its descriptor, or else its daemon's state and socket
pub data Backing (D : DashMap) : Type 0 where
  table : ShmInodeMap → ℕ → Backing D
  daemon : FakeRootState D → Bytes → Backing D

-- a command that is ready to run
pub data Prepared (D : DashMap) : Type 0 where
  ready : Backing D → Command → Prepared D
  failed : SessionError → Prepared D

pub data SessionResult : Type 0 where
  exited : Option ℕ → SessionResult
  stopped : SessionError → SessionResult

-- `cmd` before the variables of the backing
abbrev pub base_command : Bytes → List Bytes → Command
base_command program args = env_remove supervise_var (set_args args (command_new program))

module _ {D : DashMap} where
  unfoldable pub hand_over : SessionHost → Backing D → Command → Command
  hand_over h (table m flags) cmd =
      set_env shm_len_env (to_string m.len) (set_env shm_fd_env (to_string h.fd) cmd)
  hand_over h (daemon state socket_path) cmd = set_env daemon_socket_env socket_path cmd

  -- what is run on a backing
  unfoldable pub target_command :
      Process → SessionHost → Bytes → List Bytes → Bytes → Backing D → Command
  unfolding hand_over
  target_command p h program args lib_path backing =
      apply_preload p (hand_over h backing (base_command program args)) lib_path

  unfoldable pub start_backing : Process → SessionHost → Bytes → Backing D ⊎ SessionError
  unfolding join clear_cloexec
  start_backing p h socket_dir =
      let uid = env_u32 p uid_env 0 in
      let gid = env_u32 p gid_env 0 in
      if session_shm_enabled p
      then (elim (create h.os (2 ^ 16) uid gid) [
        | ok m ↦ inl (table m (clear_cloexec h))
        | err e ↦ inr (no_session_map e)
      ])
      else if h.bind
      then inl (daemon (new_shared_state uid gid) (join socket_dir (codes "pseudoroot.sock")))
      else inr no_session_daemon

  unfoldable pub prepare_session : Process → SessionHost → List Bytes → Prepared D
  unfolding start_backing target_command
  prepare_session p h [] = failed no_program
  prepare_session p h (program ∷ args) = elim h.library [
    | none ↦ failed no_library
    | some lib_path ↦ elim h.socket_dir [
      | none ↦ failed no_session_dir
      | some socket_dir ↦ elim (start_backing p h socket_dir) [
        | inl backing ↦ ready backing (target_command p h program args lib_path backing)
        | inr e ↦ failed e
      ]
    ]
  ]

unfoldable pub run_session : (D : DashMap) → Process → SessionHost → List Bytes → SessionResult
run_session D p h args = elim (prepare_session {D = D} p h args) [
  | failed e ↦ stopped e
  | ready backing cmd ↦ elim (h.status cmd) [
    | none ↦ stopped not_executed
    | some code ↦ exited code
  ]
]

-- the code that the process exits with, or `none` where `init` returns
unfoldable pub init : (D : DashMap) → Process → SessionHost → Option ℕ
unfolding run_session
init D p h =
    if is_set (p.env supervise_var)
    then (elim (run_session D p h (drop 1 p.argv)) [
      | exited code ↦ some (unwrap_or code 1)
      | stopped e ↦ some 1
    ])
    else none

-- ===== src/Supervisor/Process.antt =====
-- What pseudoroot/src/lib.rs reads of its own process: the environment, the target and the answers
-- of the standard library, and the options that it takes from the environment.
use pseudoroot.Prelude.{
  ℕ, ◌+◌, ◌^◌, Bool, true, false, ◌&&◌, not, Option, none, some, List, leb, if◌then◌else◌,
  unwrap_or, ◌>>=◌, map,
}
use pseudoroot.Prelude.Bytes.{Bytes, bytes_eq, codes}
use pseudoroot.Prelude.Decimal.{parse}
use pseudoroot.Supervisor.Command.{Environment}

pub record Process : Type 0 where
  -- `env::args_os`, the program's own name included
  pub argv : List Bytes
  pub env : Environment
  -- `target_os` is "macos", else "linux"
  pub macos : Bool
  -- `OsString::into_string(..).is_ok()`
  pub is_utf8 : Bytes → Bool
  pub current_exe : Option Bytes
  pub temp_dir : Bytes
  pub uid : ℕ
  pub pid : ℕ

abbrev pub session_shm_env : Bytes
session_shm_env = codes "PSEUDOROOT_SESSION_SHM"

abbrev pub supervise_var : Bytes
supervise_var = codes "__PSEUDOROOT_SUPERVISE"

abbrev pub standalone_env : Bytes
standalone_env = codes "PSEUDOROOT_STANDALONE"

abbrev pub lib_path_env : Bytes
lib_path_env = codes "PSEUDOROOT_LIB"

abbrev pub daemon_socket_env : Bytes
daemon_socket_env = codes "PSEUDOROOT_DAEMON_SOCKET"

abbrev pub shm_fd_env : Bytes
shm_fd_env = codes "PSEUDOROOT_SHM_FD"

abbrev pub shm_len_env : Bytes
shm_len_env = codes "PSEUDOROOT_SHM_LEN"

abbrev pub uid_env : Bytes
uid_env = codes "PSEUDOROOT_UID"

abbrev pub gid_env : Bytes
gid_env = codes "PSEUDOROOT_GID"

-- `env::var(key).ok()`
unfoldable pub var : Process → Bytes → Option Bytes
var p key = p.env key >>= λ value. if p.is_utf8 value then some value else none

abbrev pub is_set : Option Bytes → Bool
is_set none = false
is_set (some value) = true

unfoldable pub env_u32 : Process → Bytes → ℕ → ℕ
unfolding var
env_u32 p key default = unwrap_or (var p key >>= λ value. parse (2 ^ 32) value) default

-- `u8::to_ascii_lowercase`
abbrev to_ascii_lowercase : ℕ → ℕ
to_ascii_lowercase c = if leb b'A' c && leb c b'Z' then c + 32 else c

unfoldable eq_ignore_ascii_case : Bytes → Bytes → Bool
eq_ignore_ascii_case a b = bytes_eq (map to_ascii_lowercase a) (map to_ascii_lowercase b)

unfoldable pub session_shm_enabled : Process → Bool
unfolding eq_ignore_ascii_case var
session_shm_enabled p = elim (var p session_shm_env) [
  | some value ↦
      not (bytes_eq value (codes "0")) && not (eq_ignore_ascii_case value (codes "false"))
  | none ↦ true
]

unfoldable pub supervisor_exe : Process → Option Bytes
supervisor_exe p = if p.macos then p.current_exe else some (codes "/proc/self/exe")

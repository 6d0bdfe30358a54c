-- ===== src/Tests/Supervisor.antt =====
-- The theorems on the supervisor at concrete inputs.
use pseudoroot.Prelude.{
  ℕ, ◌^◌, ◌≡◌, refl, Bool, true, false, none, some, [], ◌∷◌, if◌then◌else◌, arith, drop, inl,
}
use pseudoroot.Prelude.Bytes.{Bytes, codes, bytes_eq}
use pseudoroot.Codec.Sample
use pseudoroot.Daemon.{new_shared_state}
use pseudoroot.Prelude.Decimal.{parse}
use pseudoroot.Shm.Table.{ShmInodeMap}
use pseudoroot.Shm.Map.{Os, Inherited, Result, ok, err, create}
use pseudoroot.Shm.Create.{IsNew}
use pseudoroot.Supervisor.Command.{
  Command, Environment, overridden, override, copy_envs, copy_dir, command_has_env, any_set,
  child_env, supervise_command,
}
use pseudoroot.Supervisor.Process.{
  Process, var, session_shm_env, env_u32, session_shm_enabled, supervisor_exe, supervise_var,
  uid_env, gid_env,
}
use pseudoroot.Supervisor.Library.{
  join, embed_dir, lib_name, put, directory, Disk, Extraction, extract_embedded_lib,
}
use pseudoroot.Supervisor.Preload.{apply_preload}
use pseudoroot.Supervisor.Session.{
  SessionHost, Backing, table, daemon, ready, clear_cloexec, session_supervision_enabled, fakeroot,
  start_backing, prepare_session, target_command,
}
use pseudoroot.Supervisor.Preloaded.{Preloaded, apply_preload-Preloaded}
use pseudoroot.Supervisor.Target.{Target, target_command-Target}
use pseudoroot.Supervisor.Start.{started}
use pseudoroot.Supervisor.Handover.{Joins, prepare_session-Joins}
use pseudoroot.Supervisor.Rewritten.{RunsSame, fakeroot-RunsSame}
use pseudoroot.Supervisor.Publication.{Published, extract_embedded_lib-Published}
use pseudoroot.Tests.Samples.{dash_map}
use pseudoroot.Tests.Session.{session}

abbrev pub shell_env : Environment
shell_env key =
    if bytes_eq key (codes "HOME")
    then some (codes "/root")
    else if bytes_eq key (codes "LD_PRELOAD")
    then some (codes "libfaketime.so")
    else none

abbrev pub shell : Process
shell = record {
  argv = codes "build" ∷ [];
  env = shell_env;
  macos = false;
  is_utf8 = λ _. true;
  current_exe = none;
  temp_dir = codes "/tmp";
  uid = 1000;
  pid = 77;
}

abbrev install : Command
install = record {
  program = codes "install";
  args = codes "-o" ∷ codes "root" ∷ [];
  envs = (codes "LANG", some (codes "C")) ∷ (codes "HOME", none) ∷ (uid_env, some (codes "7")) ∷ [];
  cleared = false;
  current_dir = some (codes "/src");
}

abbrev pub lib : Bytes
lib = codes "/lib/libpseudoroot_lib.so"

apply_preload-Preloaded_example : Preloaded shell install lib (apply_preload shell install lib)
unfolding overridden
apply_preload-Preloaded_example =
    apply_preload-Preloaded shell install lib (refl, (refl, (refl, tt))) refl (λ e. cc) (λ e. cc)
      (λ e. cc)

abbrev pub calls_succeed : Os
calls_succeed = record { anon_fd = true; ftruncate = λ _. true; mmap = λ _. true }

abbrev pub host : SessionHost
host = record {
  library = some lib;
  socket_dir = some (codes "/tmp/.tmpA");
  os = calls_succeed;
  fd = 3;
  flags = 1;
  f_getfd = true;
  f_setfd = true;
  bind = true;
  status = λ _. some (some 0);
}

abbrev or_session : Result ShmInodeMap → ShmInodeMap
or_session (ok m) = m
or_session (err e) = session

abbrev behind : Bool × ℕ → Inherited
behind fd = record {
  dup = true;
  env_len = none;
  fstat = none;
  mmap = λ _. true;
  memory =
      or_session
        (create calls_succeed (2 ^ 16) (env_u32 shell uid_env 0) (env_u32 shell gid_env 0));
}

prepare_session-Joins_example :
    (m : ShmInodeMap) × (cmd : Command) × (prepare_session {D = dash_map} shell host
        (codes "id" ∷ [])
      ≡ ready (table m (clear_cloexec host)) cmd)
    × IsNew Sample.xattrs (2 ^ 16) (env_u32 shell uid_env 0) (env_u32 shell gid_env 0) m
    × Joins shell host behind m cmd
unfolding session_shm_enabled var
prepare_session-Joins_example =
    prepare_session-Joins shell host behind dash_map Sample.xattrs (codes "id") [] lib
      (codes "/tmp/.tmpA") refl refl refl refl (λ _. refl) (λ _. refl) (λ _. refl) (omega arith)
      (λ m e. record { dup = refl; maps = λ _. refl; memory = rw e refl })

-- a command that asks for a daemon
abbrev remote : Command
remote = record install { envs = (session_shm_env, some (codes "0")) ∷ install.envs }

abbrev supervise : Command
supervise = supervise_command (codes "/proc/self/exe") supervise_var remote

abbrev backing : Backing dash_map
backing = daemon (new_shared_state 7 0) (codes "/tmp/.tmpA/pseudoroot.sock")

remote-backing : start_backing (started shell supervise) host (codes "/tmp/.tmpA") ≡ inl backing
unfolding start_backing session_shm_enabled var child_env overridden supervise_command copy_envs
    override copy_dir env_u32 parse join
remote-backing = refl

target_command-Target_example :
    Target shell host
      (codes "id")
      []
      lib
      backing
      (target_command shell host (codes "id") [] lib backing)
target_command-Target_example = target_command-Target shell host (codes "id") [] lib backing

fakeroot-RunsSame_example :
    (s : Command) × (target : Command) × (fakeroot shell none remote ≡ some s)
    × (prepare_session (started shell s) host (drop 1 (started shell s).argv)
        ≡ ready backing target)
    × RunsSame shell (started shell s) remote target
unfolding overridden session_supervision_enabled command_has_env any_set var supervisor_exe
fakeroot-RunsSame_example =
    fakeroot-RunsSame shell none remote (codes "/proc/self/exe") host lib (codes "/tmp/.tmpA")
      backing refl refl refl (refl, (refl, (refl, (refl, tt)))) refl refl refl remote-backing

abbrev extraction : Extraction
extraction = record {
  embedded = 127 ∷ 69 ∷ 76 ∷ 70 ∷ [];
  hash = 0xbeef;
  create_dir_all = λ dir disk. (put dir (some directory) disk, true);
  opened = true;
  lengths = 4 ∷ 2 ∷ [];
  write_all = true;
  rename = true;
}

abbrev empty_disk : Disk
empty_disk path = none

abbrev embedded_path : Bytes
embedded_path = join (embed_dir shell 0xbeef) (lib_name shell)

extract_embedded_lib-Published_example :
    Published embedded_path extraction.embedded empty_disk
      (extract_embedded_lib shell extraction empty_disk)
unfolding join lib_name embed_dir
extract_embedded_lib-Published_example =
    extract_embedded_lib-Published shell extraction empty_disk refl refl

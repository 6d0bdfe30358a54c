-- ===== src/Tests/Cli.antt =====
-- The theorems on the command line at concrete inputs.
use pseudoroot.Prelude.{
  ◌≡◌, refl, ◌⊎◌, true, false, none, some, List, [], ◌∷◌, arith, drop, if◌then◌else◌, leb→le,
}
use pseudoroot.Prelude.Bytes.{Bytes, codes, bytes_eq}
use pseudoroot.Prelude.Decimal.{parse, to_string}
use pseudoroot.Codec.Sample.{
  number, pair, list, option, via, bytes, codec_total, write_items, read_items, read_list,
  write_option, read_option, regroup, read_pair, read_total, read_number,
}
use pseudoroot.Daemon.{Daemon, new_shared_state}
use pseudoroot.Daemon.Server.{started_server}
use pseudoroot.Interpose.{Library}
use pseudoroot.Interpose.Backend.{store_bootstrap_ids}
use pseudoroot.Supervisor.Command.{
  Command, override, overridden, copy_envs, copy_dir, child_env, supervise_command, command_has_env,
  any_set,
}
use pseudoroot.Supervisor.Process.{
  Process, var, env_u32, session_shm_enabled, session_shm_env, supervisor_exe,
}
use pseudoroot.Supervisor.Library.{join}
use pseudoroot.Supervisor.Session.{
  Backing, daemon, ready, session_supervision_enabled, fakeroot, start_backing, prepare_session,
}
use pseudoroot.Supervisor.Start.{started, init}
use pseudoroot.Cli.{RunArgs, CliHost, adjust_args, base_command, stop_daemon}
use pseudoroot.Cli.Arguments.{IsExplicit, adjust_args-IsExplicit}
use pseudoroot.Cli.Identity.{base_command-init}
use pseudoroot.Cli.Stop.{stop_daemon-stops}
use pseudoroot.Tests.Samples.{dash_map, wincode, tag, untag, bit, unbit, attributes}
use pseudoroot.Tests.Supervisor.{shell, host, lib}

abbrev words : List Bytes
words = codes "pdr" ∷ codes "id" ∷ codes "-u" ∷ []

adjust_args-IsExplicit_example :
    IsExplicit (adjust_args words)
    × (adjust_args (adjust_args words) ≡ adjust_args words)
    × ((IsExplicit words × (adjust_args words ≡ words))
        ⊎ ((¬ IsExplicit words)
            × (name : Bytes) × (rest : List Bytes) × (words ≡ name ∷ rest)
            × (adjust_args words ≡ name ∷ codes "run" ∷ rest)))
adjust_args-IsExplicit_example = adjust_args-IsExplicit words

-- a process that asks for a daemon in its sessions
abbrev terminal : Process
terminal = record shell {
  env = λ key. if bytes_eq key session_shm_env then some (codes "0") else none;
}

abbrev flags : RunArgs
flags = record { uid = 1000; gid = 5; daemon = false; socket_path = none }

abbrev base : Command
base = base_command (codes "id") [] flags

abbrev backing : Backing dash_map
backing = daemon (new_shared_state 1000 5) (codes "/tmp/.tmpA/pseudoroot.sock")

base_command-init_example :
    (s : Command) × (target : Command) × (fakeroot terminal none base ≡ some s)
    × (prepare_session (started terminal s) host (drop 1 (started terminal s).argv)
        ≡ ready backing target)
    × (target.program ≡ codes "id")
    × (target.args ≡ [])
    × ((l : Library dash_map)
        → init (started (started terminal s) target) l ≡ store_bootstrap_ids 1000 5 l)
unfolding base_command overridden session_supervision_enabled command_has_env any_set var
    supervisor_exe start_backing session_shm_enabled child_env supervise_command copy_envs override
    copy_dir env_u32 parse to_string join
base_command-init_example =
    base_command-init terminal none (codes "id") [] flags (codes "/proc/self/exe") host lib
      (codes "/tmp/.tmpA") backing refl (omega arith) (omega arith) (λ _. refl) refl refl refl refl
      refl

abbrev cli_host : CliHost
cli_host = record {
  library = none;
  status = λ _. none;
  set_handler = true;
  interrupted = false;
  socket = λ _. record { stale = false; bind = true; set_nonblocking = true; remove_file = true };
  connect = λ _. true;
  remove_file = λ _. true;
}

abbrev listening : Daemon dash_map
listening = (started_server 0 0).daemon

stop_daemon-stops_example :
    stop_daemon wincode cli_host none 4 listening
    ≡ (record listening { stopping = true }, (false, 0))
unfolding number pair list option via bytes codec_total write_items read_items read_list
    write_option read_option regroup read_pair read_total read_number tag untag bit unbit attributes
stop_daemon-stops_example =
    stop_daemon-stops wincode cli_host none 4 listening refl (leb→le _ _ refl) (leb→le _ _ refl)

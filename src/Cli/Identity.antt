-- ===== src/Cli/Identity.antt =====
-- The ids that pdr runs a command with, from its flags to the process of the command.
use pseudoroot.Prelude.{
  ℕ, ◌<◌, ◌^◌, ◌≡◌, refl, ◌∙◌, sym, subst, arith, true, false, Option, none, some, List, [], ◌∷◌,
  drop, inl,
}
use pseudoroot.Prelude.Bytes.{Bytes}
use pseudoroot.Prelude.Decimal.{to_string, parse-to_string}
use pseudoroot.State.{DashMap}
use pseudoroot.Interpose.{Library}
use pseudoroot.Interpose.Backend.{store_bootstrap_ids}
use pseudoroot.Supervisor.Command.{
  Command, Environment, override, overridden, child_env, supervise_command,
}
use pseudoroot.Supervisor.Overrides.{IsMap}
use pseudoroot.Supervisor.Process.{
  Process, var, env_u32, supervisor_exe, supervise_var, uid_env, gid_env,
}
use pseudoroot.Supervisor.Session.{
  SessionHost, Backing, ready, session_supervision_enabled, fakeroot, start_backing,
  prepare_session,
}
use pseudoroot.Supervisor.Start.{started, init}
use pseudoroot.Supervisor.Rewritten.{fakeroot-RunsSame}
use pseudoroot.Cli.{RunArgs, base_command}

env_u32-to_string :
    (p : Process) (key : Bytes) (n : ℕ)
    → ((k : ℕ) → p.is_utf8 (to_string k) ≡ true)
    → n < 2 ^ 32
    → p.env key ≡ some (to_string n)
    → env_u32 p key 0 ≡ n
unfolding env_u32 var
env_u32-to_string p key n ascii small e =
    rw (e, ascii n, parse-to_string (2 ^ 32) n small (omega arith))

-- the command without a daemon
flagged : Bytes → List Bytes → RunArgs → Command
flagged program args r = record {
  program = program;
  args = args;
  envs = (uid_env, some (to_string r.uid)) ∷ (gid_env, some (to_string r.gid)) ∷ [];
  cleared = false;
  current_dir = none;
}

-- What `fakeroot` needs of a command, and the ids in its process.
record IsPlain (own : Environment) (prog : Bytes) (given : List Bytes) (r : RunArgs) (cmd : Command)
    : Type 0 where
  program : cmd.program ≡ prog
  args : cmd.args ≡ given
  cleared : cmd.cleared ≡ false
  map : IsMap cmd.envs
  free : overridden supervise_var cmd.envs ≡ none
  uid : child_env own cmd uid_env ≡ some (to_string r.uid)
  gid : child_env own cmd gid_env ≡ some (to_string r.gid)

base_command-IsPlain :
    (own : Environment) (program : Bytes) (args : List Bytes) (r : RunArgs)
    → r.daemon ≡ false
    → IsPlain own program args r (base_command program args r)
unfolding base_command override overridden child_env flagged
base_command-IsPlain own program args r plain =
    subst (IsPlain own program args r) (sym same) (record {
      program = refl;
      args = refl;
      cleared = refl;
      map = (refl, (refl, tt));
      free = refl;
      uid = refl;
      gid = refl;
    })
  where
    same : base_command program args r ≡ flagged program args r
    same = rw plain refl

module _ {D : DashMap} where
  -- Where supervision is enabled, the command that pdr runs without a daemon is rewritten to one
  -- that starts a supervisor; the command which that supervisor prepares on its backing runs the
  -- words of the command line, and in its process the preloaded library takes the ids of the
  -- flags for its bootstrap ids.
  pub base_command-init :
      (p : Process) (library : Option Bytes) (program : Bytes) (args : List Bytes) (r : RunArgs)
      (exe : Bytes) (h : SessionHost) (lib_path socket_dir : Bytes) (backing : Backing D)
      → r.daemon ≡ false
      → r.uid < 2 ^ 32
      → r.gid < 2 ^ 32
      → ((n : ℕ) → p.is_utf8 (to_string n) ≡ true)
      → session_supervision_enabled p (base_command program args r) ≡ true
      → supervisor_exe p ≡ some exe
      → h.library ≡ some lib_path
      → h.socket_dir ≡ some socket_dir
      → start_backing
          (started p (supervise_command exe supervise_var (base_command program args r)))
          h
          socket_dir
        ≡ inl backing
      → (s : Command) × (target : Command) × (fakeroot p library (base_command program args r)
          ≡ some s)
        × (prepare_session (started p s) h (drop 1 (started p s).argv) ≡ ready backing target)
        × (target.program ≡ program)
        × (target.args ≡ args)
        × ((l : Library D)
            → init (started (started p s) target) l ≡ store_bootstrap_ids r.uid r.gid l)
  unfolding init
  base_command-init p library program args r exe h lib_path socket_dir backing plain u_small g_small
        ascii enabled e lib dir start =
      let b = base_command-IsPlain p.env program args r plain in
      let (s, target, rewritten, prepared, same) =
        fakeroot-RunsSame p library (base_command program args r) exe h lib_path socket_dir backing
          enabled e b.cleared b.map b.free lib dir start in
      let u : env_u32 (started (started p s) target) uid_env 0 ≡ r.uid =
        env_u32-to_string (started (started p s) target) uid_env r.uid ascii u_small
          (same.uid ∙ rw b.uid) in
      let g : env_u32 (started (started p s) target) gid_env 0 ≡ r.gid =
        env_u32-to_string (started (started p s) target) gid_env r.gid ascii g_small
          (same.gid ∙ rw b.gid) in
      (s, target, rewritten, prepared, same.program ∙ b.program, same.args ∙ b.args, λ l. rw (u, g))

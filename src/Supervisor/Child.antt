-- ===== src/Supervisor/Child.antt =====
-- What the commands of pseudoroot/src/lib.rs start: the copies of a command, and the command that the
-- supervisor runs in the session.
use pseudoroot.Prelude.{
  false, ◌≡◌, refl, ◌∙◌, ap, Option, none, some, [], ◌∷◌, Option-cases, inl, inr,
}
use pseudoroot.Prelude.Bytes.{Bytes, bytes_eq}
use pseudoroot.Supervisor.Command.{
  Command, Environment, Overrides, command_new, set_args, override, overridden, set_env, child_env,
  clone_command, copy_envs, copy_dir, supervise_command,
}
use pseudoroot.Supervisor.Overrides.{
  IsMap, override_all, copy_envs-override_all, overridden-override_all, or_else,
}
use pseudoroot.Supervisor.Process.{supervise_var}
use pseudoroot.Supervisor.Environment.{pick, child_env-pick}

-- what two commands have in common, at the keys that `P` holds of
pub record Runs (own : Environment) (cmd after : Command) : Type 0 where
  pub program : after.program ≡ cmd.program
  pub args : after.args ≡ cmd.args
  pub current_dir : after.current_dir ≡ cmd.current_dir
  pub env : (q : Bytes) → child_env own after q ≡ child_env own cmd q

pick-or_else :
    (own : Environment) (cmd : Command) (start : Overrides) (q : Bytes)
    → cmd.cleared ≡ false
    → overridden q start ≡ none
    → pick (or_else (overridden q cmd.envs) (overridden q start)) (own q) ≡ child_env own cmd q
pick-or_else own cmd start q inherits absent = elim (Option-cases (overridden q cmd.envs)) [
  | inl e ↦ rw (child_env-pick own cmd q inherits, e, absent)
  | inr (value, e) ↦ rw (child_env-pick own cmd q inherits, e)
]

copy_dir-eq :
    (dir : Option Bytes) (cmd : Command)
    → cmd.current_dir ≡ none
    → copy_dir dir cmd ≡ record cmd { current_dir = dir }
unfolding copy_dir
copy_dir-eq none cmd h = ap (λ (d : Option Bytes). record cmd { current_dir = d }) h
copy_dir-eq (some dir) cmd h = refl

copied :
    (cmd start : Command)
    → start.cleared ≡ false
    → start.current_dir ≡ none
    → copy_dir cmd.current_dir (copy_envs cmd.envs start)
      ≡ record start { envs = override_all cmd.envs start.envs; current_dir = cmd.current_dir }
copied cmd start h empty =
    rw (copy_envs-override_all cmd.envs start h)
      (copy_dir-eq cmd.current_dir (record start { envs = override_all cmd.envs start.envs }) empty)

-- A clone of a command without env_clear that has one entry for a key runs the same program with
-- the same arguments, directory and environment.
clone_command-Runs :
    (own : Environment) (cmd : Command)
    → cmd.cleared ≡ false
    → IsMap cmd.envs
    → Runs own cmd (clone_command cmd)
unfolding clone_command overridden
clone_command-Runs own cmd inherits h =
    rw (clone_command, copied cmd start refl refl)
      (record {
        program = refl;
        args = refl;
        current_dir = refl;
        env = λ q.
            child_env-pick own
              (record start { current_dir = cmd.current_dir; envs = override_all cmd.envs [] }) q
              refl
            ∙ rw (overridden-override_all q cmd.envs [] h)
                (pick-or_else own cmd [] q inherits refl);
      })
  where
    start : Command
    start = set_args cmd.args (command_new cmd.program)

-- What the supervisor is started with, of the command that it is to run.
pub record Supervises (own : Environment) (cmd : Command) (exe : Bytes) (after : Command)
    : Type 0 where
  pub program : after.program ≡ exe
  pub args : after.args ≡ cmd.program ∷ cmd.args
  pub current_dir : after.current_dir ≡ cmd.current_dir
  pub marker :
      overridden supervise_var cmd.envs ≡ none
      → child_env own after supervise_var ≡ some (b'1' ∷ [])
  pub env :
      (q : Bytes) → bytes_eq supervise_var q ≡ false → child_env own after q ≡ child_env own cmd q

pub supervise_command-Supervises :
    (own : Environment) (cmd : Command) (exe : Bytes)
    → cmd.cleared ≡ false
    → IsMap cmd.envs
    → Supervises own cmd exe (supervise_command exe supervise_var cmd)
unfolding supervise_command override overridden
supervise_command-Supervises own cmd exe inherits h =
    rw (supervise_command, copied cmd start refl refl)
      (record {
        program = refl;
        args = refl;
        current_dir = refl;
        marker = λ absent.
            child_env-pick own
              (record start {
                current_dir = cmd.current_dir;
                envs = override_all cmd.envs start.envs;
              })
              supervise_var refl
            ∙ rw (overridden-override_all supervise_var cmd.envs start.envs h, absent);
        env = λ q ne.
            child_env-pick own
              (record start {
                current_dir = cmd.current_dir;
                envs = override_all cmd.envs start.envs;
              })
              q refl
            ∙ rw (overridden-override_all q cmd.envs start.envs h)
                (pick-or_else own cmd start.envs q inherits (rw ne));
      })
  where
    start : Command
    start =
        set_args cmd.args
          (set_args (cmd.program ∷ []) (set_env supervise_var (b'1' ∷ []) (command_new exe)))

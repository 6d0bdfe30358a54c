-- ===== src/Supervisor/Rewritten.antt =====
-- From `fakeroot` through the supervisor to the target: the command that is run in the end is the one
-- that was rewritten.
use pseudoroot.Prelude.{
  ◌≡◌, refl, ◌∙◌, ap, true, false, Option, none, some, ◌∷◌, [], drop, unwrap_or, inl,
}
use pseudoroot.Prelude.Bytes.{Bytes}
use pseudoroot.State.{DashMap}
use pseudoroot.Supervisor.Command.{Command, overridden, child_env, supervise_command}
use pseudoroot.Supervisor.Overrides.{IsMap}
use pseudoroot.Supervisor.Process.{Process, supervisor_exe, supervise_var, uid_env, gid_env}
use pseudoroot.Supervisor.Child.{Supervises, supervise_command-Supervises}
use pseudoroot.Supervisor.Session.{
  SessionHost, Backing, ready, session_supervision_enabled, build_supervise_command, fakeroot,
  start_backing, prepare_session, target_command,
}
use pseudoroot.Supervisor.Target.{
  reserved, IsOutside, Target, target_command-Target, prepare_session-ready,
}
use pseudoroot.Supervisor.Start.{started}

fakeroot-supervised :
    (p : Process) (library : Option Bytes) (cmd : Command) (exe : Bytes)
    → session_supervision_enabled p cmd ≡ true
    → supervisor_exe p ≡ some exe
    → fakeroot p library cmd ≡ some (supervise_command exe supervise_var cmd)
unfolding fakeroot build_supervise_command
fakeroot-supervised p library cmd exe enabled e = rw (enabled, build_supervise_command, e)

-- What the target of a supervised command runs, in the supervisor's process `p'`.
pub record RunsSame (p p' : Process) (cmd target : Command) : Type 0 where
  pub program : target.program ≡ cmd.program
  pub args : target.args ≡ cmd.args
  pub marked : p'.env supervise_var ≡ some (b'1' ∷ [])
  pub unmarked : child_env p'.env target supervise_var ≡ none
  pub uid :
      child_env p'.env target uid_env ≡ some (unwrap_or (child_env p.env cmd uid_env) (b'0' ∷ []))
  pub gid :
      child_env p'.env target gid_env ≡ some (unwrap_or (child_env p.env cmd gid_env) (b'0' ∷ []))
  pub inherited :
      (q : Bytes) → IsOutside q (reserved p) → child_env p'.env target q ≡ child_env p.env cmd q

module _ {D : DashMap} where
  -- Where supervision is enabled, a command without env_clear that has one entry for a key and
  -- does not override the marker is rewritten to one that starts a supervisor, and the command
  -- that this supervisor then prepares on its backing runs the program with its arguments,
  -- without the marker, with the ids that the command had, or 0, and with every variable that the
  -- session does not use as the command had it.
  pub fakeroot-RunsSame :
      (p : Process) (library : Option Bytes) (cmd : Command) (exe : Bytes) (h : SessionHost)
      (lib_path socket_dir : Bytes) (backing : Backing D)
      → session_supervision_enabled p cmd ≡ true
      → supervisor_exe p ≡ some exe
      → cmd.cleared ≡ false
      → IsMap cmd.envs
      → overridden supervise_var cmd.envs ≡ none
      → h.library ≡ some lib_path
      → h.socket_dir ≡ some socket_dir
      → start_backing (started p (supervise_command exe supervise_var cmd)) h socket_dir
        ≡ inl backing
      → (s : Command) × (target : Command) × (fakeroot p library cmd ≡ some s)
        × (prepare_session (started p s) h (drop 1 (started p s).argv) ≡ ready backing target)
        × RunsSame p (started p s) cmd target
  fakeroot-RunsSame p library cmd exe h lib_path socket_dir backing enabled e inherits map free lib
        dir start =
      let s : Command = supervise_command exe supervise_var cmd in
      let v : Supervises p.env cmd exe s =
        supervise_command-Supervises p.env cmd exe inherits map in
      let p' : Process = started p s in
      let target : Command = target_command p' h cmd.program cmd.args lib_path backing in
      let t : Target p' h cmd.program cmd.args lib_path backing target =
        target_command-Target p' h cmd.program cmd.args lib_path backing in
      (
        s,
        target,
        fakeroot-supervised p library cmd exe enabled e,
        ap (prepare_session p' h) v.args
            ∙ prepare_session-ready p' h cmd.program cmd.args lib_path socket_dir backing lib dir
                start,
        record {
          program = t.program;
          args = t.args;
          marked = v.marker free;
          unmarked = t.unmarked;
          uid = t.uid ∙ rw (v.env uid_env refl);
          gid = t.gid ∙ rw (v.env gid_env refl);
          inherited = λ q o. t.inherited q o ∙ v.env q o.0;
        },
      )

-- ===== src/Supervisor/Environment.antt =====
-- The environment of the process that a rewritten command starts.
use pseudoroot.Prelude.{
  true, false, ◌||◌, ◌≡◌, ◌≢◌, refl, ◌∙◌, Option, none, some, unwrap_or, Bool-cases, Option-cases,
  inl, inr,
}
use pseudoroot.Prelude.Bytes.{Bytes, bytes_eq, bytes_eq_refl}
use pseudoroot.Supervisor.Command.{
  Command, Environment, overridden, set_env, child_env, command_has_env,
}
use pseudoroot.Supervisor.Overrides.{
  IsMap, overridden-override, IsMap-override, joined, find_set-joined, any_set-find_set,
}
use pseudoroot.Supervisor.Process.{Process, is_set}
use pseudoroot.Supervisor.Preload.{ensure_default_env}

-- the command does not remove the key
abbrev pub IsKept : Bytes → Command → Type 0
IsKept key cmd = overridden key cmd.envs ≢ some none

-- What adding a default for a key leaves of a command.
pub record Ensured (p : Process) (cmd : Command) (key default : Bytes) (after : Command)
    : Type 0 where
  pub program : after.program ≡ cmd.program
  pub args : after.args ≡ cmd.args
  pub current_dir : after.current_dir ≡ cmd.current_dir
  pub cleared : after.cleared ≡ cmd.cleared
  pub map : IsMap after.envs
  pub other : (q : Bytes) → bytes_eq key q ≡ false → overridden q after.envs ≡ overridden q cmd.envs
  pub self :
      IsKept key cmd
      → cmd.cleared ≡ false
      → child_env p.env after key ≡ some (unwrap_or (child_env p.env cmd key) default)

has-overridden :
    (cmd : Command) (key : Bytes)
    → IsMap cmd.envs
    → command_has_env cmd key ≡ is_set (joined (overridden key cmd.envs))
unfolding command_has_env
has-overridden cmd key h = any_set-find_set key cmd.envs ∙ rw (find_set-joined key cmd.envs h)

-- what a command overrides, before what its process holds
abbrev pub pick : Option (Option Bytes) → Option Bytes → Option Bytes
pick none own = own
pick (some value) own = value

pub child_env-pick :
    (own : Environment) (cmd : Command) (q : Bytes)
    → cmd.cleared ≡ false
    → child_env own cmd q ≡ pick (overridden q cmd.envs) (own q)
unfolding child_env
child_env-pick own cmd q h = elim (Option-cases (overridden q cmd.envs)) [
  | inl e ↦ simp (e, child_env, h)
  | inr (value, e) ↦ simp (e, child_env)
]

pick-set :
    (o : Option (Option Bytes)) (own : Option Bytes) (default : Bytes)
    → o ≢ some none
    → is_set (joined o) || is_set own ≡ true
    → pick o own ≡ some (unwrap_or (pick o own) default)
pick-set none none default kept h = absurd (cc)
pick-set none (some value) default kept h = refl
pick-set (some none) own default kept h = absurd (kept refl)
pick-set (some (some value)) own default kept h = refl

pick-unset :
    (o : Option (Option Bytes)) (own : Option Bytes) (default : Bytes)
    → o ≢ some none
    → is_set (joined o) || is_set own ≡ false
    → unwrap_or (pick o own) default ≡ default
pick-unset none none default kept h = refl
pick-unset none (some value) default kept h = absurd (cc)
pick-unset (some none) own default kept h = absurd (kept refl)
pick-unset (some (some value)) own default kept h = absurd (cc)

pub ensure_default_env-Ensured :
    (p : Process) (cmd : Command) (key default : Bytes)
    → IsMap cmd.envs
    → Ensured p cmd key default (ensure_default_env p cmd key default)
unfolding ensure_default_env
ensure_default_env-Ensured p cmd key default h =
    elim (Bool-cases (command_has_env cmd key || is_set (p.env key))) [
      | inl e ↦ rw e (record {
        program = refl;
        args = refl;
        current_dir = refl;
        cleared = refl;
        map = h;
        other = λ q ne. refl;
        self = λ kept inherits. rw (child_env-pick p.env cmd key inherits) (
            pick-set (overridden key cmd.envs) (p.env key) default kept
              (rw (has-overridden cmd key h) at e));
      })
      | inr e ↦ rw e (record {
        program = refl;
        args = refl;
        current_dir = refl;
        cleared = refl;
        map = IsMap-override key (some default) cmd.envs h;
        other = λ q ne. rw (overridden-override q key (some default) cmd.envs, ne);
        self = λ kept inherits.
            let set : Command = set_env key default cmd in
            child_env-pick p.env set key inherits
            ∙ rw (
              overridden-override key key (some default) cmd.envs,
              bytes_eq_refl key,
              child_env-pick p.env cmd key inherits,
              pick-unset (overridden key cmd.envs) (p.env key) default kept
                  (rw (has-overridden cmd key h) at e),
            );
      })
    ]

pub Ensured-other :
    (p : Process) (cmd after : Command) (key default : Bytes)
    → Ensured p cmd key default after
    → cmd.cleared ≡ false
    → (q : Bytes) → bytes_eq key q ≡ false
    → child_env p.env after q ≡ child_env p.env cmd q
Ensured-other p cmd after key default en inherits q ne = rw (
  child_env-pick p.env after q (en.cleared ∙ inherits),
  child_env-pick p.env cmd q inherits,
  en.other q ne,
)

pub set_env_self :
    (own : Environment) (cmd : Command) (key value : Bytes)
    → child_env own (set_env key value cmd) key ≡ some value
unfolding child_env
set_env_self own cmd key value =
    rw (child_env, overridden-override key key (some value) cmd.envs, bytes_eq_refl key)

pub set_env_other :
    (own : Environment) (cmd : Command) (key value q : Bytes)
    → bytes_eq key q ≡ false
    → child_env own (set_env key value cmd) q ≡ child_env own cmd q
unfolding child_env
set_env_other own cmd key value q ne =
    rw (child_env, overridden-override q key (some value) cmd.envs, ne)

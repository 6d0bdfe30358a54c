-- ===== src/Supervisor/Overrides.antt =====
-- The overrides of a command as a map from keys: what setting, removing, finding and copying do to it.
use pseudoroot.Prelude.{
  true, false, ◌≡◌, refl, ◌∙◌, subst, Option, none, some, [], ◌∷◌, if◌then◌else◌, Bool-cases, inl,
  inr,
}
use pseudoroot.Prelude.Bytes.{Bytes, bytes_eq, bytes_eq_refl, bytes_eq→eq}
use pseudoroot.Supervisor.Command.{
  Command, Overrides, override, overridden, any_set, find_set, copy_envs, set_env, env_remove,
}
use pseudoroot.Supervisor.Process.{is_set}

-- a key has one entry
abbrev pub IsMap : Overrides → Type 0
IsMap [] = Unit
IsMap ((k, v) ∷ envs) = (overridden k envs ≡ none) × IsMap envs

bytes_eq_join : (a b c : Bytes) → bytes_eq a c ≡ true → bytes_eq b c ≡ true → bytes_eq a b ≡ true
bytes_eq_join a b c h h' = rw (bytes_eq→eq a c h, bytes_eq→eq b c h') (bytes_eq_refl c)

bytes_eq_sym_false : (a b : Bytes) → bytes_eq a b ≡ false → bytes_eq b a ≡ false
bytes_eq_sym_false a b h = elim (Bool-cases (bytes_eq b a)) [
  | inl e ↦ let swapped = bytes_eq_join a b a (bytes_eq_refl a) e in absurd (cc)
  | inr e ↦ e
]

pub overridden-override :
    (q key : Bytes) (value : Option Bytes) (envs : Overrides)
    → overridden q (override key value envs)
      ≡ (if bytes_eq key q then some value else overridden q envs)
unfolding override overridden
overridden-override q key value [] = refl
overridden-override q key value ((k, v) ∷ envs) = elim (Bool-cases (bytes_eq k key)) [
  | inl e ↦
      rw (e, override, bytes_eq→eq k key e)
        (elim (Bool-cases (bytes_eq key q)) [ inl same ↦ rw same | inr other ↦ rw other ])
  | inr e ↦
      rw (e, override)
        (elim (Bool-cases (bytes_eq k q)) [
          | inl same ↦
              rw (same, overridden)
                (elim (Bool-cases (bytes_eq key q)) [
                  | inl both ↦ let joined = bytes_eq_join k key q same both in absurd (cc)
                  | inr other ↦ rw other
                ])
          | inr other ↦ rw (other, overridden, overridden-override q key value envs)
        ])
]

pub IsMap-override :
    (key : Bytes) (value : Option Bytes) (envs : Overrides)
    → IsMap envs
    → IsMap (override key value envs)
unfolding override overridden
IsMap-override key value [] h = (refl, tt)
IsMap-override key value ((k, v) ∷ envs) h = elim (Bool-cases (bytes_eq k key)) [
  | inl e ↦ rw (e, override) (subst (λ x. overridden x envs ≡ none) (bytes_eq→eq k key e) h.0, h.1)
  | inr e ↦
      let other : bytes_eq key k ≡ false = bytes_eq_sym_false k key e in
      rw (e, override)
        (rw (overridden-override k key value envs, other) h.0, IsMap-override key value envs h.1)
]

-- what was set, of what is in the overrides
abbrev pub joined : Option (Option Bytes) → Option Bytes
joined none = none
joined (some value) = value

find_set-absent :
    (key : Bytes) (envs : Overrides) → overridden key envs ≡ none → find_set key envs ≡ none
unfolding overridden find_set
find_set-absent key [] h = refl
find_set-absent key ((k, v) ∷ envs) h = elim (Bool-cases (bytes_eq k key)) [
  | inl e ↦ absurd (cc)
  | inr e ↦ rw (e, find_set) (find_set-absent key envs (rw (e, overridden) at h))
]

-- Of a map, the first entry that is set is what the map holds.
pub find_set-joined :
    (key : Bytes) (envs : Overrides) → IsMap envs → find_set key envs ≡ joined (overridden key envs)
unfolding overridden find_set
find_set-joined key [] h = refl
find_set-joined key ((k, some v) ∷ envs) h = elim (Bool-cases (bytes_eq k key)) [
  | inl e ↦ rw e
  | inr e ↦ rw (e, find_set, overridden) (find_set-joined key envs h.1)
]
find_set-joined key ((k, none) ∷ envs) h = elim (Bool-cases (bytes_eq k key)) [
  | inl e ↦
      rw (e, find_set, overridden)
        (find_set-absent key envs (subst (λ x. overridden x envs ≡ none) (bytes_eq→eq k key e) h.0))
  | inr e ↦ rw (e, find_set, overridden) (find_set-joined key envs h.1)
]

pub any_set-find_set :
    (key : Bytes) (envs : Overrides) → any_set key envs ≡ is_set (find_set key envs)
unfolding any_set find_set
any_set-find_set key [] = refl
any_set-find_set key ((k, some v) ∷ envs) = elim (Bool-cases (bytes_eq k key)) [
  | inl e ↦ rw e
  | inr e ↦ rw (e, any_set, find_set, any_set-find_set key envs)
]
any_set-find_set key ((k, none) ∷ envs) = elim (Bool-cases (bytes_eq k key)) [
  | inl e ↦ rw (e, any_set, find_set, any_set-find_set key envs)
  | inr e ↦ rw (e, any_set, find_set, any_set-find_set key envs)
]

-- what the loop over `get_envs` leaves
pub override_all : Overrides → Overrides → Overrides
override_all [] own = own
override_all ((key, value) ∷ envs) own = override_all envs (override key value own)

pub copy_envs-override_all :
    (envs : Overrides) (cmd : Command)
    → cmd.cleared ≡ false
    → copy_envs envs cmd ≡ record cmd { envs = override_all envs cmd.envs }
unfolding copy_envs override_all
copy_envs-override_all [] cmd h = refl
copy_envs-override_all ((key, some value) ∷ envs) cmd h =
    copy_envs-override_all envs (set_env key value cmd) h
copy_envs-override_all ((key, none) ∷ envs) cmd h =
    copy_envs-override_all envs (env_remove key cmd) h ∙ rw h

abbrev pub or_else : Option (Option Bytes) → Option (Option Bytes) → Option (Option Bytes)
or_else none o = o
or_else (some value) o = some value

pub overridden-override_all :
    (q : Bytes) (envs own : Overrides)
    → IsMap envs
    → overridden q (override_all envs own) ≡ or_else (overridden q envs) (overridden q own)
unfolding override_all overridden
overridden-override_all q [] own h = refl
overridden-override_all q ((key, value) ∷ envs) own h = elim (Bool-cases (bytes_eq key q)) [
  | inl e ↦
      let absent : overridden q envs ≡ none =
        subst (λ x. overridden x envs ≡ none) (bytes_eq→eq key q e) h.0 in
      rw (
        e,
        overridden-override_all q envs (override key value own) h.1,
        absent,
        overridden-override q key value own,
        e,
      )
  | inr e ↦ rw (
    e,
    overridden-override_all q envs (override key value own) h.1,
    overridden-override q key value own,
    e,
  )
]

pub IsMap-override_all : (envs own : Overrides) → IsMap own → IsMap (override_all envs own)
unfolding override_all
IsMap-override_all [] own h = h
IsMap-override_all ((key, value) ∷ envs) own h =
    IsMap-override_all envs (override key value own) (IsMap-override key value own h)

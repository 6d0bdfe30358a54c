-- ===== src/Cli/Arguments.antt =====
-- The subcommand that the command line of pdr leaves out.
use pseudoroot.Prelude.{
  ◌≡◌, refl, sym, ◌∙◌, arith, false, ◌⊎◌, inl, inr, Bool-cases, true, ◌||◌, List, [], ◌∷◌,
}
use pseudoroot.Prelude.Bytes.{Bytes, bytes_eq, bytes_eq→eq, codes}
use pseudoroot.Cli.{subcommands, listed, is_flag, adjust_args}

-- nothing behind the name of the program, a flag, or a known subcommand
abbrev pub IsExplicit : List Bytes → Type 0
IsExplicit [] = Unit
IsExplicit (name ∷ []) = Unit
IsExplicit (name ∷ first ∷ rest) = (listed first subcommands || is_flag first) ≡ true

adjust_args-fixed : (argv : List Bytes) → IsExplicit argv → adjust_args argv ≡ argv
unfolding adjust_args
adjust_args-fixed [] h = refl
adjust_args-fixed (name ∷ []) h = refl
adjust_args-fixed (name ∷ first ∷ rest) h = elim (Bool-cases (bytes_eq first (codes "run"))) [
  | inl e ↦ rw e
  | inr e ↦ rw (e, h)
]

explicit :
    (first : Bytes)
    → bytes_eq first (codes "run") || (listed first subcommands || is_flag first) ≡ true
    → listed first subcommands || is_flag first ≡ true
explicit first h = elim (Bool-cases (bytes_eq first (codes "run"))) [
  | inl e ↦ rw (bytes_eq→eq first (codes "run") e) refl
  | inr e ↦ rw e at h
]

-- What adjust_args returns has a flag, a subcommand or nothing behind the name of the program,
-- and is not changed by adjust_args again. It is what it was given where that is so already, and
-- has run put in behind that name where it is not.
pub adjust_args-IsExplicit :
    (argv : List Bytes)
    → IsExplicit (adjust_args argv)
      × (adjust_args (adjust_args argv) ≡ adjust_args argv)
      × ((IsExplicit argv × (adjust_args argv ≡ argv))
          ⊎ ((¬ IsExplicit argv)
              × (name : Bytes) × (words : List Bytes) × (argv ≡ name ∷ words)
              × (adjust_args argv ≡ name ∷ codes "run" ∷ words)))
unfolding adjust_args
adjust_args-IsExplicit [] = (tt, refl, inl (tt, refl))
adjust_args-IsExplicit (name ∷ []) = (tt, refl, inl (tt, refl))
adjust_args-IsExplicit (name ∷ first ∷ rest) =
    elim (Bool-cases
      (bytes_eq first (codes "run") || (listed first subcommands || is_flag first))) [
        | inl e ↦ rw e (explicit first e, rw e, inl (explicit first e, refl))
        | inr e ↦ rw e (
          refl,
          refl,
          inr (
            λ given.
                let named : (bytes_eq first (codes "run")
                      || (listed first subcommands || is_flag first))
                    ≡ true =
                  ground arith in
                let same : true ≡ false = sym named ∙ e in ground arith,
            name,
            first ∷ rest,
            refl,
            refl,
          ),
        )
      ]

-- ===== src/Shm/Race.antt =====
-- Two processes that insert into the shared table of pseudoroot-core/src/shm_map.rs at once: their
-- single stores in any order that keeps the order of each.
use pseudoroot.Prelude.{
  ℕ, zero, suc, ◌≡◌, ◌≢◌, refl, sym, ap, ◌∙◌, Bool, true, false, List, [], ◌∷◌, set, get_or,
  get_or-set_ne,
}
use pseudoroot.Xattrs.{Xattrs}
use pseudoroot.Codec.{Codec}
use pseudoroot.Shm.Page.{write_page}
use pseudoroot.Shm.Table.{Slot, zeroed, ShmInodeMap}
use pseudoroot.Shm.Map.{write_xattrs}
use pseudoroot.Shm.Stores.{Store, xattrs_page, store_field, store, store_all}

-- a change of one element
abbrev modify : {A : Type 0} → List A → ℕ → A → (A → A) → List A
modify xs i d f = set xs i (f (get_or xs i d))

set_comm :
    {A : Type 0} (xs : List A) (i j : ℕ) (u v : A)
    → i ≢ j
    → set (set xs i u) j v ≡ set (set xs j v) i u
set_comm [] i j u v d = refl
set_comm (x ∷ xs) zero zero u v d = absurd (d refl)
set_comm (x ∷ xs) zero (suc j) u v d = refl
set_comm (x ∷ xs) (suc i) zero u v d = refl
set_comm (x ∷ xs) (suc i) (suc j) u v d =
    ap (λ (t : List _). x ∷ t) (set_comm xs i j u v (λ e. d (ap suc e)))

modify_comm :
    {A : Type 0} (xs : List A) (i j : ℕ) (d : A) (f g : A → A)
    → i ≢ j
    → modify (modify xs i d f) j d g ≡ modify (modify xs j d g) i d f
modify_comm xs i j d f g apart =
    rw
      (
        get_or-set_ne xs i j (f (get_or xs i d)) d apart,
        get_or-set_ne xs j i (g (get_or xs j d)) d (λ e. apart (sym e)),
      )
      (set_comm xs i j (f (get_or xs i d)) (g (get_or xs j d)) apart)

module _ (wincode : Codec Xattrs) where
  store_comm :
      (i j : ℕ) (s t : Store) (m : ShmInodeMap)
      → i ≢ j
      → store wincode j t (store wincode i s m) ≡ store wincode i s (store wincode j t m)
  unfolding store write_xattrs
  store_comm i j (xattrs_page xs) (xattrs_page ys) m apart =
      ap (λ (pages : List _). record m { pages = pages })
        (modify_comm m.pages i j [] (write_page wincode xs) (write_page wincode ys) apart)
  store_comm i j (xattrs_page xs) t m apart = refl
  store_comm i j s (xattrs_page ys) m apart = refl
  store_comm i j s t m apart =
      ap (λ (slots : List Slot). record m { slots = slots })
        (modify_comm m.slots i j zeroed (store_field s) (store_field t) apart)

  store-store_all :
      (i j : ℕ) (xs : List Store) (t : Store) (m : ShmInodeMap)
      → i ≢ j
      → store_all wincode i xs (store wincode j t m) ≡ store wincode j t (store_all wincode i xs m)
  unfolding store_all
  store-store_all i j [] t m apart = refl
  store-store_all i j (x ∷ xs) t m apart =
      ap (store_all wincode i xs) (sym (store_comm i j x t m apart))
      ∙ store-store_all i j xs t (store wincode i x m) apart

  module _ (i j : ℕ) where
    -- The stores of two processes, at the slots `i` and `j`, as their turns have them: `true` is a
    -- turn of the first. Behind the turns, the first makes its other stores, and then the second.
    unfoldable pub race : List Bool → List Store → List Store → ShmInodeMap → ShmInodeMap
    unfolding store
    race [] xs ys m = store_all wincode j ys (store_all wincode i xs m)
    race (turn ∷ turns) [] ys m = store_all wincode j ys m
    race (turn ∷ turns) (x ∷ xs) [] m = store_all wincode i (x ∷ xs) m
    race (true ∷ turns) (x ∷ xs) (y ∷ ys) m = race turns xs (y ∷ ys) (store wincode i x m)
    race (false ∷ turns) (x ∷ xs) (y ∷ ys) m = race turns (x ∷ xs) ys (store wincode j y m)

    -- At different slots, every order leaves what one process after the other leaves.
    pub race-store_all :
        i ≢ j
        → (turns : List Bool) (xs ys : List Store) (m : ShmInodeMap)
        → race turns xs ys m ≡ store_all wincode j ys (store_all wincode i xs m)
    unfolding race store_all
    race-store_all apart [] xs ys m = refl
    race-store_all apart (turn ∷ turns) [] ys m = refl
    race-store_all apart (turn ∷ turns) (x ∷ xs) [] m = refl
    race-store_all apart (true ∷ turns) (x ∷ xs) (y ∷ ys) m =
        race-store_all apart turns xs (y ∷ ys) (store wincode i x m)
    race-store_all apart (false ∷ turns) (x ∷ xs) (y ∷ ys) m =
        race-store_all apart turns (x ∷ xs) ys (store wincode j y m)
        ∙ ap (store_all wincode j ys) (store-store_all i j (x ∷ xs) y m apart)

-- ===== src/Tests/Writers.antt =====
-- The theorems on two insertions at once, on a table of two slots that were never used.
use pseudoroot.Prelude.{ℕ, zero, suc, ◌≡◌, ◌≢◌, refl, ap, true, false, [], ◌∷◌, arith}
use pseudoroot.Inode.{InodeKey, put}
use pseudoroot.Codec.Sample
use pseudoroot.Shm.Layout.{slot_live}
use pseudoroot.Shm.Table.{ShmInodeMap, zeroed, vacant, slot_at, hash, mix, probe, probe_loop}
use pseudoroot.Shm.Map.{get_inode}
use pseudoroot.Shm.Valid.{IsValid}
use pseudoroot.Shm.Refinement.{Models, stored}
use pseudoroot.Shm.Race.{race}
use pseudoroot.Shm.Writers.{insertion, race-Models, race-loses}
use pseudoroot.Tests.Session.{session, capability, key}

abbrev two_slots : ShmInodeMap
two_slots = record session {
  slots = zeroed ∷ zeroed ∷ [];
  pages = [] ∷ [] ∷ [];
  len = 8376;
  slot_count = 2;
}

two_slots-not_live : (i : ℕ) → (slot_at two_slots.slots i).occupied ≢ slot_live
two_slots-not_live zero h = omega arith
two_slots-not_live (suc zero) h = omega arith
two_slots-not_live (suc (suc i)) h = omega arith

two_slots-IsValid : IsValid two_slots
two_slots-IsValid = record {
  table = record {
    width = refl;
    positive = omega arith;
    placed = λ i l. absurd (two_slots-not_live i l);
    unique = λ q i j a b. absurd (two_slots-not_live i a.0);
  };
  pages_width = refl;
}

abbrev neighbour : InodeKey
neighbour = (9, 43)

-- the key of a third file, whose walk starts at the slot of the first
abbrev colliding : InodeKey
colliding = (9, 44)

differ : key ≢ neighbour
differ e = let n : ◌≡◌ {A = ℕ} 42 43 = ap (λ (k : InodeKey). k.1) e in omega arith

key-probe : probe two_slots key ≡ vacant 1
unfolding probe probe_loop hash mix
key-probe = refl

neighbour-probe : probe two_slots neighbour ≡ vacant 0
unfolding probe probe_loop hash mix
neighbour-probe = refl

colliding-probe : probe two_slots colliding ≡ vacant 1
unfolding probe probe_loop hash mix
colliding-probe = refl

race-Models_example :
    Models Sample.xattrs
      (race Sample.xattrs 1 0
        (true ∷ false ∷ false ∷ true ∷ [])
        (insertion key capability)
        (insertion neighbour capability)
        two_slots)
      (put neighbour
        (stored Sample.xattrs capability)
        (put key (stored Sample.xattrs capability) (get_inode Sample.xattrs two_slots)))
race-Models_example =
    race-Models Sample.xattrs two_slots-IsValid key neighbour capability capability 1 0 differ
      key-probe neighbour-probe (λ e. omega arith) (true ∷ false ∷ false ∷ true ∷ [])

race-loses_example :
    Models Sample.xattrs
      (race Sample.xattrs 1 1 []
        (insertion key capability)
        (insertion colliding capability)
        two_slots)
      (put colliding (stored Sample.xattrs capability) (get_inode Sample.xattrs two_slots))
race-loses_example =
    race-loses Sample.xattrs two_slots-IsValid key colliding capability capability 1 key-probe
      colliding-probe

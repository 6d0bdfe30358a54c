-- ===== src/Shm/Writers.antt =====
-- What two insertions into the shared table leave when they run at once.
use pseudoroot.Prelude.{
  ℕ, ◌<◌, ◌≡◌, ◌≢◌, refl, ap, ◌∙◌, arith, Bool, Option, some, if◌then◌else◌, List, [], ◌∷◌, ◌++◌,
  length, get_or-set_ne, set-set, unwrap_or,
}
use native.Mathlib.Decide.{ℕ_discrete}
use pseudoroot.Prelude.Bytes.{Bytes}
use pseudoroot.Inode.{InodeKey, FakeInode, put, key_eq}
use pseudoroot.Xattrs.{Xattrs}
use pseudoroot.Codec.{Codec}
use pseudoroot.Shm.Layout.{slot_live}
use pseudoroot.Shm.Page.{write_page, read_page-write_page}
use pseudoroot.Shm.Table.{Slot, ShmInodeMap, vacant, zeroed, probe}
use pseudoroot.Shm.Map.{page_at, write_xattrs, get_inode}
use pseudoroot.Shm.Valid.{
  IsValid, IsFreeFor, vacant-IsFreeFor, Reaches-set, Holds-set_ne, Holds-set_self,
}
use pseudoroot.Shm.Write.{rewrite, live-write}
use pseudoroot.Shm.Refinement.{stored, Models}
use pseudoroot.Shm.Stores.{Store, inode_stores, publish, store_all}
use pseudoroot.Shm.Publication.{store_all-page}
use pseudoroot.Shm.Race.{race, race-store_all}

-- the stores of `upsert_inode` to a vacant slot
abbrev pub insertion : InodeKey → FakeInode → List Store
insertion key inode = inode_stores key inode ++ publish ∷ []

-- the slot of a new entry
abbrev slot_of : InodeKey → FakeInode → Slot
slot_of key inode = record {
  occupied = slot_live;
  dev = key.0;
  ino = key.1;
  uid = inode.uid;
  gid = inode.gid;
  mode = unwrap_or inode.mode 0;
  rdev = unwrap_or inode.rdev 0;
}

module _ (wincode : Codec Xattrs) {m : ShmInodeMap} (valid : IsValid m) where
  -- an insertion at a slot that is free for the key, whatever its page held
  insert-Models :
      (key : InodeKey) (i : ℕ) (inode : FakeInode) (old : Bytes)
      → IsFreeFor m key i
      → Models wincode
          (rewrite m i (slot_of key inode) (write_page wincode inode.xattrs old))
          (put key (stored wincode inode) (get_inode wincode m))
  insert-Models key i inode old at =
      live-write wincode valid key i at.inside _ _ (λ q h. absurd (at.idle h.0))
        (stored wincode inode) (rw (read_page-write_page wincode inode.xattrs old)) refl refl refl
        at.walk (λ j h. absurd (at.nowhere j h))

  -- Another insertion leaves a slot free that was free.
  other-IsFreeFor :
      (key other : InodeKey) (i j : ℕ) (inode : FakeInode) (page : Bytes)
      → key ≢ other
      → i ≢ j
      → i < length m.slots
      → IsFreeFor m other j
      → IsFreeFor (rewrite m i (slot_of key inode) page) other j
  other-IsFreeFor key other i j inode page differ apart inside at = record {
    nowhere = λ k h. elim (ℕ_discrete i k) [
      | yes e ↦
          let (l, d, o) = Holds-set_self m.slots i (slot_of key inode) other k inside e h in
          differ (λ t. (d t, o t))
      | no d ↦ at.nowhere k (Holds-set_ne m.slots i (slot_of key inode) other k d h)
    ];
    idle = rw (get_or-set_ne m.slots i j (slot_of key inode) zeroed apart) at.idle;
    walk =
        Reaches-set m.slots i (slot_of key inode) m.slot_count m.slot_count _ j inside
          (λ e. omega arith) at.walk;
    inside = at.inside;
  }

  store_all-insertion :
      (key : InodeKey) (i : ℕ) (inode : FakeInode)
      → i < length m.slots
      → store_all wincode i (insertion key inode) m
        ≡ rewrite m i (slot_of key inode) (write_page wincode inode.xattrs (page_at m i))
  unfolding write_xattrs
  store_all-insertion key i inode inside = store_all-page wincode i inode.xattrs _ m inside tt

module _ (wincode : Codec Xattrs) {m : ShmInodeMap} (valid : IsValid m) (first second : InodeKey)
    (one two : FakeInode) where
  -- Where the probes of two processes for different keys on a valid table gave them different
  -- slots, any order of their single stores leaves a valid table that reads as before with both
  -- entries.
  pub race-Models :
      (i j : ℕ)
      → first ≢ second
      → probe m first ≡ vacant i
      → probe m second ≡ vacant j
      → i ≢ j
      → (turns : List Bool)
      → Models wincode
          (race wincode i j turns (insertion first one) (insertion second two) m)
          (put second (stored wincode two) (put first (stored wincode one) (get_inode wincode m)))
  race-Models i j differ first_probe second_probe apart turns =
      let at = vacant-IsFreeFor valid first i first_probe in
      let inside : i < length m.slots = omega (arith, valid.table.width, at.inside) in
      let page = write_page wincode one.xattrs (page_at m i) in
      let m1 = rewrite m i (slot_of first one) page in
      let (valid1, reads1) = insert-Models wincode valid first i one (page_at m i) at in
      let at1 =
        other-IsFreeFor wincode valid first second i j one page differ apart inside
          (vacant-IsFreeFor valid second j second_probe) in
      let inside1 : j < length m1.slots = omega (arith, valid1.table.width, at1.inside) in
      let (valid2, reads2) = insert-Models wincode valid1 second j two (page_at m1 j) at1 in
      rw
        (
          race-store_all wincode i j apart turns (insertion first one) (insertion second two) m,
          store_all-insertion wincode valid first i one inside,
          store_all-insertion wincode valid1 second j two inside1,
        )
        (
          valid2,
          λ q.
              reads2 q
              ∙ ap
                  (λ (o : Option FakeInode).
                    if key_eq second q then some (stored wincode two) else o)
                  (reads1 q),
        )

  -- Where the probes of two processes for different keys on a valid table gave them the same
  -- slot, and the stores of the second come behind those of the first, what is left is a valid
  -- table that reads as before with the entry of the second alone: that of the first is lost.
  pub race-loses :
      (i : ℕ)
      → probe m first ≡ vacant i
      → probe m second ≡ vacant i
      → Models wincode
          (race wincode i i [] (insertion first one) (insertion second two) m)
          (put second (stored wincode two) (get_inode wincode m))
  unfolding race
  race-loses i first_probe second_probe =
      let at = vacant-IsFreeFor valid first i first_probe in
      let inside : i < length m.slots = omega (arith, valid.table.width, at.inside) in
      let page = write_page wincode one.xattrs (page_at m i) in
      let m1 = rewrite m i (slot_of first one) page in
      let valid1 = (insert-Models wincode valid first i one (page_at m i) at).0 in
      let inside1 : i < length m1.slots = omega (arith, valid1.table.width, at.inside) in
      rw
        (
          store_all-insertion wincode valid first i one inside,
          store_all-insertion wincode valid1 second i two inside1,
          set-set m.slots i (slot_of first one) (slot_of second two),
          set-set m.pages i page (write_page wincode two.xattrs (page_at m1 i)),
        )
        (insert-Models wincode valid second i two (page_at m1 i)
          (vacant-IsFreeFor valid second i second_probe))

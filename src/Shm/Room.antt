-- ===== src/Shm/Room.antt =====
-- When an insertion into the shared table finds room.
use pseudoroot.Prelude.{
  ℕ, zero, suc, ◌+◌, ◌-◌, ◌%◌, ◌<◌, ◌≡◌, ◌≢◌, Option, none, List, arith, sym, ◌∙◌,
}
use native.Mathlib.Nat.{mod-add-mod, add-mod-mod, add-mod_right, mod-eq_of_lt}
use pseudoroot.Inode.{InodeKey, FakeInode}
use pseudoroot.Xattrs.{Xattrs}
use pseudoroot.Codec.{Codec}
use pseudoroot.Shm.Layout.{slot_empty}
use pseudoroot.Shm.Table.{Slot, ShmInodeMap, full, slot_at, hash, note_reuse, probe_loop, probe}
use pseudoroot.Shm.Map.{get_inode, upsert_chown, upsert_inode}
use pseudoroot.Shm.Probing.{Holds, probe_loop-full}
use pseudoroot.Shm.Valid.{IsValid, hash-lt}
use pseudoroot.Shm.Frame.{get_inode-present}

probe_loop-finds_room :
    (slots : List Slot) (n : ℕ) (key : InodeKey) (d k idx e : ℕ) (reuse : Option ℕ)
    → d < k
    → idx < n
    → (idx + d) % n ≡ e
    → (slot_at slots e).occupied ≡ slot_empty
    → probe_loop slots n key k idx reuse ≢ full
unfolding probe_loop
probe_loop-finds_room slots n key d zero idx e reuse h inside at hole = absurd (omega arith)
probe_loop-finds_room slots n key zero (suc k) idx e reuse h inside at hole =
    let same : idx + 0 ≡ idx = omega arith in
    let here : idx ≡ e = sym (mod-eq_of_lt inside) ∙ (rw same at at) in ground arith
probe_loop-finds_room slots n key (suc d) (suc k) idx e reuse h inside at hole =
    let regroup : idx + 1 + d ≡ idx + suc d = omega arith in
    let next : ((idx + 1) % n + d) % n ≡ e = mod-add-mod (idx + 1) n d ∙ rw regroup at in
    ground (
      arith,
      probe_loop-finds_room slots n key d k ((idx + 1) % n) e
          (note_reuse (slot_at slots idx) idx reuse) (omega arith) (omega arith) next hole,
    )

module _ {m : ShmInodeMap} (valid : IsValid m) (key : InodeKey) where
  -- On a valid shared table, the probe for any key is not full as long as one slot has never been
  -- used.
  pub probe-ne-full :
      (e : ℕ) → e < m.slot_count → (slot_at m.slots e).occupied ≡ slot_empty → probe m key ≢ full
  unfolding probe
  probe-ne-full e inside hole =
      let n = m.slot_count in
      let h = hash-lt n key valid.table.positive in
      probe_loop-finds_room m.slots n key ((e + n - hash n key) % n) n (hash n key) e none
        (omega arith) h (around (hash n key) h) hole
    where
      around :
          (h : ℕ)
          → h < m.slot_count
          → (h + (e + m.slot_count - h) % m.slot_count) % m.slot_count ≡ e
      around h lt =
          let n = m.slot_count in
          let back : h + (e + n - h) ≡ e + n = omega arith in
          add-mod-mod h (e + n - h) n ∙ rw back (add-mod_right e n ∙ mod-eq_of_lt inside)

  -- When every slot has been used, a key without an entry finds no room, tombstones or not.
  pub probe-eq-full :
      ((i : ℕ) → i < m.slot_count → (slot_at m.slots i).occupied ≢ slot_empty)
      → ((j : ℕ) → ¬ Holds m.slots key j)
      → probe m key ≡ full
  unfolding probe
  probe-eq-full busy nowhere =
      probe_loop-full m.slots m.slot_count key m.slot_count (hash m.slot_count key) none
        (hash-lt m.slot_count key valid.table.positive) busy nowhere

module _ (wincode : Codec Xattrs) {m : ShmInodeMap} (valid : IsValid m) (key : InodeKey) where
  -- On a valid shared table in which every slot is live or a tombstone, upsert_inode and
  -- upsert_chown of a key without an entry change nothing, even where a tombstone could be
  -- reused.
  pub upsert-crowded :
      ((i : ℕ) → i < m.slot_count → (slot_at m.slots i).occupied ≢ slot_empty)
      → get_inode wincode m key ≡ none
      → ((inode : FakeInode) → upsert_inode wincode m key inode ≡ m)
        × ((uid gid default_uid default_gid : ℕ)
            → upsert_chown wincode m key uid gid default_uid default_gid ≡ m)
  unfolding upsert_inode upsert_chown
  upsert-crowded busy absent =
      let e =
        probe-eq-full valid key busy
          (λ j h. cc (absent, get_inode-present wincode key j valid h)) in
      (λ inode. rw (e, upsert_inode), λ uid gid default_uid default_gid. rw (e, upsert_chown))

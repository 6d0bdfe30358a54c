-- ===== src/Shm/Agrees.antt =====
-- Tables that differ only in what no reader looks at: the contents of slots that are not live.
use pseudoroot.Prelude.{
  ℕ, zero, suc, ◌+◌, ◌%◌, ◌≡◌, refl, ◌∙◌, arith, Option, none, some, List, Bool-cases, inl, inr,
  ◌==◌, ◌⊎◌,
}
use pseudoroot.Inode.{InodeKey}
use pseudoroot.Xattrs.{Xattrs}
use pseudoroot.Codec.{Codec}
use pseudoroot.Shm.Layout.{slot_live}
use pseudoroot.Shm.Table.{
  Slot, ShmInodeMap, Probe, found, vacant, full, slot_at, matches, note_reuse, hash, probe_loop,
  probe,
}
use pseudoroot.Shm.Map.{page_at, get_inode}
use pseudoroot.Shm.Probing.{found-Holds}
use pseudoroot.Shm.Frame.{entry_at-same}

-- `m'` differs from `m` in slots that are not live only, and not in their state
pub record Agrees (m m' : ShmInodeMap) : Type 0 where
  pub slot_count : m'.slot_count ≡ m.slot_count
  pub occupied : (k : ℕ) → (slot_at m'.slots k).occupied ≡ (slot_at m.slots k).occupied
  pub live_slot :
      (k : ℕ) → (slot_at m.slots k).occupied ≡ slot_live → slot_at m'.slots k ≡ slot_at m.slots k
  pub live_page : (k : ℕ) → (slot_at m.slots k).occupied ≡ slot_live → page_at m' k ≡ page_at m k

pub Agrees-trans : (a b c : ShmInodeMap) → Agrees a b → Agrees b c → Agrees a c
Agrees-trans a b c f g = record {
  slot_count = g.slot_count ∙ f.slot_count;
  occupied = λ k. g.occupied k ∙ f.occupied k;
  live_slot = λ k l. g.live_slot k (f.occupied k ∙ l) ∙ f.live_slot k l;
  live_page = λ k l. g.live_page k (f.occupied k ∙ l) ∙ f.live_page k l;
}

pub Agrees-refl : (m : ShmInodeMap) → Agrees m m
Agrees-refl m = record {
  slot_count = refl;
  occupied = λ k. refl;
  live_slot = λ k l. refl;
  live_page = λ k l. refl;
}

module _ (slots slots' : List Slot) (n : ℕ) (key : InodeKey)
    (occ : (k : ℕ) → (slot_at slots' k).occupied ≡ (slot_at slots k).occupied)
    (live : (k : ℕ)
      → (slot_at slots k).occupied ≡ slot_live
      → slot_at slots' k ≡ slot_at slots k) where
  matches-same : (k : ℕ) → matches (slot_at slots' k) key ≡ matches (slot_at slots k) key
  matches-same k = elim (Bool-cases ((slot_at slots k).occupied == slot_live)) [
    | inl e ↦ let same : (slot_at slots k).occupied ≡ slot_live = ground arith in rw (live k same)
    | inr e ↦ rw (occ k, e)
  ]

  note_reuse-same :
      (k : ℕ) (reuse : Option ℕ)
      → note_reuse (slot_at slots' k) k reuse ≡ note_reuse (slot_at slots k) k reuse
  note_reuse-same k none = rw (occ k)
  note_reuse-same k (some r) = refl

  probe_loop-same :
      (rounds idx : ℕ) (reuse : Option ℕ)
      → probe_loop slots' n key rounds idx reuse ≡ probe_loop slots n key rounds idx reuse
  unfolding probe_loop
  probe_loop-same zero idx reuse = refl
  probe_loop-same (suc rounds) idx reuse = rw (
    matches-same idx,
    note_reuse-same idx reuse,
    probe_loop-same rounds ((idx + 1) % n) (note_reuse (slot_at slots idx) idx reuse),
    occ idx,
  )

probe-Agrees : (m m' : ShmInodeMap) → Agrees m m' → (q : InodeKey) → probe m' q ≡ probe m q
unfolding probe
probe-Agrees m m' a q = rw a.slot_count (
    probe_loop-same m.slots m'.slots m.slot_count q a.occupied a.live_slot m.slot_count
      (hash m.slot_count q) none)

Probe-cases : (r : Probe) → ((i : ℕ) × (r ≡ found i)) ⊎ (((i : ℕ) × (r ≡ vacant i)) ⊎ (r ≡ full))
Probe-cases (found i) = inl (i, refl)
Probe-cases (vacant i) = inr (inl (i, refl))
Probe-cases full = inr (inr refl)

module _ (wincode : Codec Xattrs) where
  pub get_inode-Agrees :
      (m m' : ShmInodeMap)
      → Agrees m m'
      → (q : InodeKey) → get_inode wincode m' q ≡ get_inode wincode m q
  unfolding get_inode probe
  get_inode-Agrees m m' a q = elim (Probe-cases (probe m q)) [
    | inl (i, e) ↦
        let (live, d, o) =
          found-Holds m.slots m.slot_count q m.slot_count (hash m.slot_count q) none i e in
        rw (
          probe-Agrees m m' a q,
          e,
          get_inode,
          entry_at-same wincode m m' i (a.live_slot i live) (a.live_page i live),
        )
    | inr (inl (i, e)) ↦ rw (probe-Agrees m m' a q, e, get_inode)
    | inr (inr e) ↦ rw (probe-Agrees m m' a q, e, get_inode)
  ]

-- ===== src/Shm/Frame.antt =====
-- Reading a valid table through `get_inode`, and what a write to one slot leaves alone.
use pseudoroot.Prelude.{ℕ, ◌≡◌, ◌≢◌, inl, inr, none, some, Bool-cases, sym, ◌∙◌, subst}
use native.Mathlib.Decide.{ℕ_discrete}
use pseudoroot.Inode.{InodeKey, FakeInode, put, delete, key_eq, key_eq→eq, key_eq→ne}
use pseudoroot.Xattrs.{Xattrs}
use pseudoroot.Codec.{Codec}
use pseudoroot.Shm.Table.{ShmInodeMap, slot_at}
use pseudoroot.Shm.Map.{page_at, entry_at, get_inode}
use pseudoroot.Shm.Probing.{Holds}
use pseudoroot.Shm.Valid.{IsValid, Lookup, present, free, crowded, lookup, Holds-found}

-- `m'` differs from `m` at slot `i` only, which held no key but `key` and holds no other now
pub record Frame (m m' : ShmInodeMap) (key : InodeKey) (i : ℕ) : Type 0 where
  pub slots_same : (k : ℕ) → i ≢ k → slot_at m'.slots k ≡ slot_at m.slots k
  pub pages_same : (k : ℕ) → i ≢ k → page_at m' k ≡ page_at m k
  pub before : (q : InodeKey) → Holds m.slots q i → q ≡ key
  pub after : (q : InodeKey) → Holds m'.slots q i → q ≡ key

module _ (wincode : Codec Xattrs) where
  pub get_inode-present :
      {m : ShmInodeMap} (key : InodeKey) (i : ℕ)
      → IsValid m
      → Holds m.slots key i
      → get_inode wincode m key ≡ some (entry_at wincode m i)
  unfolding get_inode
  get_inode-present {m} key i valid h = rw (Holds-found valid key i h, get_inode)

  pub get_inode-absent :
      {m : ShmInodeMap} (key : InodeKey)
      → IsValid m
      → ((j : ℕ) → ¬ Holds m.slots key j)
      → get_inode wincode m key ≡ none
  unfolding get_inode
  get_inode-absent {m} key valid nowhere = by_lookup (lookup valid key)
    where
      by_lookup : Lookup m key → get_inode wincode m key ≡ none
      by_lookup (present i h inside e) = absurd (nowhere i h)
      by_lookup (free i none_holds idle walk inside e) = rw (e, get_inode)
      by_lookup (crowded none_holds e) = rw (e, get_inode)

  pub entry_at-same :
      (m m' : ShmInodeMap) (k : ℕ)
      → slot_at m'.slots k ≡ slot_at m.slots k
      → page_at m' k ≡ page_at m k
      → entry_at wincode m' k ≡ entry_at wincode m k
  unfolding entry_at
  entry_at-same m m' k s p = rw (s, p)

  -- Every key but that of the written slot reads as before.
  pub get_inode-Frame :
      {m m' : ShmInodeMap} (key q : InodeKey) (i : ℕ)
      → IsValid m
      → IsValid m'
      → Frame m m' key i
      → q ≢ key
      → get_inode wincode m' q ≡ get_inode wincode m q
  get_inode-Frame {m} {m'} key q i valid valid' frame other = by_lookup (lookup valid q)
    where
      back : (j : ℕ) → Holds m'.slots q j → Holds m.slots q j
      back j (live, d, o) = elim (ℕ_discrete i j) [
        | yes e ↦
            absurd
              (other (frame.after q (subst (λ (k : ℕ). Holds m'.slots q k) (sym e) (live, d, o))))
        | no d' ↦ let same = frame.slots_same j d' in (rw same at live, rw same at d, rw same at o)
      ]

      absent : ((j : ℕ) → ¬ Holds m.slots q j) → get_inode wincode m' q ≡ get_inode wincode m q
      absent nowhere =
          get_inode-absent q valid' (λ j h. nowhere j (back j h))
          ∙ sym (get_inode-absent q valid nowhere)

      by_lookup : Lookup m q → get_inode wincode m' q ≡ get_inode wincode m q
      by_lookup (present k (live, d, o) inside e) = elim (ℕ_discrete i k) [
        | yes p ↦
            absurd
              (other (frame.before q (subst (λ (j : ℕ). Holds m.slots q j) (sym p) (live, d, o))))
        | no p ↦
            let same = frame.slots_same k p in
            get_inode-present q k valid' (rw same live, rw same d, rw same o)
            ∙ rw (entry_at-same m m' k same (frame.pages_same k p))
                (sym (get_inode-present q k valid (live, d, o)))
      ]
      by_lookup (free j nowhere idle walk inside e) = absent nowhere
      by_lookup (crowded nowhere e) = absent nowhere

  -- With the entry of the written key, that is every key.
  pub get_inode-put :
      {m m' : ShmInodeMap} (key : InodeKey) (i : ℕ) (inode : FakeInode)
      → IsValid m
      → IsValid m'
      → Frame m m' key i
      → Holds m'.slots key i
      → entry_at wincode m' i ≡ inode
      → (q : InodeKey) → get_inode wincode m' q ≡ put key inode (get_inode wincode m) q
  get_inode-put {m} {m'} key i inode valid valid' frame h e q = elim (Bool-cases (key_eq key q)) [
    | inl t ↦ rw t (
        subst (λ (k : InodeKey). get_inode wincode m' k ≡ some inode) (key_eq→eq key q t)
          (rw (← e) (get_inode-present key i valid' h)))
    | inr f ↦ rw f (get_inode-Frame key q i valid valid' frame (key_eq→ne key q f))
  ]

  pub get_inode-delete :
      {m m' : ShmInodeMap} (key : InodeKey) (i : ℕ)
      → IsValid m
      → IsValid m'
      → Frame m m' key i
      → ((j : ℕ) → ¬ Holds m'.slots key j)
      → (q : InodeKey) → get_inode wincode m' q ≡ delete key (get_inode wincode m) q
  get_inode-delete {m} {m'} key i valid valid' frame gone q = elim (Bool-cases (key_eq key q)) [
    | inl t ↦ rw t (
        subst (λ (k : InodeKey). get_inode wincode m' k ≡ none) (key_eq→eq key q t)
          (get_inode-absent key valid' gone))
    | inr f ↦ rw f (get_inode-Frame key q i valid valid' frame (key_eq→ne key q f))
  ]

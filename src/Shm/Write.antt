-- ===== src/Shm/Write.antt =====
-- The two writes that the methods of the shared table make: a live entry, and a tombstone.
use pseudoroot.Prelude.{
  ℕ, zero, suc, ◌<◌, ◌≡◌, refl, ◌≢◌, ap, sym, ◌∙◌, List, [], ◌∷◌, length, set, get_or, arith,
  get_or-set_self, get_or-set_ne, length-set, subst,
}
use native.Mathlib.Decide.{ℕ_discrete}
use pseudoroot.Prelude.Bytes.{Bytes}
use pseudoroot.Inode.{InodeKey, FakeInode, put, delete}
use pseudoroot.Xattrs.{Xattrs}
use pseudoroot.Codec.{Codec}
use pseudoroot.Shm.Layout.{slot_live, slot_tombstone}
use pseudoroot.Shm.Table.{ShmInodeMap, Slot, zeroed, hash}
use pseudoroot.Shm.Page.{read_page}
use pseudoroot.Shm.Map.{entry_at, get_inode, non_zero}
use pseudoroot.Shm.Probing.{Holds, Reaches}
use pseudoroot.Shm.Valid.{IsValid, set-IsValidTable, Holds-set_self, Holds-set_ne}
use pseudoroot.Shm.Frame.{Frame, get_inode-put, get_inode-delete}

pub set-get_or {ℓ} :
    {A : Type ℓ} (xs : List A) (i : ℕ) (d : A) → i < length xs → set xs i (get_or xs i d) ≡ xs
set-get_or [] i d h = refl
set-get_or (x ∷ xs) zero d h = refl
set-get_or (x ∷ xs) (suc i) d h = ap (λ (t : List _). x ∷ t) (set-get_or xs i d (omega arith))

-- the entry that a slot and its page stand for
abbrev pub entry_of : Codec Xattrs → Slot → Bytes → FakeInode
entry_of wincode s page = record {
  uid = s.uid;
  gid = s.gid;
  mode = non_zero s.mode;
  rdev = non_zero s.rdev;
  xattrs = read_page wincode page;
}

abbrev pub rewrite : ShmInodeMap → ℕ → Slot → Bytes → ShmInodeMap
rewrite m i s page = record m { slots = set m.slots i s; pages = set m.pages i page }

module _ (wincode : Codec Xattrs) {m : ShmInodeMap} (valid : IsValid m) (key : InodeKey) (i : ℕ)
    (inside : i < m.slot_count) (s : Slot) (page : Bytes)
    (before : (q : InodeKey) → Holds m.slots q i → q ≡ key) where
  in_slots : i < length m.slots
  in_slots = omega (arith, valid.table.width)

  in_pages : i < length m.pages
  in_pages = omega (arith, valid.pages_width)

  Frame-of :
      ((q : InodeKey) → Holds (set m.slots i s) q i → q ≡ key) → Frame m (rewrite m i s page) key i
  Frame-of after = record {
    slots_same = λ k d. get_or-set_ne m.slots i k s zeroed d;
    pages_same = λ k d. get_or-set_ne m.pages i k page [] d;
    before = before;
    after = after;
  }

  entry_at-rewrite : entry_at wincode (rewrite m i s page) i ≡ entry_of wincode s page
  unfolding entry_at
  entry_at-rewrite =
      rw (get_or-set_self m.slots i s zeroed in_slots, get_or-set_self m.pages i page [] in_pages)

  -- a live entry of `key`, at the end of a walk and nowhere else
  pub live-write :
      (inode : FakeInode)
      → entry_of wincode s page ≡ inode
      → s.occupied ≡ slot_live
      → s.dev ≡ key.0
      → s.ino ≡ key.1
      → Reaches m.slots m.slot_count m.slot_count (hash m.slot_count key) i
      → ((j : ℕ) → Holds m.slots key j → j ≡ i)
      → IsValid (rewrite m i s page)
        × ((q : InodeKey)
            → get_inode wincode (rewrite m i s page) q ≡ put key inode (get_inode wincode m) q)
  live-write inode reads live d o walk alone = (
    valid',
    get_inode-put wincode key i inode valid valid' (Frame-of after) holds
        (entry_at-rewrite ∙ reads),
  )
    where
      named : ◌≡◌ {A = InodeKey} (s.dev, s.ino) key
      named = λ t. (d t, o t)

      valid' : IsValid (rewrite m i s page)
      valid' = record {
        table =
            set-IsValidTable m.slots i s m.slot_count valid.table inside (λ e. grind arith)
              (λ _.
                subst
                  (λ (q : InodeKey).
                    Reaches m.slots m.slot_count m.slot_count (hash m.slot_count q) i)
                  (sym named) walk)
              (λ j _ (l, a, b). alone j (l, a ∙ d, b ∙ o));
        pages_width = length-set m.pages i page ∙ valid.pages_width;
      }

      after : (q : InodeKey) → Holds (set m.slots i s) q i → q ≡ key
      after q h =
          let (l, a, b) = Holds-set_self m.slots i s q i in_slots refl h in
          λ t. ((sym a ∙ d) t, (sym b ∙ o) t)

      holds : Holds (set m.slots i s) key i
      holds =
          let same = get_or-set_self m.slots i s zeroed in_slots in
          (rw same live, rw same d, rw same o)

  pub tombstone-write :
      s.occupied ≡ slot_tombstone
      → ((j : ℕ) → Holds m.slots key j → j ≡ i)
      → IsValid (rewrite m i s page)
        × ((q : InodeKey)
            → get_inode wincode (rewrite m i s page) q ≡ delete key (get_inode wincode m) q)
  tombstone-write dead alone =
      (valid', get_inode-delete wincode key i valid valid' (Frame-of after) gone)
    where
      not_live : s.occupied ≢ slot_live
      not_live e = omega arith

      valid' : IsValid (rewrite m i s page)
      valid' = record {
        table =
            set-IsValidTable m.slots i s m.slot_count valid.table inside (λ e. omega arith)
              (λ l. absurd (not_live l)) (λ j l h. absurd (not_live l));
        pages_width = length-set m.pages i page ∙ valid.pages_width;
      }

      after : (q : InodeKey) → Holds (set m.slots i s) q i → q ≡ key
      after q h = absurd (not_live (Holds-set_self m.slots i s q i in_slots refl h).0)

      gone : (j : ℕ) → ¬ Holds (set m.slots i s) key j
      gone j h = elim (ℕ_discrete i j) [
        | yes e ↦ not_live (Holds-set_self m.slots i s key j in_slots e h).0
        | no d ↦ d (sym (alone j (Holds-set_ne m.slots i s key j d h)))
      ]

-- ===== src/Shm/Refinement.antt =====
-- The methods of the shared table against the contract of an inode table.
use pseudoroot.Prelude.{
  ℕ, ◌≡◌, refl, ◌≢◌, ◌∙◌, sym, Bool, true, false, Option, none, some, [], subst, unwrap_or, List,
  set,
}
use pseudoroot.Prelude.Bytes.{Bytes}
use pseudoroot.Inode.{
  InodeKey, FakeInode, new, keep_or, merge_ids, put, delete, chown, delete-absent,
}
use pseudoroot.Xattrs.{Xattrs}
use pseudoroot.Codec.{Codec}
use pseudoroot.Shm.Layout.{slot_live}
use pseudoroot.Shm.Table.{Slot, ShmInodeMap, full, slot_at, probe}
use pseudoroot.Shm.Page.{kept, read_page-write_page}
use pseudoroot.Shm.Map.{
  page_at, non_zero, entry_at, get_inode, upsert_chown, upsert_inode, remove_inode,
}
use pseudoroot.Shm.Probing.{Holds}
use pseudoroot.Shm.Valid.{IsValid, Lookup, present, free, crowded, lookup, Holds-Reaches}
use pseudoroot.Shm.Frame.{get_inode-present, get_inode-absent}
use pseudoroot.Shm.Write.{set-get_or, live-write, tombstone-write}

-- What the table can hold of an entry: no mode or rdev of 0, and the attributes if they fit.
abbrev pub stored : Codec Xattrs → FakeInode → FakeInode
stored wincode inode = record {
  uid = inode.uid;
  gid = inode.gid;
  mode = non_zero (unwrap_or inode.mode 0);
  rdev = non_zero (unwrap_or inode.rdev 0);
  xattrs = kept wincode inode.xattrs;
}

-- `m'` is a valid table that reads as `t`
abbrev pub Models : Codec Xattrs → ShmInodeMap → (InodeKey → Option FakeInode) → Type 0
Models wincode m' t = IsValid m' × ((q : InodeKey) → get_inode wincode m' q ≡ t q)

abbrev pub is_some {ℓ} : {A : Type ℓ} → Option A → Bool
is_some none = false
is_some (some a) = true

module _ (wincode : Codec Xattrs) {m : ShmInodeMap} (valid : IsValid m) (key : InodeKey) where
  same_key : (i : ℕ) → Holds m.slots key i → (q : InodeKey) → Holds m.slots q i → q ≡ key
  same_key i (l, d, o) q (l', d', o') = λ t. ((sym d' ∙ d) t, (sym o' ∙ o) t)

  only : (i : ℕ) → Holds m.slots key i → (j : ℕ) → Holds m.slots key j → j ≡ i
  only i h j h' = valid.table.unique key j i h' h

  idle_key :
      (i : ℕ)
      → (slot_at m.slots i).occupied ≢ slot_live
      → (q : InodeKey) → Holds m.slots q i
      → q ≡ key
  idle_key i idle q h = absurd (idle h.0)

  -- On a valid shared table in which the probe for the key is not full, upsert_inode leaves a
  -- valid table that reads as before with the key set to what the table can hold of the inode: a
  -- mode or rdev of 0 is read as none, and attributes that do not fit in a page are dropped.
  pub upsert_inode-Models :
      (inode : FakeInode)
      → probe m key ≢ full
      → Models wincode
          (upsert_inode wincode m key inode)
          (put key (stored wincode inode) (get_inode wincode m))
  unfolding upsert_inode
  upsert_inode-Models inode room = by_lookup (lookup valid key)
    where
      by_lookup :
          Lookup m key
          → Models wincode
              (upsert_inode wincode m key inode)
              (put key (stored wincode inode) (get_inode wincode m))
      by_lookup (present i h inside e) =
          rw (e, upsert_inode)
            (live-write wincode valid key i inside _ _ (same_key i h) (stored wincode inode)
              (rw (read_page-write_page wincode inode.xattrs (page_at m i))) h.0 h.1 h.2
              (Holds-Reaches valid key i h) (only i h))
      by_lookup (free i nowhere idle walk inside e) =
          rw (e, upsert_inode)
            (live-write wincode valid key i inside _ _ (idle_key i idle) (stored wincode inode)
              (rw (read_page-write_page wincode inode.xattrs (page_at m i))) refl refl refl walk
              (λ j h. absurd (nowhere j h)))
      by_lookup (crowded nowhere e) = absurd (room e)

  -- On a valid shared table in which the probe for the key is not full, upsert_chown leaves a
  -- valid table that reads as before with the key set to the old entry, or a new one of the
  -- default ids, whose uid and gid are those given, except where one is the value that means
  -- unchanged.
  pub upsert_chown-Models :
      (uid gid default_uid default_gid : ℕ)
      → probe m key ≢ full
      → Models wincode
          (upsert_chown wincode m key uid gid default_uid default_gid)
          (chown key uid gid default_uid default_gid (get_inode wincode m))
  unfolding upsert_chown
  upsert_chown-Models uid gid default_uid default_gid room = by_lookup (lookup valid key)
    where
      changed : ℕ → Slot
      changed i =
          let slot = slot_at m.slots i in
          record slot { uid = keep_or slot.uid uid; gid = keep_or slot.gid gid }

      by_lookup :
          Lookup m key
          → Models wincode
              (upsert_chown wincode m key uid gid default_uid default_gid)
              (chown key uid gid default_uid default_gid (get_inode wincode m))
      by_lookup (present i h inside e) =
          rw (e, upsert_chown, get_inode-present wincode key i valid h)
            (subst
              (λ (ps : List Bytes).
                Models wincode (record m { slots = set m.slots i (changed i); pages = ps })
                  (put key (merge_ids uid gid (entry_at wincode m i)) (get_inode wincode m)))
              (set-get_or m.pages i [] (rw valid.pages_width inside))
              (live-write wincode valid key i inside (changed i) (page_at m i) (same_key i h)
                (merge_ids uid gid (entry_at wincode m i)) (unfold entry_at in refl) h.0 h.1 h.2
                (Holds-Reaches valid key i h) (only i h)))
      by_lookup (free i nowhere idle walk inside e) =
          rw (e, upsert_chown, get_inode-absent wincode key valid nowhere)
            (live-write wincode valid key i inside _ _ (idle_key i idle)
              (merge_ids uid gid (new default_uid default_gid))
              (rw (read_page-write_page wincode [] (page_at m i)) (unfold kept in refl)) refl refl
              refl walk (λ j h. absurd (nowhere j h)))
      by_lookup (crowded nowhere e) = absurd (room e)

  -- On a valid shared table, remove_inode leaves a valid table that reads as before without the
  -- key, and returns whether the key had an entry.
  pub remove_inode-Models :
      Models wincode (remove_inode wincode m key).0 (delete key (get_inode wincode m))
      × ((remove_inode wincode m key).1 ≡ is_some (get_inode wincode m key))
  unfolding remove_inode
  remove_inode-Models = by_lookup (lookup valid key)
    where
      absent :
          ((j : ℕ) → ¬ Holds m.slots key j)
          → remove_inode wincode m key ≡ (m, false)
          → Models wincode (remove_inode wincode m key).0 (delete key (get_inode wincode m))
            × ((remove_inode wincode m key).1 ≡ is_some (get_inode wincode m key))
      absent nowhere e =
          let missing = get_inode-absent wincode key valid nowhere in
          rw (e, missing) ((valid, delete-absent key (get_inode wincode m) missing), refl)

      by_lookup :
          Lookup m key
          → Models wincode (remove_inode wincode m key).0 (delete key (get_inode wincode m))
            × ((remove_inode wincode m key).1 ≡ is_some (get_inode wincode m key))
      by_lookup (present i h inside e) =
          rw (e, remove_inode, get_inode-present wincode key i valid h)
            (tombstone-write wincode valid key i inside _ _ (same_key i h) refl (only i h), refl)
      by_lookup (free i nowhere idle walk inside e) = absent nowhere (rw (e, remove_inode))
      by_lookup (crowded nowhere e) = absent nowhere (rw (e, remove_inode))

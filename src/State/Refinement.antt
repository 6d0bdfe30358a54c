-- ===== src/State/Refinement.antt =====
-- The methods of `FakeRootState` against the contract of an inode table.
use pseudoroot.Prelude.{ℕ, ◌≡◌, refl, inl, inr, Option-cases}
use pseudoroot.Inode.{InodeKey, FakeInode, put, delete, chown}
use pseudoroot.State.{DashMap, FakeRootState, set_inode, get_inode, remove_inode, upsert_chown}

module _ {D : DashMap} (s : FakeRootState D) (key : InodeKey) where
  pub get_inode-set_inode :
      (inode : FakeInode) (j : InodeKey)
      → get_inode (set_inode s key inode) j ≡ put key inode (get_inode s) j
  unfolding get_inode set_inode
  get_inode-set_inode inode j = D.get-insert key j inode s.inode_map

  -- After remove_inode, the table of a state reads as before without the key, and the result is
  -- the entry that the key had.
  pub get_inode-remove_inode :
      (j : InodeKey)
      → (get_inode (remove_inode s key).0 j ≡ delete key (get_inode s) j)
        × ((remove_inode s key).1 ≡ get_inode s key)
  unfolding get_inode remove_inode
  get_inode-remove_inode j = (D.get-remove key j s.inode_map, refl)

  -- After upsert_chown, the table of a state reads as before with the chown merged into the entry
  -- of the key, or into a new entry of the default ids.
  pub get_inode-upsert_chown :
      (uid gid default_uid default_gid : ℕ) (j : InodeKey)
      → get_inode (upsert_chown s key uid gid default_uid default_gid) j
        ≡ chown key uid gid default_uid default_gid (get_inode s) j
  unfolding get_inode upsert_chown
  get_inode-upsert_chown uid gid default_uid default_gid j =
      elim (Option-cases (D.get key s.inode_map)) [
        | inl e ↦ rw e (D.get-upsert_none key j _ _ s.inode_map e)
        | inr (old, e) ↦ rw e (D.get-upsert_some key j _ _ old s.inode_map e)
      ]

-- ===== src/Shm/Stores.antt =====
-- The single stores by which the methods of pseudoroot-core/src/shm_map.rs insert an entry, in the
-- order of the source: another process can read the table between any two of them.
use pseudoroot.Prelude.{ℕ, List, [], ◌∷◌, unwrap_or}
use pseudoroot.Inode.{InodeKey, FakeInode, keep_or}
use pseudoroot.Xattrs.{Xattrs}
use pseudoroot.Codec.{Codec}
use pseudoroot.Shm.Layout.{slot_live}
use pseudoroot.Shm.Table.{Slot, ShmInodeMap, slot_at}
use pseudoroot.Shm.Map.{set_slot, write_xattrs}

-- a store to the page of a slot, or to a field of the slot
pub data Store : Type 0 where
  xattrs_page : Xattrs → Store
  dev ino uid gid mode rdev occupied : ℕ → Store

abbrev pub store_field : Store → Slot → Slot
store_field (xattrs_page xattrs) slot = slot
store_field (dev v) slot = record slot { dev = v }
store_field (ino v) slot = record slot { ino = v }
store_field (uid v) slot = record slot { uid = v }
store_field (gid v) slot = record slot { gid = v }
store_field (mode v) slot = record slot { mode = v }
store_field (rdev v) slot = record slot { rdev = v }
store_field (occupied v) slot = record slot { occupied = v }

module _ (wincode : Codec Xattrs) (idx : ℕ) where
  unfoldable pub store : Store → ShmInodeMap → ShmInodeMap
  store (xattrs_page xattrs) m = write_xattrs wincode m idx xattrs
  store s m = set_slot m idx (store_field s (slot_at m.slots idx))

  -- the table behind all of the stores
  unfoldable pub store_all : List Store → ShmInodeMap → ShmInodeMap
  unfolding store
  store_all [] m = m
  store_all (s ∷ stores) m = store_all stores (store s m)

  -- the tables between them, the first and the last one included
  unfoldable pub states : List Store → ShmInodeMap → List ShmInodeMap
  unfolding store
  states [] m = m ∷ []
  states (s ∷ stores) m = m ∷ states stores (store s m)

-- the `Probe::Vacant` branch of `upsert_inode`, up to the store that publishes the slot
abbrev pub inode_stores : InodeKey → FakeInode → List Store
inode_stores key inode =
    xattrs_page inode.xattrs
    ∷ dev key.0
    ∷ ino key.1
    ∷ uid inode.uid
    ∷ gid inode.gid
    ∷ mode (unwrap_or inode.mode 0)
    ∷ rdev (unwrap_or inode.rdev 0)
    ∷ []

-- the `Probe::Vacant` branch of `upsert_chown`, up to the store that publishes the slot
abbrev pub chown_stores : InodeKey → ℕ → ℕ → ℕ → ℕ → List Store
chown_stores key new_uid new_gid default_uid default_gid =
    xattrs_page []
    ∷ dev key.0
    ∷ ino key.1
    ∷ uid (keep_or default_uid new_uid)
    ∷ gid (keep_or default_gid new_gid)
    ∷ mode 0
    ∷ rdev 0
    ∷ []

abbrev pub publish : Store
publish = occupied slot_live

-- ===== src/State.antt =====
-- pseudoroot-core/src/state.rs: `FakeRootState`, over the concurrent map of the dashmap crate, which
-- is a parameter. The atomics and the lock around the state are sequenced: each method is one step.
pub mod Refinement
use pseudoroot.Prelude.{ℕ, ◌≡◌, Option, none, some, if◌then◌else◌}
use pseudoroot.Inode.{InodeKey, FakeInode, new, merge_ids, key_eq}

-- `DashMap<InodeKey, FakeInode>`; `upsert` is `entry(key).and_modify(f).or_insert_with(g)`.
pub record DashMap : Type 1 where
  pub Map : Type 0
  pub empty : Map
  pub get : InodeKey → Map → Option FakeInode
  pub insert : InodeKey → FakeInode → Map → Map
  pub remove : InodeKey → Map → Map
  pub upsert : InodeKey → (FakeInode → FakeInode) → FakeInode → Map → Map
  pub get-empty : (j : InodeKey) → get j empty ≡ none
  pub get-insert :
      (k j : InodeKey) (v : FakeInode) (m : Map)
      → get j (insert k v m) ≡ (if key_eq k j then some v else get j m)
  pub get-remove :
      (k j : InodeKey) (m : Map) → get j (remove k m) ≡ (if key_eq k j then none else get j m)
  pub get-upsert_some :
      (k j : InodeKey) (f : FakeInode → FakeInode) (g old : FakeInode) (m : Map)
      → get k m ≡ some old
      → get j (upsert k f g m) ≡ (if key_eq k j then some (f old) else get j m)
  pub get-upsert_none :
      (k j : InodeKey) (f : FakeInode → FakeInode) (g : FakeInode) (m : Map)
      → get k m ≡ none
      → get j (upsert k f g m) ≡ (if key_eq k j then some g else get j m)

module _ (D : DashMap) where
  pub record FakeRootState : Type 0 where
    pub inode_map : D.Map
    pub current_uid : ℕ
    pub current_gid : ℕ

module _ {D : DashMap} where
  -- `new` and `default`
  unfoldable pub default : FakeRootState D
  default = record { inode_map = D.empty; current_uid = 0; current_gid = 0 }

  unfoldable pub set_current : FakeRootState D → ℕ → ℕ → FakeRootState D
  set_current s uid gid = record s { current_uid = uid; current_gid = gid }

  unfoldable pub set_inode : FakeRootState D → InodeKey → FakeInode → FakeRootState D
  set_inode s key inode = record s { inode_map = D.insert key inode s.inode_map }

  unfoldable pub get_inode : FakeRootState D → InodeKey → Option FakeInode
  get_inode s key = D.get key s.inode_map

  -- the new state and the entry that was dropped
  unfoldable pub remove_inode : FakeRootState D → InodeKey → FakeRootState D × Option FakeInode
  remove_inode s key = (record s { inode_map = D.remove key s.inode_map }, D.get key s.inode_map)

  unfoldable pub upsert_chown : FakeRootState D → InodeKey → ℕ → ℕ → ℕ → ℕ → FakeRootState D
  upsert_chown s key uid gid default_uid default_gid = record s {
    inode_map =
        D.upsert key (merge_ids uid gid) (merge_ids uid gid (new default_uid default_gid))
          s.inode_map;
  }

-- ===== src/Inode.antt =====
-- `FakeInode` and `InodeKey` of pseudoroot-core/src/state.rs, and the contract of an inode table: a
-- function from keys to entries.
use pseudoroot.Prelude.{
  ℕ, ◌-◌, ◌^◌, ◌≡◌, ◌≢◌, Bool, true, false, ◌&&◌, Option, none, some, [], arith, ◌==◌,
  if◌then◌else◌, unwrap_or, Bool-cases, inl, inr,
}
use pseudoroot.Xattrs.{Xattrs}

abbrev pub InodeKey : Type 0
InodeKey = ℕ × ℕ

pub record FakeInode : Type 0 where
  pub uid : ℕ
  pub gid : ℕ
  pub mode : Option ℕ
  pub rdev : Option ℕ
  pub xattrs : Xattrs

abbrev pub new : ℕ → ℕ → FakeInode
new uid gid = record { uid = uid; gid = gid; mode = none; rdev = none; xattrs = [] }

-- `u32::MAX`: leave this id unchanged
abbrev pub id_unchanged : ℕ
id_unchanged = 2 ^ 32 - 1

abbrev pub keep_or : ℕ → ℕ → ℕ
keep_or old id = if id == id_unchanged then old else id

-- the closure that `upsert_chown` applies to an entry
abbrev pub merge_ids : ℕ → ℕ → FakeInode → FakeInode
merge_ids uid gid inode = record inode { uid = keep_or inode.uid uid; gid = keep_or inode.gid gid }

abbrev pub key_eq : InodeKey → InodeKey → Bool
key_eq a b = a.0 == b.0 && a.1 == b.1

pub key_eq→eq : (a b : InodeKey) → key_eq a b ≡ true → a ≡ b
key_eq→eq a b h = ground arith

pub key_eq→ne : (a b : InodeKey) → key_eq a b ≡ false → b ≢ a
key_eq→ne a b h e = ground arith

pub key_eq_refl : (a : InodeKey) → key_eq a a ≡ true
key_eq_refl a = ground arith

-- The contract of an inode table.
abbrev pub Table : Type 0
Table = InodeKey → Option FakeInode

abbrev pub put : InodeKey → FakeInode → Table → Table
put key inode t j = if key_eq key j then some inode else t j

abbrev pub delete : InodeKey → Table → Table
delete key t j = if key_eq key j then none else t j

abbrev pub chown : InodeKey → ℕ → ℕ → ℕ → ℕ → Table → Table
chown key uid gid default_uid default_gid t =
    put key (merge_ids uid gid (unwrap_or (t key) (new default_uid default_gid))) t

pub delete-absent :
    (key : InodeKey) (t : Table) → t key ≡ none → (q : InodeKey) → t q ≡ delete key t q
delete-absent key t absent q = elim (Bool-cases (key_eq key q)) [
  | inl e ↦ rw (e, ← key_eq→eq key q e) absent
  | inr e ↦ rw e
]

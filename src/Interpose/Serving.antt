-- ===== src/Interpose/Serving.antt =====
-- What a library whose backend answers reads promises, whichever backend it is.
use pseudoroot.Prelude.{
  ℕ, ◌≡◌, true, false, Option, none, some, unwrap_or, Option-cases, inl, inr, ◌>>=◌,
}
use pseudoroot.Prelude.Bytes.{Bytes}
use pseudoroot.Xattrs
use pseudoroot.Inode.{InodeKey, FakeInode, Table, new}
use pseudoroot.State.{DashMap}
use pseudoroot.Interpose.{Stat, StatSource, CStr, Buffer, Platform, Library}
use pseudoroot.Interpose.Inode.{found, key_from_stat, source_stat}
use pseudoroot.Interpose.Backend.{
  ensure_library_init, current_fake_ids, current_fake_uid, current_fake_gid, get_inode, set_inode,
  update_inode,
}
use pseudoroot.Interpose.Files.{patch_inode_fields, apply_default_ownership, modify_stat_buf}
use pseudoroot.Interpose.Xattr.{read_cstr, source_inode, write_xattr_value, fake_getxattr}

-- The library is set up, its backend holds the table `t` and these ids, and a read changes nothing.
pub record Serves (p : Platform) {D : DashMap} (l : Library D) (t : Table) (uid gid : ℕ)
    : Type 0 where
  pub done : l.library_init_done ≡ true
  pub idle : l.library_initializing ≡ false
  pub ready : ensure_library_init p l ≡ l
  pub ids : current_fake_ids p l ≡ (l, (uid, gid))
  pub lookup : (q : InodeKey) → get_inode p q l ≡ (l, t q)

-- the report on a file with this entry
abbrev pub shown : Option FakeInode → ℕ → ℕ → Stat → Stat
shown (some inode) own_uid own_gid st = record st {
  st_uid = inode.uid;
  st_gid = inode.gid;
  st_mode = unwrap_or inode.mode st.st_mode;
  st_rdev = unwrap_or inode.rdev st.st_rdev;
}
shown none own_uid own_gid st = record st { st_uid = own_uid; st_gid = own_gid }

module _ (p : Platform) {D : DashMap} {l : Library D} {t : Table} {uid gid : ℕ}
    (s : Serves p l t uid gid) where
  -- For a library that serves a table, modify_stat_buf changes no state and reports the ids, and
  -- the mode and rdev if recorded, of the entry of the file, or without an entry the ids of the
  -- state of the process itself.
  pub modify_stat_buf-shown :
      (st : Stat)
      → modify_stat_buf p st l
        ≡ (l, shown (t (key_from_stat st)) l.global.current_uid l.global.current_gid st)
  unfolding modify_stat_buf patch_inode_fields apply_default_ownership
  modify_stat_buf-shown st = elim (Option-cases (t (key_from_stat st))) [
    | inl e ↦ simp (modify_stat_buf, s.idle, s.ready, s.done, s.lookup (key_from_stat st), e)
    | inr (inode, e) ↦
        simp (modify_stat_buf, s.idle, s.ready, s.done, s.lookup (key_from_stat st), e)
  ]

  pub current_fake_uid-ids : current_fake_uid p l ≡ (l, uid)
  unfolding current_fake_uid
  current_fake_uid-ids = rw s.ids

  pub current_fake_gid-ids : current_fake_gid p l ≡ (l, gid)
  unfolding current_fake_gid
  current_fake_gid-ids = rw s.ids

  -- An update reads the entry, or a new one of the current ids, and writes it back.
  pub update_inode-set_inode :
      (key : InodeKey) (f : FakeInode → FakeInode)
      → update_inode p key f l ≡ set_inode p key (f (unwrap_or (t key) (new uid gid))) l
  unfolding update_inode
  update_inode-set_inode key f = elim (Option-cases (t key)) [
    | inl e ↦
        rw (s.lookup key, update_inode, e, s.lookup key, current_fake_uid-ids, current_fake_gid-ids)
    | inr (inode, e) ↦ rw (s.lookup key, update_inode, e, s.lookup key)
  ]

  -- For a library that serves a table in which the file has an entry with the attribute,
  -- fake_getxattr on a source that stat finds and a name that is UTF-8 changes no state and
  -- answers as write_xattr_value does for the recorded value, without a call of the system.
  pub fake_getxattr-stored :
      (source : StatSource) (name : CStr) (buf : Buffer) (size : ℕ) (st : Stat) (inode : FakeInode)
      (key_name value : Bytes)
      → source_stat p.sys source ≡ found st
      → read_cstr p.sys name ≡ some key_name
      → t (key_from_stat st) ≡ some inode
      → Xattrs.get key_name inode.xattrs ≡ some value
      → fake_getxattr p source name buf size l ≡ (l, write_xattr_value value buf size)
  unfolding fake_getxattr source_inode
  fake_getxattr-stored source name buf size st inode key_name value stats utf8 e has = rw (
    utf8,
    fake_getxattr,
    stats,
    source_inode,
    s.ready,
    s.lookup (key_from_stat st),
    e,
    has,
    stats,
    source_inode,
    s.ready,
    s.lookup (key_from_stat st),
  )

  -- For a library that serves a table, a source that stat finds, and a name that is UTF-8 and that
  -- the entry of the file, if there is one, has no attribute of, fake_getxattr changes no state and
  -- answers as the system does.
  pub fake_getxattr-unrecorded :
      (source : StatSource) (name : CStr) (buf : Buffer) (size : ℕ) (st : Stat) (key_name : Bytes)
      → source_stat p.sys source ≡ found st
      → read_cstr p.sys name ≡ some key_name
      → (t (key_from_stat st) >>= λ inode. Xattrs.get key_name inode.xattrs) ≡ none
      → fake_getxattr p source name buf size l ≡ (l, p.sys.real_getxattr source name buf size)
  unfolding fake_getxattr source_inode
  fake_getxattr-unrecorded source name buf size st key_name stats utf8 lacks = rw (
    utf8,
    fake_getxattr,
    stats,
    source_inode,
    s.ready,
    s.lookup (key_from_stat st),
    lacks,
    stats,
    source_inode,
    s.ready,
    s.lookup (key_from_stat st),
  )

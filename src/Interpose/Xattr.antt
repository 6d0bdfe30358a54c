-- ===== src/Interpose/Xattr.antt =====
-- pseudoroot/interpose/src/ownership.rs: extended attributes of an inode, their values and lists.
pub mod Buffers
pub mod Names
pub mod Roundtrip
pub mod Session
pub mod Exact
use pseudoroot.Prelude.{
  ℕ, zero, suc, ◌+◌, ◌-◌, ◌*◌, ◌%◌, ◌^◌, Bool, true, false, ◌||◌, not, Option, none, some, List, [],
  ◌∷◌, ◌++◌, if◌then◌else◌, leb, ltb, ◌==◌, length, take, drop, ◌>>=◌,
}
use pseudoroot.Prelude.Bytes.{Bytes, bytes_eq}
use pseudoroot.Xattrs
use pseudoroot.Inode.{InodeKey, FakeInode}
use pseudoroot.State.{DashMap}
use pseudoroot.Interpose.{ℤ, pos, negsuc, StatSource, CStr, Buffer, Sys, Platform, Library}
use pseudoroot.Interpose.Inode.{found, failed, key_from_stat, source_stat}
use pseudoroot.Interpose.Backend.{ensure_library_init, get_inode, update_inode}

abbrev max_xattr : ℕ
max_xattr = 64 * 1024

-- `as i32`
abbrev pub as_i32 : ℕ → ℤ
as_i32 n = let low = n % 2 ^ 32 in if ltb low (2 ^ 31) then pos low else negsuc (2 ^ 32 - 1 - low)

-- -EINVAL and -ERANGE
abbrev pub neg_einval : ℤ
neg_einval = negsuc 21

abbrev pub neg_erange : ℤ
neg_erange = negsuc 33

unfoldable pub read_cstr : Sys → CStr → Option Bytes
read_cstr sys none = none
read_cstr sys (some s) = if sys.is_utf8 s then some s else none

-- the first `size` bytes behind a pointer, at most `MAX_XATTR`
unfoldable pub read_xattr_value : Buffer → ℕ → Bytes
read_xattr_value none size = []
read_xattr_value (some memory) size = take (if leb size max_xattr then size else max_xattr) memory

-- `copy_nonoverlapping` to the front of a buffer that is not null
abbrev pub overwrite : Bytes → Buffer → Buffer
overwrite bytes none = none
overwrite bytes (some memory) = some (bytes ++ drop (length bytes) memory)

-- `write_xattr_value` and `write_xattr_list`: the result, and the caller's buffer
unfoldable pub write_xattr_value : Bytes → Buffer → ℕ → ℤ × Buffer
write_xattr_value value buf size =
    if size == 0
    then (as_i32 (length value), buf)
    else if ltb size (length value)
    then (neg_erange, buf)
    else (as_i32 (length value), overwrite value buf)

-- `c` in front of the first name
abbrev pub push : ℕ → List Bytes → List Bytes
push c [] = (c ∷ []) ∷ []
push c (n ∷ names) = (c ∷ n) ∷ names

-- `split(|&c| c == 0)`
unfoldable pub split_names : Bytes → List Bytes
split_names [] = [] ∷ []
split_names (c ∷ bytes) = let rest = split_names bytes in if c == 0 then [] ∷ rest else push c rest

-- the names that are not empty
unfoldable pub non_empty : List Bytes → List Bytes
non_empty [] = []
non_empty ([] ∷ names) = non_empty names
non_empty ((b ∷ n) ∷ names) = (b ∷ n) ∷ non_empty names

unfoldable pub contains : List Bytes → Bytes → Bool
contains [] name = false
contains (n ∷ names) name = bytes_eq n name || contains names name

-- the loop over `extra`
unfoldable pub add_names : List Bytes → List Bytes → List Bytes
unfolding contains
add_names names [] = names
add_names names (n ∷ extra) =
    add_names (if contains names n then names else names ++ (n ∷ [])) extra

-- each name with the NUL behind it
unfoldable pub join_names : List Bytes → Bytes
join_names [] = []
join_names (n ∷ names) = n ++ (0 ∷ join_names names)

unfoldable pub merge_xattr_lists : Bytes → List Bytes → Bytes
unfolding split_names non_empty add_names join_names
merge_xattr_lists real_list extra = join_names (add_names (non_empty (split_names real_list)) extra)

-- What the source copies out of the list buffer after the real call. Behind the end of the buffer it
-- would read the caller's memory; the model stops there.
unfoldable pub listed : ℤ → Buffer → Bytes
listed (pos n) (some memory) = take n memory
listed _ _ = []

-- the recorded names
abbrev extra_names : Option FakeInode → List Bytes
extra_names none = []
extra_names (some inode) = Xattrs.keys inode.xattrs

module _ (p : Platform) {D : DashMap} where
  abbrev record_xattr_for_key : InodeKey → Bytes → Bytes → Library D → Library D
  record_xattr_for_key key name value l =
      update_inode p key (λ inode. record inode { xattrs = Xattrs.insert name value inode.xattrs })
        l

  abbrev remove_xattr_for_key : InodeKey → Bytes → Library D → Library D
  remove_xattr_for_key key name l =
      update_inode p key (λ inode. record inode { xattrs = Xattrs.remove name inode.xattrs }) l

  unfoldable pub fake_setxattr : StatSource → CStr → Buffer → ℕ → Library D → Library D × ℤ
  fake_setxattr source name value size l =
      let ready = ensure_library_init p l in
      elim (read_cstr p.sys name) [
        | none ↦ (ready, neg_einval)
        | some key_name ↦ elim (source_stat p.sys source) [
          | found st ↦ (
            record_xattr_for_key (key_from_stat st) key_name (read_xattr_value value size) ready,
            pos 0,
          )
          | failed errno ↦ (ready, errno)
        ]
      ]

  -- `get_inode` of the file behind a source that can be looked at
  unfoldable pub source_inode : StatSource → Library D → Library D × Option FakeInode
  source_inode source l = elim (source_stat p.sys source) [
    | found st ↦ get_inode p (key_from_stat st) l
    | failed errno ↦ (l, none)
  ]

  -- the result, and the caller's buffer
  unfoldable pub fake_getxattr :
      StatSource → CStr → Buffer → ℕ → Library D → Library D × (ℤ × Buffer)
  unfolding source_inode
  fake_getxattr source name value size l =
      let ready = ensure_library_init p l in
      elim (read_cstr p.sys name) [
        | none ↦ (ready, (neg_einval, value))
        | some name_key ↦
            let r = source_inode source ready in
            elim (r.1 >>= λ inode. Xattrs.get name_key inode.xattrs) [
              | some stored ↦ (r.0, write_xattr_value stored value size)
              | none ↦ (r.0, p.sys.real_getxattr source name value size)
            ]
      ]

  unfoldable pub fake_listxattr : StatSource → Buffer → ℕ → Library D → Library D × (ℤ × Buffer)
  unfolding source_inode
  fake_listxattr source list size l =
      let ready = ensure_library_init p l in
      let r = source_inode source ready in
      let real = p.sys.real_listxattr source list size in
      elim (extra_names r.1) [
        | [] ↦ (r.0, real)
        | n ∷ extra ↦ (
          r.0,
          write_xattr_value (merge_xattr_lists (listed real.0 real.1) (n ∷ extra)) real.1 size,
        )
      ]

  unfoldable pub fake_removexattr : StatSource → CStr → Library D → Library D × ℤ
  fake_removexattr source name l =
      let ready = ensure_library_init p l in
      elim (read_cstr p.sys name) [
        | none ↦ (ready, neg_einval)
        | some key_name ↦ elim (source_stat p.sys source) [
          | found st ↦ (remove_xattr_for_key (key_from_stat st) key_name ready, pos 0)
          | failed errno ↦ (ready, errno)
        ]
      ]

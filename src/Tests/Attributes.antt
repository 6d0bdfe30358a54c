-- ===== src/Tests/Attributes.antt =====
-- The theorems on attributes in a session, at concrete inputs: a short value, and one of 5000 bytes.
use pseudoroot.Prelude.{
  ℕ, zero, suc, ◌<◌, ◌≡◌, refl, leb→le, length, take, arith, none, some, [], ◌∷◌, unwrap_or,
}
use pseudoroot.Prelude.Bytes.{Bytes}
use pseudoroot.Xattrs
use pseudoroot.Xattrs.{Xattrs}
use pseudoroot.Inode.{FakeInode, new}
use pseudoroot.Codec.Sample
use pseudoroot.Codec.Sample.{number, pair, list, bytes, codec, write_items}
use pseudoroot.Shm.Page.{kept, fits}
use pseudoroot.Shm.Map
use pseudoroot.Interpose.{pos, CStr}
use pseudoroot.Interpose.Xattr.{read_cstr, read_xattr_value, fake_setxattr, fake_getxattr}
use pseudoroot.Interpose.Xattr.Session.{fake_setxattr-loses}
use pseudoroot.Interpose.Xattr.Exact.{setxattr-getxattr_session}
use pseudoroot.Tests.Session.{session, session-IsNew, session-IsValid, session-room, key}
use pseudoroot.Tests.Processes.{length-items}
use pseudoroot.Tests.Files.{
  file, platform, in_session, in_session-IsShared, source, source_stat-file,
}

abbrev user : CStr
user = some (b'u' ∷ [])

-- what a new file has behind the call
abbrev entry : FakeInode
entry =
    unwrap_or (Map.get_inode Sample.xattrs session key)
      (new session.header.current_uid session.header.current_gid)

utf8 : read_cstr platform.sys user ≡ some (b'u' ∷ [])
unfolding read_cstr
utf8 = refl

short-kept :
    kept Sample.xattrs (Xattrs.insert (b'u' ∷ []) (4 ∷ 5 ∷ []) entry.xattrs)
    ≡ Xattrs.insert (b'u' ∷ []) (4 ∷ 5 ∷ []) entry.xattrs
unfolding kept fits Xattrs.insert Sample.xattrs codec list pair bytes number write_items
short-kept = rw (session-IsNew.models.1 key) refl

zeroes : ℕ → Bytes
zeroes zero = []
zeroes (suc n) = 0 ∷ zeroes n

abbrev long : Bytes
long = zeroes 5000

-- A value of more than 4092 bytes does not fit in a page.
long-kept : (v : Bytes) → 4092 < length v → kept Sample.xattrs ((b'u' ∷ [], v) ∷ []) ≡ []
unfolding kept fits Sample.xattrs codec list pair bytes number write_items
long-kept v h = let size = length-items v [] in ground (arith, size)

length-zeroes : (n : ℕ) → length (take n (zeroes n)) ≡ n
unfolding zeroes
length-zeroes zero = refl
length-zeroes (suc n) = omega (arith, length-zeroes n)

long-lost :
    kept Sample.xattrs (Xattrs.insert (b'u' ∷ []) (read_xattr_value (some long) 5000) entry.xattrs)
    ≡ []
unfolding Xattrs.insert read_xattr_value
long-lost =
    rw (session-IsNew.models.1 key)
      (long-kept (take 5000 (zeroes 5000)) (omega (arith, length-zeroes 5000)))

setxattr-getxattr_session_example :
    ((fake_setxattr platform source user (some (4 ∷ 5 ∷ [])) 2 in_session).1 ≡ pos 0)
    × (fake_getxattr platform source user
          (some (0 ∷ 0 ∷ 9 ∷ []))
          3
          (fake_setxattr platform source user (some (4 ∷ 5 ∷ [])) 2 in_session).0
        ≡ (
          (fake_setxattr platform source user (some (4 ∷ 5 ∷ [])) 2 in_session).0,
          (pos 2, some (4 ∷ 5 ∷ 9 ∷ [])),
        ))
setxattr-getxattr_session_example =
    setxattr-getxattr_session platform in_session-IsShared session-IsValid source user file
      (b'u' ∷ []) source_stat-file utf8 session-room (4 ∷ 5 ∷ []) [] (0 ∷ 0 ∷ 9 ∷ []) 3
      (leb→le _ _ refl) (leb→le _ _ refl) (leb→le _ _ refl) (leb→le _ _ refl) short-kept

fake_setxattr-loses_example :
    ((fake_setxattr platform source user (some long) 5000 in_session).1 ≡ pos 0)
    × (fake_getxattr platform source user none 0
          (fake_setxattr platform source user (some long) 5000 in_session).0
        ≡ (
          (fake_setxattr platform source user (some long) 5000 in_session).0,
          platform.sys.real_getxattr source user none 0,
        ))
fake_setxattr-loses_example =
    fake_setxattr-loses platform in_session-IsShared session-IsValid source user (some long) 5000
      file (b'u' ∷ []) source_stat-file utf8 session-room user (b'u' ∷ []) none 0 long-lost utf8

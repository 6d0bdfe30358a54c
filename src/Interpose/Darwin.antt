-- ===== src/Interpose/Darwin.antt =====
-- The attribute hooks of pseudoroot/interpose/src/platform/macos.rs: the functions of Darwin take
-- options, read as their bits, in place of the variants with an `l`, and a position, which is not
-- used.
pub mod Wrappers
pub mod Unrecorded
use pseudoroot.Prelude.{ℕ, ◌≡◌, Bool, not, bit_and, ◌==◌, if◌then◌else◌, Bool-cases, inl, inr}
use pseudoroot.State.{DashMap}
use pseudoroot.Interpose.{ℤ, CStr, Buffer, Platform, Library}
use pseudoroot.Interpose.Sources.{
  fake_setxattr_path, fake_setxattr_fd, fake_getxattr_path, fake_getxattr_fd, fake_listxattr_path,
  fake_listxattr_fd, fake_removexattr_path, fake_removexattr_fd,
}
use pseudoroot.Interpose.Linux.Attributes

-- `XATTR_NOFOLLOW`
abbrev pub xattr_nofollow : ℕ
xattr_nofollow = 1

unfoldable pub nofollow : ℕ → Bool
nofollow options = not (bit_and options xattr_nofollow == 0)

module _ (p : Platform) {D : DashMap} where
  unfoldable pub setxattr : CStr → CStr → Buffer → ℕ → ℕ → ℕ → Library D → Library D × ℤ
  setxattr name attribute value size position options l =
      fake_setxattr_path p name attribute value size (nofollow options) l

  unfoldable pub fsetxattr : ℤ → CStr → Buffer → ℕ → ℕ → ℕ → Library D → Library D × ℤ
  fsetxattr f attribute value size position options l = fake_setxattr_fd p f attribute value size l

  unfoldable pub getxattr : CStr → CStr → Buffer → ℕ → ℕ → ℕ → Library D → Library D × (ℤ × Buffer)
  getxattr name attribute value size position options l =
      fake_getxattr_path p name attribute value size (nofollow options) l

  unfoldable pub fgetxattr : ℤ → CStr → Buffer → ℕ → ℕ → ℕ → Library D → Library D × (ℤ × Buffer)
  fgetxattr f attribute value size position options l = fake_getxattr_fd p f attribute value size l

  unfoldable pub listxattr : CStr → Buffer → ℕ → ℕ → Library D → Library D × (ℤ × Buffer)
  listxattr name list size options l = fake_listxattr_path p name list size (nofollow options) l

  unfoldable pub flistxattr : ℤ → Buffer → ℕ → ℕ → Library D → Library D × (ℤ × Buffer)
  flistxattr f list size options l = fake_listxattr_fd p f list size l

  unfoldable pub removexattr : CStr → CStr → ℕ → Library D → Library D × ℤ
  removexattr name attribute options l = fake_removexattr_path p name attribute (nofollow options) l

  unfoldable pub fremovexattr : ℤ → CStr → ℕ → Library D → Library D × ℤ
  fremovexattr f attribute options l = fake_removexattr_fd p f attribute l

module _ (p : Platform) (D : DashMap) where
  -- What the hooks on a path do is what those of Linux do: those that do not follow a link where
  -- the options have that bit, and those that follow one otherwise.
  pub record FollowsLinux (options : ℕ) : Type 0 where
    pub set :
        (name attribute : CStr) (value : Buffer) (size position : ℕ) (l : Library D)
        → setxattr p name attribute value size position options l ≡ (
            if nofollow options
            then Attributes.lsetxattr p name attribute value size l
            else Attributes.setxattr p name attribute value size l)
    pub get :
        (name attribute : CStr) (value : Buffer) (size position : ℕ) (l : Library D)
        → getxattr p name attribute value size position options l ≡ (
            if nofollow options
            then Attributes.lgetxattr p name attribute value size l
            else Attributes.getxattr p name attribute value size l)
    pub list :
        (name : CStr) (names : Buffer) (size : ℕ) (l : Library D)
        → listxattr p name names size options l ≡ (
            if nofollow options
            then Attributes.llistxattr p name names size l
            else Attributes.listxattr p name names size l)
    pub remove :
        (name attribute : CStr) (l : Library D)
        → removexattr p name attribute options l ≡ (
            if nofollow options
            then Attributes.lremovexattr p name attribute l
            else Attributes.removexattr p name attribute l)

  nofollow-FollowsLinux : (options : ℕ) → FollowsLinux options
  unfolding setxattr getxattr listxattr removexattr Attributes.setxattr Attributes.lsetxattr
      Attributes.getxattr Attributes.lgetxattr Attributes.listxattr Attributes.llistxattr
      Attributes.removexattr Attributes.lremovexattr
  nofollow-FollowsLinux options = elim (Bool-cases (nofollow options)) [
    | inl e ↦ record {
      set = λ name attribute value size position l. rw (setxattr, e);
      get = λ name attribute value size position l. rw (getxattr, e);
      list = λ name names size l. rw (listxattr, e);
      remove = λ name attribute l. rw (removexattr, e);
    }
    | inr e ↦ record {
      set = λ name attribute value size position l. rw (setxattr, e);
      get = λ name attribute value size position l. rw (getxattr, e);
      list = λ name names size l. rw (listxattr, e);
      remove = λ name attribute l. rw (removexattr, e);
    }
  ]

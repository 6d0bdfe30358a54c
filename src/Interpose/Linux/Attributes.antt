-- ===== src/Interpose/Linux/Attributes.antt =====
-- The attribute hooks of pseudoroot/interpose/src/platform/linux.rs.
use pseudoroot.Prelude.{ℕ, true, false}
use pseudoroot.State.{DashMap}
use pseudoroot.Interpose.{ℤ, CStr, Buffer, Platform, Library}
use pseudoroot.Interpose.Sources.{
  fake_setxattr_path, fake_setxattr_fd, fake_getxattr_path, fake_getxattr_fd, fake_listxattr_path,
  fake_listxattr_fd, fake_removexattr_path, fake_removexattr_fd,
}

module _ (p : Platform) {D : DashMap} where
  unfoldable pub setxattr : CStr → CStr → Buffer → ℕ → Library D → Library D × ℤ
  setxattr name attribute value size l = fake_setxattr_path p name attribute value size false l

  unfoldable pub getxattr : CStr → CStr → Buffer → ℕ → Library D → Library D × (ℤ × Buffer)
  getxattr name attribute value size l = fake_getxattr_path p name attribute value size false l

  unfoldable pub listxattr : CStr → Buffer → ℕ → Library D → Library D × (ℤ × Buffer)
  listxattr name list size l = fake_listxattr_path p name list size false l

  unfoldable pub removexattr : CStr → CStr → Library D → Library D × ℤ
  removexattr name attribute l = fake_removexattr_path p name attribute false l

  unfoldable pub lsetxattr : CStr → CStr → Buffer → ℕ → Library D → Library D × ℤ
  lsetxattr name attribute value size l = fake_setxattr_path p name attribute value size true l

  unfoldable pub lgetxattr : CStr → CStr → Buffer → ℕ → Library D → Library D × (ℤ × Buffer)
  lgetxattr name attribute value size l = fake_getxattr_path p name attribute value size true l

  unfoldable pub llistxattr : CStr → Buffer → ℕ → Library D → Library D × (ℤ × Buffer)
  llistxattr name list size l = fake_listxattr_path p name list size true l

  unfoldable pub lremovexattr : CStr → CStr → Library D → Library D × ℤ
  lremovexattr name attribute l = fake_removexattr_path p name attribute true l

  unfoldable pub fsetxattr : ℤ → CStr → Buffer → ℕ → Library D → Library D × ℤ
  fsetxattr f attribute value size l = fake_setxattr_fd p f attribute value size l

  unfoldable pub fgetxattr : ℤ → CStr → Buffer → ℕ → Library D → Library D × (ℤ × Buffer)
  fgetxattr f attribute value size l = fake_getxattr_fd p f attribute value size l

  unfoldable pub flistxattr : ℤ → Buffer → ℕ → Library D → Library D × (ℤ × Buffer)
  flistxattr f list size l = fake_listxattr_fd p f list size l

  unfoldable pub fremovexattr : ℤ → CStr → Library D → Library D × ℤ
  fremovexattr f attribute l = fake_removexattr_fd p f attribute l

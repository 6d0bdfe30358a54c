-- ===== src/Interpose/Xattr/Buffers.antt =====
-- What a hook writes to the caller's buffer.
use pseudoroot.Prelude.{
  ℕ, zero, suc, ◌≤◌, ◌≡◌, refl, inl, inr, some, [], ◌∷◌, ◌++◌, arith, length, drop, Bool-cases, ltb,
  ap, ◌==◌,
}
use pseudoroot.Prelude.Bytes.{Bytes}
use pseudoroot.Interpose.Xattr.{write_xattr_value}

drop-overwrite :
    (value memory : Bytes) (size : ℕ)
    → length value ≤ size
    → size ≤ length memory
    → drop size (value ++ drop (length value) memory) ≡ drop size memory
drop-overwrite [] memory size h k = refl
drop-overwrite (b ∷ value) memory zero h k = absurd (omega arith)
drop-overwrite (b ∷ value) [] (suc size) h k = absurd (omega arith)
drop-overwrite (b ∷ value) (x ∷ memory) (suc size) h k =
    drop-overwrite value memory size (omega arith) (omega arith)

length-overwrite :
    (value memory : Bytes)
    → length value ≤ length memory
    → length (value ++ drop (length value) memory) ≡ length memory
length-overwrite [] memory h = refl
length-overwrite (b ∷ value) [] h = absurd (omega arith)
length-overwrite (b ∷ value) (x ∷ memory) h = ap suc (length-overwrite value memory (omega arith))

-- For a size within the buffer of the caller, write_xattr_value keeps the length of the buffer
-- and every byte from that size on.
pub write_xattr_value-inside :
    (value memory : Bytes) (size : ℕ)
    → size ≤ length memory
    → (after : Bytes) × ((write_xattr_value value (some memory) size).1 ≡ some after)
      × (length after ≡ length memory)
      × (drop size after ≡ drop size memory)
unfolding write_xattr_value
write_xattr_value-inside value memory size h = elim (Bool-cases (size == 0)) [
  | inl e ↦ (memory, rw e, refl, refl)
  | inr e ↦ elim (Bool-cases (ltb size (length value))) [
    | inl f ↦ (memory, rw (e, f), refl, refl)
    | inr f ↦
        let small : length value ≤ size = ground arith in
        (
          value ++ drop (length value) memory,
          rw (e, f),
          length-overwrite value memory (omega arith),
          drop-overwrite value memory size small h,
        )
  ]
]

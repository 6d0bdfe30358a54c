-- ===== src/Shm/Page.antt =====
-- The xattr page of a slot: a length in four bytes, then the serialized map (`write_xattrs` and
-- `read_xattrs` of pseudoroot-core/src/shm_map.rs).
use pseudoroot.Prelude.{
  ℕ, ◌+◌, ◌-◌, ◌%◌, ◌^◌, ◌≤◌, ◌<◌, ◌*◌, ◌/◌, ◌≡◌, refl, inl, inr, ◌||◌, Option, none, some, [], ◌∷◌,
  ◌++◌, arith, ltb, leb, ◌==◌, if◌then◌else◌, unwrap_or, length, take, drop, take-append,
  Option-cases,
}
use pseudoroot.Prelude.Bytes.{Bytes, to_le_bytes, from_le_bytes}
use pseudoroot.Xattrs.{Xattrs}
use pseudoroot.Codec.{Codec}
use pseudoroot.Shm.Layout.{xattr_page_size}

-- `page[offset..offset + bytes.len()].copy_from_slice(bytes)`
unfoldable pub copy_from_slice : ℕ → Bytes → Bytes → Bytes
copy_from_slice offset bytes page =
    take offset page ++ bytes ++ drop (length bytes) (drop offset page)

module _ (wincode : Codec Xattrs) where
  -- the serialized map, if it fits in a page behind the length
  unfoldable pub fits : Xattrs → Option Bytes
  fits xattrs = elim (wincode.serialize xattrs) [
    | none ↦ none
    | some bytes ↦ if leb (length bytes) (xattr_page_size - 4) then some bytes else none
  ]

  unfoldable pub write_page : Xattrs → Bytes → Bytes
  write_page [] page = copy_from_slice 0 (to_le_bytes 0) page
  write_page (x ∷ xattrs) page = elim (fits (x ∷ xattrs)) [
    | some bytes ↦
        copy_from_slice 4 bytes (copy_from_slice 0 (to_le_bytes (length bytes % 2 ^ 32)) page)
    | none ↦ copy_from_slice 0 (to_le_bytes 0) page
  ]

  unfoldable pub read_page : Bytes → Xattrs
  read_page page =
      let len = from_le_bytes (take 4 page) in
      if len == 0 || ltb (xattr_page_size - 4) len
      then []
      else unwrap_or (wincode.deserialize (take len (drop 4 page))) []

  -- The map that a page holds after a write: all of it, or nothing if it does not fit.
  unfoldable pub kept : Xattrs → Xattrs
  kept [] = []
  kept (x ∷ xattrs) = elim (fits (x ∷ xattrs)) [ some bytes ↦ x ∷ xattrs | none ↦ [] ]

  read_page-copy :
      (bytes page : Bytes)
      → 0 < length bytes
      → length bytes ≤ xattr_page_size - 4
      → read_page
          (copy_from_slice 4 bytes (copy_from_slice 0 (to_le_bytes (length bytes % 2 ^ 32)) page))
        ≡ unwrap_or (wincode.deserialize bytes) []
  unfolding read_page copy_from_slice to_le_bytes from_le_bytes
  read_page-copy bytes page lo hi =
      let e : length bytes % 2 ^ 32 % 256
            + length bytes % 2 ^ 32 / 2 ^ 8 % 256 * 2 ^ 8
            + length bytes % 2 ^ 32 / 2 ^ 16 % 256 * 2 ^ 16
            + length bytes % 2 ^ 32 / 2 ^ 24 % 256 * 2 ^ 24
          ≡ length bytes =
        omega arith in
      rw (e, take-append) (ground arith)

  fits-eq-some :
      (xattrs : Xattrs) (bytes : Bytes)
      → fits xattrs ≡ some bytes
      → (wincode.serialize xattrs ≡ some bytes) × (length bytes ≤ xattr_page_size - 4)
  unfolding fits
  fits-eq-some xattrs bytes h = ground arith

  read_page-no_bytes : (page : Bytes) → read_page (copy_from_slice 0 (to_le_bytes 0) page) ≡ []
  unfolding read_page copy_from_slice to_le_bytes from_le_bytes
  read_page-no_bytes page = refl

  -- What is read from an attribute page after a write is the attributes written, or none if they
  -- cannot be serialized or are too long for the page.
  pub read_page-write_page :
      (xattrs : Xattrs) (page : Bytes) → read_page (write_page xattrs page) ≡ kept xattrs
  unfolding write_page kept
  read_page-write_page [] page = read_page-no_bytes page
  read_page-write_page (x ∷ xattrs) page = elim (Option-cases (fits (x ∷ xattrs))) [
    | inl e ↦ rw (e, write_page, kept) (read_page-no_bytes page)
    | inr (bytes, e) ↦
        let (serialized, small) = fits-eq-some (x ∷ xattrs) bytes e in
        rw
          (
            e,
            write_page,
            kept,
            read_page-copy bytes page (wincode.nonempty _ bytes serialized) small,
          )
          (rw (wincode.roundtrip _ bytes serialized))
  ]

-- ===== src/Xattrs.antt =====
-- The extended attributes of an inode, the `HashMap<String, Vec<u8>>` of
-- pseudoroot-core/src/state.rs, as an association list; a name is its UTF-8 bytes.
-- The operations are those of the standard library that the program calls.
use pseudoroot.Prelude.{◌≡◌, refl, Option, none, some, List, [], ◌∷◌, arith, if◌then◌else◌}
use pseudoroot.Prelude.Bytes.{Bytes, bytes_eq, bytes_eq→eq, bytes_eq_refl}

abbrev pub Xattrs : Type 0
Xattrs = List (Bytes × Bytes)

-- `HashMap::get`
unfoldable pub get : Bytes → Xattrs → Option Bytes
get name [] = none
get name ((n, v) ∷ m) = if bytes_eq n name then some v else get name m

-- `HashMap::insert`
unfoldable pub insert : Bytes → Bytes → Xattrs → Xattrs
insert name value [] = (name, value) ∷ []
insert name value ((n, v) ∷ m) =
    if bytes_eq n name then (n, value) ∷ m else (n, v) ∷ insert name value m

-- `HashMap::remove`
unfoldable pub remove : Bytes → Xattrs → Xattrs
remove name [] = []
remove name ((n, v) ∷ m) =
    let rest = remove name m in if bytes_eq n name then rest else (n, v) ∷ rest

-- `HashMap::keys`
unfoldable pub keys : Xattrs → List Bytes
keys [] = []
keys ((n, v) ∷ m) = n ∷ keys m

pub get-insert :
    (k j v : Bytes) (m : Xattrs) → get j (insert k v m) ≡ (if bytes_eq k j then some v else get j m)
unfolding get insert
get-insert k j v [] = refl
get-insert k j v ((i, w) ∷ m) =
    ground (
      arith,
      bytes_eq→eq k j,
      bytes_eq→eq i k,
      bytes_eq→eq i j,
      bytes_eq_refl i,
      get-insert k j v m,
    )

pub get-remove :
    (k j : Bytes) (m : Xattrs) → get j (remove k m) ≡ (if bytes_eq k j then none else get j m)
unfolding get remove
get-remove k j [] = ground arith
get-remove k j ((i, w) ∷ m) =
    ground
      (arith, bytes_eq→eq k j, bytes_eq→eq i k, bytes_eq→eq i j, bytes_eq_refl i, get-remove k j m)

-- ===== src/Supervisor/Publication.antt =====
-- The extraction of the embedded library, as other processes see it.
use pseudoroot.Prelude.{
  ℕ, ◌==◌, true, false, ◌≡◌, refl, ◌∙◌, arith, Option, none, some, List, [], ◌∷◌, ◌++◌, take,
  Bool-cases, Option-cases, ◌⊎◌, inl, inr,
}
use pseudoroot.Prelude.Bytes.{Bytes, bytes_eq, codes, bytes_eq_refl}
use pseudoroot.Supervisor.Process.{Process}
use pseudoroot.Supervisor.Library.{
  join, embed_dir, ends_in_slash, lib_name, tmp_name, Node, file, Disk, put, exists, Extraction,
  writing, extract_embedded_lib,
}

-- no file, or the whole library
abbrev pub IsWhole : Bytes → Bytes → Disk → Type 0
IsWhole path content disk = (disk path ≡ none) ⊎ (disk path ≡ some (file content))

abbrev pub All : (Disk → Type 0) → List Disk → Type 0
All P [] = Unit
All P (disk ∷ disks) = P disk × All P disks

All-append : (P : Disk → Type 0) (xs ys : List Disk) → All P xs → All P ys → All P (xs ++ ys)
All-append P [] ys h h' = h'
All-append P (x ∷ xs) ys h h' = (h.0, All-append P xs ys h.1 h')

put-other :
    (path content tmp : Bytes) (node : Option Node) (disk : Disk)
    → bytes_eq tmp path ≡ false
    → IsWhole path content disk
    → IsWhole path content (put tmp node disk)
put-other path content tmp state disk ne h = rw ne h

All-writing :
    (path content tmp bytes : Bytes) (lengths : List ℕ) (disk : Disk)
    → bytes_eq tmp path ≡ false
    → IsWhole path content disk
    → All (IsWhole path content) (writing tmp bytes lengths disk)
unfolding writing
All-writing path content tmp bytes [] disk ne h =
    (put-other path content tmp (some (file [])) disk ne h, tt)
All-writing path content tmp bytes (n ∷ lengths) disk ne h = (
  put-other path content tmp (some (file (take n bytes))) disk ne h,
  All-writing path content tmp bytes lengths disk ne h,
)

bytes_eq-append : (xs ys zs : Bytes) → bytes_eq (xs ++ ys) (xs ++ zs) ≡ bytes_eq ys zs
bytes_eq-append [] ys zs = refl
bytes_eq-append (x ∷ xs) ys zs =
    let same : (x == x) ≡ true = ground arith in rw (same, bytes_eq-append xs ys zs)

bytes_eq-join :
    (dir : Bytes) (a b : ℕ) (xs ys : Bytes)
    → (a == b'/') ≡ false
    → (b == b'/') ≡ false
    → (a == b) ≡ false
    → bytes_eq (join dir (a ∷ xs)) (join dir (b ∷ ys)) ≡ false
unfolding join
bytes_eq-join [] a b xs ys ha hb ne = rw ne
bytes_eq-join (c ∷ dir) a b xs ys ha hb ne = elim (Bool-cases (ends_in_slash (c ∷ dir))) [
  | inl e ↦ rw (ha, hb, e) (bytes_eq-append (c ∷ dir) (a ∷ xs) (b ∷ ys) ∙ rw ne)
  | inr e ↦ rw (ha, hb, e) (bytes_eq-append (c ∷ dir) (b'/' ∷ a ∷ xs) (b'/' ∷ b ∷ ys) ∙ rw ne)
]

lib_name-l : (p : Process) → (rest : Bytes) × (lib_name p ≡ b'l' ∷ rest)
unfolding lib_name
lib_name-l p = elim (Bool-cases p.macos) [
  | inl e ↦ (codes "ibpseudoroot_lib.dylib", rw e refl)
  | inr e ↦ (codes "ibpseudoroot_lib.so", rw e refl)
]

-- The temporary file is not the library.
tmp-ne :
    (p : Process) (dir : Bytes) → bytes_eq (join dir (tmp_name p)) (join dir (lib_name p)) ≡ false
unfolding tmp_name
tmp-ne p dir =
    let (rest, e) = lib_name-l p in rw e (bytes_eq-join dir b'.' b'l' _ rest refl refl refl)

absent-none : (disk : Disk) (path : Bytes) → exists disk path ≡ false → disk path ≡ none
absent-none disk path h = elim (Option-cases (disk path)) [
  | inl e ↦ e
  | inr (node, e) ↦ absurd (let set : exists disk path ≡ true = rw (e, exists) refl in cc)
]

-- the state that a run ends in
abbrev pub final : Disk → List Disk → Disk
final disk [] = disk
final disk (last ∷ disks) = last

-- What a run leaves: every state that it goes through, and what its answer stands for.
pub record Published (path content : Bytes) (disk : Disk) (run : List Disk × Option Bytes)
    : Type 0 where
  pub states : All (IsWhole path content) run.0
  pub answer :
      (run.1 ≡ none) ⊎ ((run.1 ≡ some path) × (final disk run.0 path ≡ some (file content)))

-- Where the file of the library is absent and making directories puts no file there, each state
-- of the disk that the extraction goes through has no file there or the whole library, and the
-- extraction answers with no path, or with that of the library, which is whole in the last state.
pub extract_embedded_lib-Published :
    (p : Process) (x : Extraction) (disk : Disk)
    → exists disk (join (embed_dir p x.hash) (lib_name p)) ≡ false
    → (x.create_dir_all (embed_dir p x.hash) disk).0 (join (embed_dir p x.hash) (lib_name p)) ≡ none
    → Published
        (join (embed_dir p x.hash) (lib_name p))
        x.embedded
        disk
        (extract_embedded_lib p x disk)
unfolding extract_embedded_lib
extract_embedded_lib-Published p x disk absent kept =
    let path = join (embed_dir p x.hash) (lib_name p) in
    let tmp = join (embed_dir p x.hash) (tmp_name p) in
    let made : Disk = (x.create_dir_all (embed_dir p x.hash) disk).0 in
    let ne : bytes_eq tmp path ≡ false = tmp-ne p (embed_dir p x.hash) in
    let start : All (IsWhole path x.embedded) (made ∷ disk ∷ []) =
      (inl kept, (inl (absent-none disk path absent), tt)) in
    let partial =
      All-append (IsWhole path x.embedded) (writing tmp x.embedded x.lengths made)
        (made ∷ disk ∷ []) (All-writing path x.embedded tmp x.embedded x.lengths made ne (inl kept))
        start in
    let whole : IsWhole path x.embedded (put tmp (some (file x.embedded)) made) =
      put-other path x.embedded tmp _ made ne (inl kept) in
    let done : put tmp none (put path (some (file x.embedded)) made) path ≡ some (file x.embedded) =
      rw (ne, bytes_eq_refl path) in
    rw absent (elim (Bool-cases (x.create_dir_all (embed_dir p x.hash) disk).1) [
      | inr e ↦ rw e (record { states = start; answer = inl refl })
      | inl e ↦ rw e (elim (Bool-cases x.opened) [
        | inr e ↦ rw e (record { states = start; answer = inl refl })
        | inl e ↦ rw e (elim (Bool-cases x.write_all) [
          | inr e ↦ rw e (record { states = partial; answer = inl refl })
          | inl e ↦ rw e (elim (Bool-cases x.rename) [
            | inr e ↦ rw e (record { states = (whole, partial); answer = inl refl })
            | inl e ↦
                rw e (record { states = (inr done, (whole, partial)); answer = inr (refl, done) })
          ])
        ])
      ])
    ])

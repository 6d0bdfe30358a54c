-- ===== src/Interpose/Xattr/Names.antt =====
-- The list of attribute names that a hook returns.
use pseudoroot.Prelude.{
  ℕ, ◌≡◌, ◌≢◌, refl, inl, inr, ◌||◌, List, [], ◌∷◌, ◌++◌, arith, Bool-cases, ap, ◌==◌,
}
use pseudoroot.Prelude.Bytes.{Bytes, bytes_eq→eq}
use pseudoroot.Interpose.Xattr.{
  push, split_names, non_empty, contains, add_names, join_names, merge_xattr_lists,
}

-- no NUL byte
abbrev pub IsName : Bytes → Type 0
IsName [] = Unit
IsName (b ∷ bytes) = (b ≢ 0) × IsName bytes

-- names as the system takes them: not empty, and without a NUL byte
abbrev pub AreNames : List Bytes → Type 0
AreNames [] = Unit
AreNames ([] ∷ names) = ⊥
AreNames ((b ∷ n) ∷ names) = IsName (b ∷ n) × AreNames names

split_names-name :
    (n rest : Bytes) → IsName n → split_names (n ++ (0 ∷ rest)) ≡ n ∷ split_names rest
unfolding split_names
split_names-name [] rest h = refl
split_names-name (b ∷ n) rest (ne, h) = ground (arith, split_names-name n rest h)

-- Names that are joined are split into themselves.
non_empty-split_names-join_names :
    (names : List Bytes) → AreNames names → non_empty (split_names (join_names names)) ≡ names
unfolding non_empty join_names split_names
non_empty-split_names-join_names [] h = refl
non_empty-split_names-join_names ([] ∷ names) h = absurd h
non_empty-split_names-join_names ((b ∷ n) ∷ names) (h, hs) =
    rw (split_names-name (b ∷ n) (join_names names) h)
      (ap (λ (ns : List Bytes). (b ∷ n) ∷ ns) (non_empty-split_names-join_names names hs))

-- all names of a list are free of NUL bytes
abbrev AllNames : List Bytes → Type 0
AllNames [] = Unit
AllNames (n ∷ names) = IsName n × AllNames names

push-AllNames : (c : ℕ) (names : List Bytes) → c ≢ 0 → AllNames names → AllNames (push c names)
push-AllNames c [] ne h = ((ne, tt), tt)
push-AllNames c (n ∷ names) ne (h, hs) = ((ne, h), hs)

split_names-AllNames : (bytes : Bytes) → AllNames (split_names bytes)
unfolding split_names
split_names-AllNames [] = (tt, tt)
split_names-AllNames (c ∷ bytes) = elim (Bool-cases (c == 0)) [
  | inl e ↦ rw e (tt, split_names-AllNames bytes)
  | inr e ↦
      let ne : c ≢ 0 = λ z. ground arith in
      rw e (push-AllNames c (split_names bytes) ne (split_names-AllNames bytes))
]

non_empty-AreNames : (names : List Bytes) → AllNames names → AreNames (non_empty names)
unfolding non_empty
non_empty-AreNames [] h = tt
non_empty-AreNames ([] ∷ names) (h, hs) = non_empty-AreNames names hs
non_empty-AreNames ((b ∷ n) ∷ names) (h, hs) = (h, non_empty-AreNames names hs)

AreNames-append : (xs ys : List Bytes) → AreNames xs → AreNames ys → AreNames (xs ++ ys)
AreNames-append [] ys h k = k
AreNames-append ([] ∷ xs) ys h k = absurd h
AreNames-append ((b ∷ n) ∷ xs) ys (h, hs) k = (h, AreNames-append xs ys hs k)

add_names-AreNames :
    (names extra : List Bytes) → AreNames names → AreNames extra → AreNames (add_names names extra)
unfolding add_names
add_names-AreNames names [] h k = h
add_names-AreNames names ([] ∷ extra) h k = absurd k
add_names-AreNames names ((b ∷ n) ∷ extra) h (k, ks) = elim (Bool-cases (contains names (b ∷ n))) [
  | inl e ↦ rw e (add_names-AreNames names extra h ks)
  | inr e ↦ rw e (
      add_names-AreNames (names ++ ((b ∷ n) ∷ [])) extra
        (AreNames-append names ((b ∷ n) ∷ []) h (k, tt)) ks)
]

contains-append :
    (xs ys : List Bytes) (n : Bytes) → contains (xs ++ ys) n ≡ (contains xs n || contains ys n)
unfolding contains
contains-append [] ys n = refl
contains-append (x ∷ xs) ys n = ground (arith, contains-append xs ys n)

contains-add_names :
    (names extra : List Bytes) (n : Bytes)
    → contains (add_names names extra) n ≡ (contains names n || contains extra n)
unfolding add_names contains
contains-add_names names [] n = ground arith
contains-add_names names (x ∷ extra) n = ground (
  arith,
  contains-add_names names extra n,
  contains-add_names (names ++ (x ∷ [])) extra n,
  contains-append names (x ∷ []) n,
  bytes_eq→eq x n,
)

-- Where the recorded names are not empty and hold no NUL byte, a name is in the merged list if
-- and only if it is in the list of the system or among the recorded names.
pub contains-merge_xattr_lists :
    (real_list : Bytes) (extra : List Bytes) (n : Bytes)
    → AreNames extra
    → contains (non_empty (split_names (merge_xattr_lists real_list extra))) n
      ≡ (contains (non_empty (split_names real_list)) n || contains extra n)
unfolding merge_xattr_lists
contains-merge_xattr_lists real_list extra n h =
    let names = non_empty (split_names real_list) in
    rw
      (non_empty-split_names-join_names (add_names names extra) (
        add_names-AreNames names extra
          (non_empty-AreNames (split_names real_list) (split_names-AllNames real_list)) h))
      (contains-add_names names extra n)

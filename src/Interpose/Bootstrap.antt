-- ===== src/Interpose/Bootstrap.antt =====
-- The unlink hook of pseudoroot/interpose/src/lib.rs with the resolution of the function behind it, as
-- real_fn! of pseudoroot/interpose/src/platform/linux.rs makes it: before the library is set up the
-- fallback is libc::unlink, a name that the library itself exports.
use pseudoroot.Prelude.{
  ℕ, zero, suc, ◌≡◌, refl, inl, inr, true, false, Option, none, some, if◌then◌else◌, ap, ◌∙◌, arith,
  Bool-cases, leb,
}
use pseudoroot.Inode.{InodeKey}
use pseudoroot.State.{DashMap}
use pseudoroot.Interpose.{ℤ, CStr, Platform, Library}
use pseudoroot.Interpose.Inode.{key_from_stat, StatResult, found, failed, stat_path}
use pseudoroot.Interpose.Backend.{
  finish_library_init, ensure_library_init, ensure_session_backing_init, remove_inode,
}
use pseudoroot.Interpose.Files.{maybe_remove_inode, maybe_remove_inode_path}
use pseudoroot.Interpose.Hooks.{unlink}

module _ (p : Platform) {D : DashMap} where
  -- The hook with its calls of itself, as many as the fuel; none is that the fuel ran out. `next` is
  -- the function of libc.
  unfoldable pub unlink_resolved : ℕ → (CStr → ℤ) → CStr → Library D → Option (Library D × ℤ)
  unlink_resolved zero next name l = none
  unlink_resolved (suc fuel) next name l =
      let after = maybe_remove_inode_path p name l in
      let again = unlink_resolved fuel next name after in
      if after.library_init_done then some (after, next name) else again

  -- the constructor has not run, and the library is not set up
  pub record IsEarly (l : Library D) : Type 0 where
    pub pending : l.library_init_done ≡ false
    pub unbuilt : l.ctor_done ≡ false

  -- what a drop of an entry keeps
  remove_inode-done :
      (key : InodeKey) (l : Library D)
      → ((remove_inode p key l).library_init_done ≡ l.library_init_done)
        × ((remove_inode p key l).ctor_done ≡ l.ctor_done)
  unfolding remove_inode
  remove_inode-done key l = ground arith

  -- behind the set-up, the hook does not change whether the library is set up
  maybe_remove_inode_path-done :
      (name : CStr) (l : Library D)
      → ((maybe_remove_inode_path p name l).library_init_done
          ≡ (ensure_library_init p l).library_init_done)
        × ((maybe_remove_inode_path p name l).ctor_done ≡ (ensure_library_init p l).ctor_done)
  unfolding maybe_remove_inode_path maybe_remove_inode
  maybe_remove_inode_path-done name l = by_stat (stat_path p.sys name) refl
    where
      by_stat :
          (r : StatResult)
          → stat_path p.sys name ≡ r
          → ((maybe_remove_inode_path p name l).library_init_done
              ≡ (ensure_library_init p l).library_init_done)
            × ((maybe_remove_inode_path p name l).ctor_done ≡ (ensure_library_init p l).ctor_done)
      by_stat (failed errno) e = rw (e, maybe_remove_inode_path) (refl, refl)
      by_stat (found st) e = elim (Bool-cases (leb st.st_nlink 1)) [
        | inl last ↦
            rw (e, maybe_remove_inode_path, last)
              (remove_inode-done (key_from_stat st) (ensure_library_init p l))
        | inr more ↦ rw (e, maybe_remove_inode_path, more) (refl, refl)
      ]

  ensure_library_init-early : {l : Library D} → IsEarly l → ensure_library_init p l ≡ l
  unfolding ensure_library_init
  ensure_library_init-early early = simp (early.pending, early.unbuilt)

  -- the library is set up, or can be: its constructor has run, and it is not being set up
  pub data IsReady (l : Library D) : Type 0 where
    done : l.library_init_done ≡ true → IsReady l
    built : l.ctor_done ≡ true → l.library_initializing ≡ false → l.library_init ≡ false → IsReady l

  ensure_library_init-ready :
      (l : Library D) → IsReady l → (ensure_library_init p l).library_init_done ≡ true
  unfolding ensure_library_init ensure_session_backing_init finish_library_init
  ensure_library_init-ready l (done e) = ground arith
  ensure_library_init-ready l (built c i o) = ground arith

  -- A library that is set up, or can be, answers unlink at once, with what the hook makes of the
  -- answer of the function of libc.
  pub unlink_resolved-returns :
      (fuel : ℕ) (name : CStr) {l : Library D}
      → IsReady l
      → unlink_resolved (suc fuel) p.sys.real_unlink name l ≡ some (unlink p name l)
  unfolding unlink_resolved unlink
  unlink_resolved-returns fuel name {l = l} ready =
      let after = (maybe_remove_inode_path-done name l).0 ∙ ensure_library_init-ready l ready in
      simp (after)

  -- Before the constructor has run, the unlink hook calls itself without end: no number of calls
  -- is enough.
  pub unlink_resolved-loops :
      (fuel : ℕ) (next : CStr → ℤ) (name : CStr) {l : Library D}
      → IsEarly l
      → unlink_resolved fuel next name l ≡ none
  unfolding unlink_resolved
  unlink_resolved-loops zero next name early = refl
  unlink_resolved-loops (suc fuel) next name {l = l} early =
      let same = ensure_library_init-early early in
      let kept = maybe_remove_inode_path-done name l in
      let after : IsEarly (maybe_remove_inode_path p name l) = record {
        pending = kept.0 ∙ ap (λ (l : Library D). l.library_init_done) same ∙ early.pending;
        unbuilt = kept.1 ∙ ap (λ (l : Library D). l.ctor_done) same ∙ early.unbuilt;
      } in
      simp (after.pending) (unlink_resolved-loops fuel next name after)

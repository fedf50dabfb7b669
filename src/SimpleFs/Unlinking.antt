-- ===== src/SimpleFs/Unlinking.antt =====
-- fuse/src/filesystem.rs: what `unlink` does to a directory and to the inode.
use fairy.Prelude.{
  ℕ, ◌≡◌, ◌≢◌, sym, ap, ◌∙◌, Bool, none, some, if◌then◌else◌, arith, inl, inr, Option-cases, nat_eq,
  insert,
}
use fairy.Prelude.BTreeMap
use mathlib.Core.Path.{subst}
use fairy.Prelude.BTreeMap.{Bytes, bytes_eq, bytes_beq_refl, get-insert, get-remove}
use fairy.SimpleFs.{Time, InodeAttributes, Bincode, SimpleFs, Request, done}
use fairy.SimpleFs.Store.{
  get_directory_content, write_directory_content, remove_entry, lookup_name, get_inode, write_inode,
}
use fairy.SimpleFs.Atomic.{run_inversion, Kept-inversion}
use fairy.Prelude.{◌==◌, ◌-◌, Bool-cases, ◌&&◌, ltb, not}
use fairy.SimpleFs.Entries.{entry, found_entry, parsed}
use fairy.SimpleFs.Removing.{unlink, unlink_found, drop_link, store_links}
use fairy.SimpleFs.Store.{gc_inode, touched}
use fairy.SimpleFs.{ensure, assert, then_run}
use fairy.SimpleFs.Libc.{w_ok, eacces}
use fairy.SimpleFs.Access.{permitted, sticky}
use fairy.SimpleFs.Steps.{Quiet-get_inode}
use fairy.SimpleFs.Atomic.{Quiet-ensure, Quiet-assert}

module _ ⦃bin : Bincode⦄ where
  remove_entry_lem :
      (parent : ℕ) (name : Bytes) (s : SimpleFs) {s' : SimpleFs} {t : Unit {0}}
      → remove_entry parent name s ≡ done s' t
      → (s'.inodes ≡ s.inodes)
        × ((k : Bytes)
            → entry s' parent k ≡ (if bytes_eq.beq name k then none else entry s parent k))
        × ((j : ℕ) → j ≢ parent → s'.contents j ≡ s.contents j)
  unfolding entry get_directory_content write_directory_content
  remove_entry_lem parent name s h = elim (Option-cases (s.contents parent)) [
    | inl m ↦ absurd (ground arith)
    | inr (bytes, m) ↦ elim (Option-cases (bin.deserialize bytes)) [
      | inl n ↦ absurd (ground arith)
      | inr (entries, n) ↦ (
        ground arith,
        λ k. ground (
          arith,
          get-remove entries name k,
          bin.deserialize-serialize (BTreeMap.remove entries name),
        ),
        λ j ne. ground arith,
      )
    ]
  ]

  -- Whether an inode with one link less is to be removed.
  abbrev pub gone : InodeAttributes → ℕ → Bool
  gone attrs hardlinks = hardlinks == 0 && attrs.open_file_handles == 0

  store_links_inversion :
      (attrs : InodeAttributes) (hardlinks : ℕ) (time : Time) (s : SimpleFs) {s' : SimpleFs}
      {t : Unit {0}}
      → store_links attrs hardlinks time s ≡ done s' t
      → (s'.inodes attrs.inode ≡ (
          if gone attrs hardlinks
          then none
          else some (record attrs { hardlinks = hardlinks; last_metadata_changed = time })))
        × (s'.contents attrs.inode
            ≡ (if gone attrs hardlinks then none else s.contents attrs.inode))
        × ((j : ℕ) → j ≢ attrs.inode → s'.contents j ≡ s.contents j)
  unfolding write_inode gc_inode
  store_links_inversion attrs hardlinks time s h = elim (Bool-cases (gone attrs hardlinks)) [
    | inr g ↦ (ground arith, ground arith, λ j ne. ground arith)
    | inl g ↦ elim (Option-cases (s.contents attrs.inode)) [
      | inl m ↦ absurd (ground arith)
      | inr (bytes, m) ↦ (ground arith, ground arith, λ j ne. ground arith)
    ]
  ]

  -- If `unlink` of a name that leads to an inode other than the directory replies, then the name is no
  -- longer in the directory, and every other name leads where it led before. The inode had a link; it
  -- has one less, unless that was the last one and the inode is not open: then both its files are gone.
  pub unlink_lem :
      (now : ℕ → Time) (req : Request) (parent : ℕ) (name : Bytes) (s : SimpleFs) {s' : SimpleFs}
      {attrs : InodeAttributes}
      → lookup_name parent name s ≡ done s attrs
      → attrs.inode ≢ parent
      → unlink now req parent name s ≡ done s' tt
      → ((k : Bytes) → entry s' parent k ≡ (if bytes_eq.beq name k then none else entry s parent k))
        × (s'.inodes attrs.inode ≡ (
            if gone attrs (attrs.hardlinks - 1)
            then none
            else some
                (record attrs { hardlinks = attrs.hardlinks - 1; last_metadata_changed = now 2 })))
        × (s'.contents attrs.inode
            ≡ (if gone attrs (attrs.hardlinks - 1) then none else s.contents attrs.inode))
        × (attrs.hardlinks ≢ 0)
  unfolding unlink drop_link write_inode get_inode entry
  unlink_lem now req parent name s {s'} {attrs} l ne h =
      let (p, h1, o1) =
        Kept-inversion s (get_inode parent s) _ ((Quiet-get_inode parent).keep s)
          (subst (λ x. then_run x (λ a. unlink_found now req parent name a) ≡ done s' tt) l h) in
      let (t, h2, o2) =
        Kept-inversion s (ensure (permitted p req w_ok) eacces s) _
          ((Quiet-ensure (permitted p req w_ok) eacces).keep s) h1 in
      let (u, h3, o3) =
        Kept-inversion s (ensure (not (sticky p attrs req)) eacces s) _
          ((Quiet-ensure (not (sticky p attrs req)) eacces).keep s) h2 in
      let s1 : SimpleFs = record s {
        inodes = insert s.inodes p.inode (touched p (now 0) (now 1));
      } in
      let (v, h4, o4) =
        Kept-inversion s1 (assert (ltb 0 attrs.hardlinks) s1) _
          ((Quiet-assert (ltb 0 attrs.hardlinks)).keep s1) h3 in
      let (s2, w, o5, h5) =
        run_inversion (store_links attrs (attrs.hardlinks - 1) (now 2) s1) _ h4 in
      let (i, c, others) = store_links_inversion attrs (attrs.hardlinks - 1) (now 2) s1 o5 in
      let (i', names, others') = remove_entry_lem parent name s2 h5 in
      (
        λ k.
            names k
            ∙ ap (λ x. if bytes_eq.beq name k then none else found_entry (parsed x) k)
                (others parent (λ q. ne (sym q))),
        ap (λ f. f attrs.inode) i' ∙ i,
        others' attrs.inode ne ∙ c,
        λ q. absurd (ground (arith, o4)),
      )

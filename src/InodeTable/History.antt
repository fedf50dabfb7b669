-- ===== src/InodeTable/History.antt =====
-- async_fuse/inode_table.rs: the invariant over every operation and every history of calls.
use fairy.Prelude.{
  ℕ, ◌-◌, ◌≡◌, ◌≢◌, inl, inr, refl, some, List, [], ◌∷◌, leb, ◌==◌, get_elem?, set, arith, Eq,
  Option-cases, Post, Post->>=, Post-if, get_elem?-set, get_elem?-lt, ◌∙◌, Post-elim,
}
use fairy.InodeTable.{
  Entry, InodeTable, get_inode_entry, lookup, add, add_or_get, delete_entry, release, forget,
  rename, unlink, increment, index_of, Call, adds, adds_or_gets, looks_up, forgets, renames,
  unlinks, step, run,
}
use fairy.InodeTable.Paths.{path_at-eq}
use fairy.InodeTable.Invariant.{
  Inv, get_inode_entry-Allocated, touch-Inv, assign-Inv, rename_lem, delete_lem,
}

module _ {P : Type 0} ⦃e : Eq P⦄ where
  delete_entry-Inv :
      (t : InodeTable P) (idx : ℕ) (entry : Entry P)
      → Inv t
      → idx ≢ 0
      → get_elem? t.table idx ≡ some entry
      → Post (delete_entry t idx entry) Inv
  unfolding delete_entry
  delete_entry-Inv t idx entry v nz h =
      Post->>= entry.path _ _
        λ path p. delete_lem t path idx _ v nz (path_at-eq t.table idx entry h ∙ p) refl

module _ {P : Type 0} ⦃e : Eq P⦄ (t : InodeTable P) (v : Inv t) where
  pub lookup-Inv : (inode : ℕ) → Post (lookup t inode) Inv
  unfolding lookup
  lookup-Inv inode =
      Post-if (inode == 1) _ _ _ (λ _. v)
        λ _. Post->>= (index_of inode) _ _ λ idx _. Post->>= (get_elem? t.table idx) _ _ λ entry h.
          Post->>= (increment entry.lookups) _ _ λ lookups _. touch-Inv t idx entry _ v h refl

  pub add-Inv : (path : P) → Post (add t path) (λ r. Inv r.0)
  unfolding add
  add-Inv path = Post->>= (get_inode_entry t.free_list t.table) _ _ λ a ha.
      let alloc = Post-elim _ _ (get_inode_entry-Allocated t.free_list t.table v.slots) ha in
      Post->>= (get_elem? a.2 a.0) _ _ λ entry h. elim (Option-cases (t.by_path path)) [
        | inl m ↦ rw m (assign-Inv t path a.0 a.1 a.2 _ v alloc refl)
        | inr (i, m) ↦ rw m tt
      ]

  pub add_or_get-Inv : (path : P) → Post (add_or_get t path) (λ r. Inv r.0)
  unfolding add_or_get
  add_or_get-Inv path = elim (Option-cases (t.by_path path)) [
    | inl m ↦
        rw (m, add_or_get)
          (Post->>= (get_inode_entry t.free_list t.table) _ _ λ a ha.
            let alloc = Post-elim _ _ (get_inode_entry-Allocated t.free_list t.table v.slots) ha in
            Post->>= (get_elem? a.2 a.0) _ _
              λ entry h. assign-Inv t path a.0 a.1 a.2 _ v alloc refl)
    | inr (i, m) ↦ rw (m, add_or_get) (Post->>= (get_elem? t.table i) _ _ λ entry h. v)
  ]

  release-Inv :
      (idx n : ℕ) (entry : Entry P)
      → idx ≢ 0
      → get_elem? t.table idx ≡ some entry
      → Post (release t idx entry n) (λ r. Inv r.0)
  unfolding release
  release-Inv idx n entry nz h =
      Post-if (leb n entry.lookups) _ _ _
        (λ _.
          Post-if (entry.lookups - n == 0) _ _ _
            (λ _.
              Post->>= (delete_entry t' idx entry') _ _
                λ t'' d. Post-elim _ _ (delete_entry-Inv t' idx entry' touched nz here) d)
            (λ _. touched))
        (λ _. tt)
    where
      entry' : Entry P
      entry' = record entry { lookups = entry.lookups - n }

      t' : InodeTable P
      t' = record t { table = set t.table idx entry' }

      touched : Inv t'
      touched = touch-Inv t idx entry entry' v h refl

      here : get_elem? (set t.table idx entry') idx ≡ some entry'
      here = ground (arith, get_elem?-set t.table idx idx entry', get_elem?-lt t.table idx h)

  pub forget-Inv : (inode n : ℕ) → Post (forget t inode n) (λ r. Inv r.0)
  unfolding forget
  forget-Inv inode n =
      Post-if (inode == 1) _ _ _ (λ _. v)
        λ other. Post->>= (index_of inode) _ _ λ idx hi.
          Post->>= (get_elem? t.table idx) _ _ λ entry h. release-Inv idx n entry (ground arith) h

  pub rename-Inv : (oldpath newpath : P) → Post (rename t oldpath newpath) Inv
  unfolding rename
  rename-Inv oldpath newpath = Post->>= (t.by_path oldpath) _ _ λ idx m.
      Post->>= (get_elem? t.table idx) _ _ λ entry h. rename_lem t oldpath newpath idx _ v m refl

  pub unlink-Inv : (path : P) → Inv (unlink t path)
  unfolding unlink
  unlink-Inv path = record {
    mapped = λ p i m. ground (arith, v.mapped p i);
    slots = v.slots;
    root = v.root;
  }

module _ {P : Type 0} ⦃e : Eq P⦄ where
  step-Inv : (t : InodeTable P) (c : Call P) → Inv t → Post (step t c) Inv
  unfolding step
  step-Inv t (adds path) v = Post->>= (add t path) _ _ λ r h. Post-elim _ _ (add-Inv t v path) h
  step-Inv t (adds_or_gets path) v =
      Post->>= (add_or_get t path) _ _ λ r h. Post-elim _ _ (add_or_get-Inv t v path) h
  step-Inv t (looks_up inode) v = lookup-Inv t v inode
  step-Inv t (forgets inode n) v =
      Post->>= (forget t inode n) _ _ λ r h. Post-elim _ _ (forget-Inv t v inode n) h
  step-Inv t (renames oldpath newpath) v = rename-Inv t v oldpath newpath
  step-Inv t (unlinks path) v = unlink-Inv t v path

  -- From any table that meets the invariant, every history of calls that does not panic ends in a
  -- table that meets it: each mapped path is the path of its entry, the free list names distinct
  -- slots with no path, and inode 1 has a path.
  pub run-Inv : (cs : List (Call P)) (t : InodeTable P) → Inv t → Post (run t cs) Inv
  unfolding run
  run-Inv [] t v = v
  run-Inv (c ∷ cs) t v =
      Post->>= (step t c) _ _ λ t' h. run-Inv cs t' (Post-elim _ _ (step-Inv t c v) h)

-- ===== src/InodeTable/Mapping.antt =====
-- async_fuse/inode_table.rs: what each operation does to the map between paths and inode numbers.
use fairy.Prelude.{
  ℕ, ◌+◌, ◌-◌, ◌<◌, ◌≡◌, ◌≢◌, inl, inr, refl, none, some, List, [], ◌∷◌, ◌++◌, ltb, ◌==◌,
  if◌then◌else◌, get_elem?, set, arith, Eq, insert, erase, Option-cases, Post, Post->>=, set-set,
  get_elem?-set, get_elem?-some, Post-elim, Returns, Returns->>=,
}
use fairy.InodeTable.{
  Entry, InodeTable, get_inode_entry, get_path, add, add_or_get, forget, get_inode, u64_max,
}
use fairy.InodeTable.Paths.{path_at, FreeSlots}
use fairy.InodeTable.Invariant.{Inv, Allocated, get_inode_entry-Allocated}

module _ {P : Type 0} ⦃e : Eq P⦄ where
  -- In a table that meets the invariant, the inode number of a path leads back to that path.
  pub get_path-get_inode :
      (t : InodeTable P) (path : P) {inode : ℕ}
      → Inv t
      → get_inode t path ≡ some inode
      → get_path t inode ≡ some (some path)
  unfolding get_inode get_path path_at
  get_path-get_inode t path v h = elim (Option-cases (t.by_path path)) [
    | inl m ↦ ground arith
    | inr (i, m) ↦ ground (arith, v.mapped path i m)
  ]

  -- What a call that maps `path` to `inode` anew has done to the map.
  pub record Mapped (t : InodeTable P) (path : P) (t' : InodeTable P) (inode : ℕ) : Type 0 where
    pub found : (q : P) → get_inode t' q ≡ (if e.beq path q then some inode else get_inode t q)
    pub positive : inode ≢ 0
    pub unused : path_at t.table (inode - 1) ≡ none
    pub assigned : get_path t' inode ≡ some (some path)

  assign-Mapped :
      (t : InodeTable P) (path : P) (idx : ℕ) (free : List ℕ) (table : List (Entry P))
      (new : Entry P)
      → Allocated t.table idx free table
      → new.path ≡ some path
      → Mapped t path
          (record {
            table = set table idx new;
            free_list = free;
            by_path = insert t.by_path path idx;
          })
          (idx + 1)
  unfolding get_inode get_path
  assign-Mapped t path idx free table new a n = record {
    found = λ q. ground arith;
    positive = omega arith;
    unused = rw index a.unused;
    assigned = ground (arith, get_elem?-set table idx idx new, a.inside);
  }
    where
      index : idx + 1 - 1 ≡ idx
      index = omega arith

  -- If `add` returns, the path was not mapped, its inode number belonged to no path, both maps now
  -- join the path and the number, and every other path is mapped as before.
  pub add-Mapped :
      (t : InodeTable P) (path : P)
      → Inv t
      → Post (add t path) (λ r. Mapped t path r.0 r.1.0 × (t.by_path path ≡ none))
  unfolding add
  add-Mapped t path v = Post->>= (get_inode_entry t.free_list t.table) _ _ λ a ha.
      let alloc = Post-elim _ _ (get_inode_entry-Allocated t.free_list t.table v.slots) ha in
      Post->>= (get_elem? a.2 a.0) _ _ λ entry h. elim (Option-cases (t.by_path path)) [
        | inl m ↦ rw m (assign-Mapped t path a.0 a.1 a.2 _ alloc refl, refl)
        | inr (i, m) ↦ rw m tt
      ]

  get_inode-some :
      (t : InodeTable P) (path : P) {i : ℕ}
      → t.by_path path ≡ some i
      → get_inode t path ≡ some (i + 1)
  unfolding get_inode
  get_inode-some t path m = rw m

  get_inode-same :
      (t : InodeTable P) (path : P) {i : ℕ}
      → t.by_path path ≡ some i
      → (q : P) → get_inode t q ≡ (if e.beq path q then some (i + 1) else get_inode t q)
  unfolding get_inode
  get_inode-same t path m q = ground (arith, e.beq_iff path q)

  -- Whenever `add_or_get` returns, the path leads to the inode number that it returned and back,
  -- and every other path is mapped as before.
  add_or_get-Mapped :
      (t : InodeTable P) (path : P)
      → Inv t
      → Post (add_or_get t path) (λ r.
        (get_path r.0 r.1.0 ≡ some (some path))
        × ((q : P) → get_inode r.0 q ≡ (if e.beq path q then some r.1.0 else get_inode t q)))
  unfolding add_or_get
  add_or_get-Mapped t path v = elim (Option-cases (t.by_path path)) [
    | inl m ↦
        rw (m, add_or_get)
          (Post->>= (get_inode_entry t.free_list t.table) _ _ λ a ha.
            let alloc = Post-elim _ _ (get_inode_entry-Allocated t.free_list t.table v.slots) ha in
            Post->>= (get_elem? a.2 a.0) _ _ λ entry h.
              let done = assign-Mapped t path a.0 a.1 a.2 _ alloc refl in
              (done.assigned, done.found))
    | inr (i, m) ↦
        rw (m, add_or_get)
          (Post->>= (get_elem? t.table i) _ _ λ entry h.
            (get_path-get_inode t path v (get_inode-some t path m), get_inode-same t path m))
  ]

  -- An allocation fails only by an overflow of a generation number.
  get_inode_entry-some :
      (free : List ℕ) (table : List (Entry P))
      → FreeSlots table free
      → ((i : ℕ) (entry : Entry P) → get_elem? table i ≡ some entry → entry.generation < u64_max)
      → Returns (get_inode_entry free table)
  unfolding get_inode_entry
  get_inode_entry-some [] table f g = (_, refl)
  get_inode_entry-some (i ∷ rest) table f g =
      let (entry, h) = get_elem?-some table i f.0 in
      let new = record entry { generation = entry.generation + 1 } in
      ((i, rest, set table i new), ground (arith, g i entry h))

  -- In a table that meets the invariant `add` of a path that is not mapped returns, unless a
  -- generation number overflows.
  pub add-some :
      (t : InodeTable P) (path : P)
      → Inv t
      → t.by_path path ≡ none
      → ((i : ℕ) (entry : Entry P) → get_elem? t.table i ≡ some entry → entry.generation < u64_max)
      → Returns (add t path)
  unfolding add
  add-some t path v m g =
      let (a, ha) = get_inode_entry-some t.free_list t.table v.slots g in
      let alloc = Post-elim _ _ (get_inode_entry-Allocated t.free_list t.table v.slots) ha in
      let (entry, h) = get_elem?-some a.2 a.0 alloc.inside in
      Returns->>= (get_inode_entry t.free_list t.table) _ ha
        (Returns->>= (get_elem? a.2 a.0) _ h (rw m (_, refl)))

  -- The table after the last reference to an inode is gone.
  abbrev pub forgotten : InodeTable P → ℕ → Entry P → P → InodeTable P
  forgotten t idx entry path = record {
    table = set t.table idx (record entry { path = none; lookups = 0 });
    free_list = t.free_list ++ (idx ∷ []);
    by_path = erase t.by_path path;
  }

  -- What `forget` does to an inode other than the root's that holds a path: with a count above the
  -- entry's it panics; below, the count falls and nothing else changes; at the count, the inode
  -- loses its path, that path is no longer mapped, and the index goes to the end of the free list.
  pub forget_lem :
      (t : InodeTable P) (idx n : ℕ) (entry : Entry P) (path : P)
      → idx ≢ 0
      → get_elem? t.table idx ≡ some entry
      → entry.path ≡ some path
      → forget t (idx + 1) n ≡ (
          if ltb entry.lookups n
          then none
          else if n == entry.lookups
          then some (forgotten t idx entry path, 0)
          else some (
            record t { table = set t.table idx (record entry { lookups = entry.lookups - n }) },
            entry.lookups - n,
          ))
  unfolding forget
  forget_lem t idx n entry path nz h p = ground (
    arith,
    set-set t.table idx (record entry { lookups = entry.lookups - n })
        (record entry { path = none; lookups = 0 }),
  )

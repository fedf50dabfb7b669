-- ===== src/InodeTable/Invariant.antt =====
-- async_fuse/inode_table.rs: what every operation keeps of the table, the free list and the map.
use fairy.Prelude.{
  ℕ, ◌<◌, ◌≡◌, ◌≢◌, sym, ◌∙◌, none, some, List, [], ◌∷◌, ◌++◌, length, get_elem?, set,
  get_elem?-snoc, get_elem?-none, length-set, length-snoc, get_elem?-lt, arith, Eq, insert, erase,
  Post, Post->>=,
}
use fairy.InodeTable.{Entry, InodeTable, get_inode_entry, init, blank, increment}
use fairy.InodeTable.Paths.{
  path_at, path_at-eq, path_at-set, path_at-lt, Fresh, FreeSlots, FreeSlots-set, Fresh-of_path,
  FreeSlots-snoc, FreeSlots-same_paths,
}

module _ {P : Type 0} where
  -- What `get_inode_entry` hands out: a slot that nobody uses.
  pub record Allocated (table : List (Entry P)) (idx : ℕ) (free : List ℕ) (table' : List (Entry P))
      : Type 0 where
    pub inside : idx < length table'
    pub unused : path_at table idx ≡ none
    pub fresh : Fresh idx free
    pub slots : FreeSlots table' free
    pub kept : (j : ℕ) → path_at table' j ≡ path_at table j

  grow-Allocated :
      (table : List (Entry P)) → Allocated table (length table) [] (table ++ (blank ∷ []))
  unfolding path_at
  grow-Allocated table = record {
    inside = ground (arith, length-snoc table blank);
    unused = ground (arith, get_elem?-none table (length table));
    fresh = tt;
    slots = tt;
    kept = λ j. ground (arith, get_elem?-snoc table j blank, get_elem?-none table j);
  }

  reuse-Allocated :
      (table : List (Entry P)) (i g : ℕ) (rest : List ℕ) (entry : Entry P)
      → get_elem? table i ≡ some entry
      → FreeSlots table (i ∷ rest)
      → Allocated table i rest (set table i (record entry { generation = g }))
  reuse-Allocated table i g rest entry e (lt, unused, fresh, slots) = record {
    inside = omega (arith, length-set table i (record entry { generation = g }));
    unused = unused;
    fresh = fresh;
    slots = FreeSlots-set table rest i _ fresh slots;
    kept = λ j. ground (
      arith,
      path_at-set table i j (record entry { generation = g }),
      path_at-eq table i entry e,
    );
  }

  pub get_inode_entry-Allocated :
      (free : List ℕ) (table : List (Entry P))
      → FreeSlots table free
      → Post (get_inode_entry free table) (λ r. Allocated table r.0 r.1 r.2)
  unfolding get_inode_entry
  get_inode_entry-Allocated [] table f = grow-Allocated table
  get_inode_entry-Allocated (i ∷ rest) table f = Post->>= (get_elem? table i) _ _ λ entry e.
      Post->>= (increment entry.generation) _ _ λ g _. reuse-Allocated table i g rest entry e f

module _ {P : Type 0} ⦃e : Eq P⦄ where
  pub record Inv (t : InodeTable P) : Type 0 where
    pub mapped : (p : P) (i : ℕ) → t.by_path p ≡ some i → path_at t.table i ≡ some p
    pub slots : FreeSlots t.table t.free_list
    pub root : path_at t.table 0 ≢ none

  pub init-Inv : (slash : P) → Inv (init slash)
  unfolding init path_at
  init-Inv slash = record {
    mapped = λ p i h. ground (arith, e.beq_iff slash p);
    slots = tt;
    root = λ h. cc;
  }

  -- A write that leaves the path of the entry alone.
  pub touch-Inv :
      (t : InodeTable P) (i : ℕ) (old new : Entry P)
      → Inv t
      → get_elem? t.table i ≡ some old
      → new.path ≡ old.path
      → Inv (record t { table = set t.table i new })
  touch-Inv t i old new v h k = record {
    mapped = λ p j m. same j ∙ v.mapped p j m;
    slots =
        FreeSlots-same_paths t.table _ t.free_list (sym (length-set t.table i new)) same v.slots;
    root = λ r. v.root (sym (same 0) ∙ r);
  }
    where
      same : (j : ℕ) → path_at (set t.table i new) j ≡ path_at t.table j
      same j =
          ground (
            arith,
            path_at-set t.table i j new,
            path_at-eq t.table i old h,
            get_elem?-lt t.table i h,
          )

  -- A slot that was free gets a path that was not in the map.
  pub assign-Inv :
      (t : InodeTable P) (path : P) (idx : ℕ) (free : List ℕ) (table : List (Entry P))
      (new : Entry P)
      → Inv t
      → Allocated t.table idx free table
      → new.path ≡ some path
      → Inv (record {
        table = set table idx new;
        free_list = free;
        by_path = insert t.by_path path idx;
      })
  assign-Inv t path idx free table new v a n = record {
    mapped = λ p j m. ground (
      arith,
      path_at-set table idx j new,
      e.beq_iff path p,
      v.mapped p j,
      a.kept j,
      a.unused,
      a.inside,
    );
    slots = FreeSlots-set table free idx new a.fresh a.slots;
    root = λ r. ground (arith, path_at-set table idx 0 new, a.kept 0, a.unused, v.root);
  }

  pub rename_lem :
      (t : InodeTable P) (oldpath newpath : P) (idx : ℕ) (new : Entry P)
      → Inv t
      → t.by_path oldpath ≡ some idx
      → new.path ≡ some newpath
      → Inv (record t {
        table = set t.table idx new;
        by_path = insert (erase t.by_path oldpath) newpath idx;
      })
  rename_lem t oldpath newpath idx new v m n = record {
    mapped = λ p j h. ground (
      arith,
      path_at-set t.table idx j new,
      e.beq_iff newpath p,
      e.beq_iff oldpath p,
      v.mapped p j,
      here,
      path_at-lt t.table idx here,
    );
    slots =
        FreeSlots-set t.table t.free_list idx new
          (Fresh-of_path t.table t.free_list idx here v.slots) v.slots;
    root = λ r. ground (arith, path_at-set t.table idx 0 new, path_at-lt t.table idx here, v.root);
  }
    where
      here : path_at t.table idx ≡ some oldpath
      here = v.mapped oldpath idx m

  pub delete_lem :
      (t : InodeTable P) (path : P) (idx : ℕ) (new : Entry P)
      → Inv t
      → idx ≢ 0
      → path_at t.table idx ≡ some path
      → new.path ≡ none
      → Inv (record {
        table = set t.table idx new;
        free_list = t.free_list ++ (idx ∷ []);
        by_path = erase t.by_path path;
      })
  delete_lem t path idx new v nz here n = record {
    mapped = λ p j h.
        ground (arith, path_at-set t.table idx j new, e.beq_iff path p, v.mapped p j, here);
    slots =
        FreeSlots-snoc (set t.table idx new) t.free_list idx
          (omega (arith, length-set t.table idx new, path_at-lt t.table idx here))
          (ground (arith, path_at-set t.table idx idx new)) fresh
          (FreeSlots-set t.table t.free_list idx new fresh v.slots);
    root = λ r. ground (arith, path_at-set t.table idx 0 new, v.root);
  }
    where
      fresh : Fresh idx t.free_list
      fresh = Fresh-of_path t.table t.free_list idx here v.slots

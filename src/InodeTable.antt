-- ===== src/InodeTable.antt =====
-- fuse/src/async_fuse/inode_table.rs: the map between paths and inode numbers, with lookup counts.
pub mod Paths
pub mod Invariant
pub mod History
pub mod Mapping
pub mod Forgetting
pub mod Tests
use fairy.Prelude.{
  ℕ, suc, ◌+◌, ◌-◌, ◌^◌, Bool, Option, none, some, List, [], ◌∷◌, ◌++◌, ltb, leb, ◌==◌,
  if◌then◌else◌, length, get_elem?, set, Eq, insert, erase, ◌>>=◌,
}

-- `InodeTableEntry`; `Path` stands for `Arc<PathBuf>`.
pub record Entry (Path' : Type 0) : Type 0 where
  pub path : Option Path'
  pub lookups : ℕ
  pub generation : ℕ

pub record InodeTable (Path' : Type 0) : Type 0 where
  pub table : List (Entry Path')
  pub free_list : List ℕ
  pub by_path : Path' → Option ℕ

abbrev pub u64_max : ℕ
u64_max = 2 ^ 64 - 1

-- `+= 1` on a `u64`, which panics on overflow.
abbrev pub increment : ℕ → Option ℕ
increment n = if ltb n u64_max then some (n + 1) else none

-- `inode as usize - 1`, which panics on inode 0.
abbrev pub index_of : ℕ → Option ℕ
index_of inode = if inode == 0 then none else some (inode - 1)

module _ {P : Type 0} where
  abbrev pub blank : Entry P
  blank = record { path = none; lookups = 0; generation = 0 }

  -- The index of the entry, and the new free list and table.
  unfoldable pub get_inode_entry : List ℕ → List (Entry P) → Option (ℕ × List ℕ × List (Entry P))
  get_inode_entry [] table = some (length table, [], table ++ (blank ∷ []))
  get_inode_entry (idx ∷ rest) table = do
    entry ← get_elem? table idx
    generation ← increment entry.generation
    some (idx, rest, set table idx (record entry { generation = generation }))

  unfoldable pub get_path : InodeTable P → ℕ → Option (Option P)
  get_path t inode = do idx ← index_of inode; entry ← get_elem? t.table idx; some entry.path

  unfoldable pub lookup : InodeTable P → ℕ → Option (InodeTable P)
  lookup t inode = if inode == 1 then some t else (do
    idx ← index_of inode
    entry ← get_elem? t.table idx
    lookups ← increment entry.lookups
    some (record t { table = set t.table idx (record entry { lookups = lookups }) }))

module _ {P : Type 0} ⦃e : Eq P⦄ where
  -- `new`, at the path "/".
  unfoldable pub init : P → InodeTable P
  init slash = record {
    table = record { path = some slash; lookups = 0; generation = 0 } ∷ [];
    free_list = [];
    by_path = insert (λ _. none) slash 0;
  }

  unfoldable pub add : InodeTable P → P → Option (InodeTable P × (ℕ × ℕ))
  add t path = do
    (idx, free, table) ← get_inode_entry t.free_list t.table
    entry ← get_elem? table idx
    let table' = set table idx (record entry { path = some path; lookups = 1 })
    let t' = record t { table = table'; free_list = free; by_path = insert t.by_path path idx }
    elim (t.by_path path) [ none ↦ some (t', (idx + 1, entry.generation)) | some previous ↦ none ]

  unfoldable pub add_or_get : InodeTable P → P → Option (InodeTable P × (ℕ × ℕ))
  add_or_get t path = elim (t.by_path path) [
    | none ↦ do
      (idx, free, table) ← get_inode_entry t.free_list t.table
      entry ← get_elem? table idx
      let table' = set table idx (record entry { path = some path })
      let t' = record t { table = table'; free_list = free; by_path = insert t.by_path path idx }
      some (t', (idx + 1, entry.generation))
    | some idx ↦ do entry ← get_elem? t.table idx; some (t, (idx + 1, entry.generation))
  ]

  unfoldable pub get_inode : InodeTable P → P → Option ℕ
  get_inode t path = t.by_path path >>= λ idx. some (idx + 1)

  -- The entry dies: its path leaves the map, and its index goes to the free list.
  unfoldable pub delete_entry : InodeTable P → ℕ → Entry P → Option (InodeTable P)
  delete_entry t idx entry = do
    path ← entry.path
    some (record t {
      table = set t.table idx (record entry { path = none });
      free_list = t.free_list ++ (idx ∷ []);
      by_path = erase t.by_path path;
    })

  -- The assertion on the count, the subtraction, and the deletion at zero.
  unfoldable pub release : InodeTable P → ℕ → Entry P → ℕ → Option (InodeTable P × ℕ)
  unfolding delete_entry
  release t idx entry n =
      let entry' = record entry { lookups = entry.lookups - n } in
      let t' = record t { table = set t.table idx entry' } in
      if leb n entry.lookups
      then (if entry'.lookups == 0
          then (delete_entry t' idx entry' >>= λ t''. some (t'', 0))
          else some (t', entry'.lookups))
      else none

  unfoldable pub forget : InodeTable P → ℕ → ℕ → Option (InodeTable P × ℕ)
  unfolding release
  forget t inode n =
      if inode == 1
      then some (t, 1)
      else (do idx ← index_of inode; entry ← get_elem? t.table idx; release t idx entry n)

  unfoldable pub rename : InodeTable P → P → P → Option (InodeTable P)
  rename t oldpath newpath = do
    idx ← t.by_path oldpath
    entry ← get_elem? t.table idx
    some (record t {
      table = set t.table idx (record entry { path = some newpath });
      by_path = insert (erase t.by_path oldpath) newpath idx;
    })

  unfoldable pub unlink : InodeTable P → P → InodeTable P
  unlink t path = record t { by_path = erase t.by_path path }

-- One call of the table's interface.
pub data Call (P : Type 0) : Type 0 where
  adds : P → Call P
  adds_or_gets : P → Call P
  looks_up : ℕ → Call P
  forgets : ℕ → ℕ → Call P
  renames : P → P → Call P
  unlinks : P → Call P

module _ {P : Type 0} ⦃e : Eq P⦄ where
  unfoldable pub step : InodeTable P → Call P → Option (InodeTable P)
  step t (adds path) = add t path >>= λ r. some r.0
  step t (adds_or_gets path) = add_or_get t path >>= λ r. some r.0
  step t (looks_up inode) = lookup t inode
  step t (forgets inode n) = forget t inode n >>= λ r. some r.0
  step t (renames oldpath newpath) = rename t oldpath newpath
  step t (unlinks path) = some (unlink t path)

  unfoldable pub run : InodeTable P → List (Call P) → Option (InodeTable P)
  run t [] = some t
  run t (c ∷ cs) = step t c >>= λ t'. run t' cs

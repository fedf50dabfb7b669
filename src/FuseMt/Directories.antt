-- ===== src/FuseMt/Directories.antt =====
-- async_fuse/fusemt.rs: `readdir`, which pages a directory's entries from the cache.
use fairy.Prelude.{
  ℕ, suc, ◌+◌, ◌-◌, ◌^◌, ℤ, pos, negsuc, Bool, Option, none, some, List, [], ◌∷◌, ◌++◌, ◌==◌,
  if◌then◌else◌, ◌>>=◌, Eq, insert, zero, nat_eq,
}
use fairy.InodeTable
use fairy.FuseMt.{
  CachedEntry, DirectoryCacheEntry, FuseMt, Answer, ok, err, Reply, replied, error, einval, eio,
  with_path,
}

-- What `reply.add` is given.
pub record Listed (N : Type 0) : Type 0 where
  pub ino : ℕ
  pub offset : ℕ
  pub kind : ℕ
  pub name : N

-- `iter().skip(n)`
unfoldable pub skip : {A : Type 0} → ℕ → List A → List A
skip zero xs = xs
skip (suc n) [] = []
skip (suc n) (x ∷ xs) = skip n xs

module _ {N : Type 0} ⦃e : Eq N⦄ (dot dotdot : N) where
  -- An inode number that tells nothing is `!1`.
  abbrev pub entry_inode : ℕ → ℕ → N → ℕ
  entry_inode ino parent_inode name =
      if e.beq name dot then ino else if e.beq name dotdot then parent_inode else 2 ^ 64 - 2

  -- The position is `offset + index`.
  abbrev pub listed : ℕ → ℕ → ℕ → CachedEntry N → Listed N
  listed ino parent_inode position entry = record {
    ino = entry_inode ino parent_inode entry.name;
    offset = position + 1;
    kind = entry.kind;
    name = entry.name;
  }

  -- `full` tells whether the reply has no room for an entry after those that it has.
  unfoldable pub list_entries :
      (List (Listed N) → Listed N → Bool)
      → ℕ
      → ℕ
      → ℕ
      → List (CachedEntry N)
      → List (Listed N)
      → List (Listed N)
  list_entries full ino parent_inode position [] reply = reply
  list_entries full ino parent_inode position (entry ∷ entries) reply =
      let added = listed ino parent_inode position entry in
      let rest =
        list_entries full ino parent_inode (position + 1) entries (reply ++ (added ∷ [])) in
      if full reply added then reply else rest

module _ {P N : Type 0} where
  abbrev pub fill : FuseMt P N → ℕ → ℕ → List (CachedEntry N) → FuseMt P N
  fill fs key fh entries =
      let cache = fs.directory_cache in
      record fs {
        directory_cache = record cache {
          entries = insert cache.entries key (record { fh = fh; entries = some entries });
        };
      }

module _ {P N : Type 0} ⦃e : Eq P⦄ (parent : P → Option P) where
  -- `path.parent().unwrap()`, and the error where that path has no inode.
  unfoldable pub find_parent_inode : FuseMt P N → ℕ → P → Option (Answer ℕ)
  find_parent_inode fs ino path =
      if ino == 1
      then some (ok ino)
      else (parent path >>= λ parent_path. some (elim (InodeTable.get_inode fs.inodes parent_path) [
        | none ↦ err eio
        | some inode ↦ ok inode
      ]))

module _ {P N : Type 0} ⦃e : Eq P⦄ ⦃d : Eq N⦄ (parent : P → Option P) (dot dotdot : N)
    (full : List (Listed N) → Listed N → Bool) where
  abbrev pub list_under :
      FuseMt P N → ℕ → ℕ → List (CachedEntry N) → Answer ℕ → Reply (List (Listed N)) × FuseMt P N
  list_under fs ino offset entries (err n) = (error n, fs)
  list_under fs ino offset entries (ok parent_inode) =
      (replied (list_entries dot dotdot full ino parent_inode offset (skip offset entries) []), fs)

  abbrev pub list_cached :
      FuseMt P N → ℕ → P → ℕ → List (CachedEntry N) → Option (Reply (List (Listed N)) × FuseMt P N)
  list_cached fs ino path offset entries = find_parent_inode parent fs ino path >>= λ found.
      some (list_under fs ino offset entries found)

  abbrev pub list_fetched :
      FuseMt P N
      → ℕ
      → P
      → ℕ
      → ℕ
      → ℕ
      → Answer (List (CachedEntry N))
      → Option (Reply (List (Listed N)) × FuseMt P N)
  list_fetched fs ino path key offset fh (err n) = some (error n, fs)
  list_fetched fs ino path key offset fh (ok entries) =
      list_cached (fill fs key fh entries) ino path offset entries

  -- The file system is asked once for each open directory.
  abbrev pub list_entry :
      FuseMt P N
      → ℕ
      → P
      → ℕ
      → ℕ
      → (P → ℕ → Answer (List (CachedEntry N)))
      → DirectoryCacheEntry N
      → Option (Reply (List (Listed N)) × FuseMt P N)
  list_entry fs ino path key offset answer entry = elim entry.entries [
    | some entries ↦ list_cached fs ino path offset entries
    | none ↦ list_fetched fs ino path key offset entry.fh (answer path entry.fh)
  ]

  abbrev pub readdir_at :
      FuseMt P N
      → ℕ
      → P
      → ℕ
      → ℤ
      → (P → ℕ → Answer (List (CachedEntry N)))
      → Option (Reply (List (Listed N)) × FuseMt P N)
  readdir_at fs ino path key (negsuc n) answer = some (error einval, fs)
  readdir_at fs ino path key (pos offset) answer =
      fs.directory_cache.entries key >>= λ entry. list_entry fs ino path key offset answer entry

  unfoldable pub readdir :
      FuseMt P N
      → ℕ
      → ℕ
      → ℤ
      → (P → ℕ → Answer (List (CachedEntry N)))
      → Option (Reply (List (Listed N)) × FuseMt P N)
  readdir fs ino key offset answer =
      with_path fs ino λ path. readdir_at fs ino path key offset answer

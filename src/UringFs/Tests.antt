-- ===== src/UringFs/Tests.antt =====
-- fuse/src/uring_fuse/uring_fs: runs of the file system, and instances of its laws.
use fairy.Prelude.{
  ℕ, ◌≡◌, ◌≢◌, ◌⊎◌, refl, Bool, true, false, none, some, List, [], ◌∷◌, arith, nat_eq,
}
use fairy.Prelude.BTreeMap.{Bytes, bytes_eq}
use fairy.UringFs.{
  Inode, UringFilesystem, DirectoryEntry, Created, replied, regular_file, directory, new_manager,
  init, create, create_inode, run, lookup, lookup_inode, readdir, list_entries, get, join, append,
  attr_of, slash, fuse_root_id,
}
use fairy.UringFs.Index.{IsIndexed, run-IsIndexed, lookup-create}
use fairy.UringFs.Listing.{IsEntry, readdir-IsEntry}

abbrev pub valid : Bytes → Bool
valid name = true

abbrev roomy : List DirectoryEntry → DirectoryEntry → Bool
roomy entries e = false

-- A bucket with one file, `a`.
abbrev pub empty_fs : UringFilesystem
empty_fs = init (new_manager []) (λ _. none)

abbrev pub name_a : Bytes
name_a = 97 ∷ []

abbrev pub root : Inode
root = record {
  ino = fuse_root_id;
  parent = fuse_root_id;
  name = [];
  full_path = slash ∷ [];
  kind = directory;
}

abbrev pub file_a : Inode
file_a = record {
  ino = 2;
  parent = 1;
  name = name_a;
  full_path = slash ∷ name_a;
  kind = regular_file;
}

abbrev pub created_a : Created
created_a = record {
  entry = record { ttl = 1000000; attr = attr_of file_a; generation = 2 };
  fh = 1;
  flags = 0;
}

-- A bucket with one file, `a`.
abbrev pub one_file : UringFilesystem
one_file = (create valid empty_fs 1 name_a).1

pub creates_a : create valid empty_fs 1 name_a ≡ (replied created_a, one_file)
unfolding create create_inode get init new_manager join attr_of
creates_a = refl

pub empty_fs-IsIndexed : IsIndexed empty_fs.inode_manager
unfolding run
empty_fs-IsIndexed = run-IsIndexed valid [] (λ _. none) [] (omega arith)

run-IsIndexed_example :
    IsIndexed (run valid empty_fs ((1, name_a) ∷ (1, name_a) ∷ (7, name_a) ∷ [])).inode_manager
run-IsIndexed_example =
    run-IsIndexed valid [] (λ _. none) ((1, name_a) ∷ (1, name_a) ∷ (7, name_a) ∷ []) (omega arith)

root_there : empty_fs.inode_manager.inodes 1 ≡ some root
unfolding init new_manager
root_there = refl

paths_differ : join root.full_path (98 ∷ []) ≢ join root.full_path name_a
unfolding join
paths_differ e = ground (arith, e)

lookup-create_example :
    (lookup valid one_file 1 name_a
      ≡ replied (record { ttl = 100000; attr = created_a.entry.attr; generation = 0 }))
    × (created_a.entry.attr.ino ≡ empty_fs.inode_manager.next_ino)
    × (lookup valid one_file 1 (98 ∷ []) ≡ lookup valid empty_fs 1 (98 ∷ []))
lookup-create_example =
    lookup-create valid empty_fs 1 name_a empty_fs-IsIndexed creates_a 1 root root (98 ∷ [])
      root_there root_there paths_differ

root_kept : one_file.inode_manager.inodes 1 ≡ some root
unfolding create create_inode get init new_manager join
root_kept = refl

cached_a : one_file.ls_cache root.full_path ≡ some (name_a ∷ [])
unfolding create create_inode get init new_manager join append
cached_a = refl

abbrev dot : DirectoryEntry
dot = record { ino = 1; offset = 1; kind = directory; name = 46 ∷ [] }

abbrev entry_a : DirectoryEntry
entry_a = record { ino = 2; offset = 2; kind = regular_file; name = name_a }

lists_a : readdir roomy one_file 1 0 ≡ replied (dot ∷ entry_a ∷ [])
unfolding readdir list_entries lookup_inode create create_inode get init new_manager join append
lists_a = refl

-- The kernel goes on at offset 2, the offset of the last entry.
readdir-IsEntry_example :
    ((◌≡◌ {A = ℕ} 0 0) × (entry_a.ino ≡ 1)) ⊎ IsEntry one_file 1 0 (name_a ∷ []) entry_a
readdir-IsEntry_example =
    readdir-IsEntry roomy one_file 1 0 root (name_a ∷ []) 1 entry_a root_kept cached_a lists_a refl

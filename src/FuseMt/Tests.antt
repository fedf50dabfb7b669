-- ===== src/FuseMt/Tests.antt =====
-- async_fuse/fusemt.rs and async_fuse/directory_cache.rs: runs, with numbers for paths and names.
use fairy.Prelude.{
  ℕ, ◌+◌, ◌*◌, ◌/◌, ◌≡◌, refl, Bool, Option, none, some, List, [], ◌∷◌, ◌>>=◌, leb, length, arith,
  inr, Post, nat_eq, insert, Returns, zero, suc, ◌≤◌, get_elem?, Post-elim,
}
use fairy.InodeTable.{Entry, InodeTable, init}
use fairy.InodeTable
use fairy.InodeTable.Invariant.{Inv, init-Inv}
use fairy.FuseMt.{
  FuseMt, CachedEntry, ok, Reply, replied, EntryReply, new_cache, new_entry, opendir, mkdir, rmdir,
  mknod, unlink,
}
use fairy.FuseMt.Directories.{Listed, find_parent_inode}
use fairy.FuseMt.Inodes.{Call, unlinks, mknods, mkdirs, step, run, run-InodesInv}
use fairy.FuseMt.Remaking.{Remade, unlink-mknod}
use fairy.FuseMt.Removing.{rmdir_forbids_mkdir}
use fairy.FuseMt.Paging.{Open, collect, numbered, collect-all}

abbrev join : ℕ → ℕ → ℕ
join path name = 100 * path + name

abbrev parent : ℕ → Option ℕ
parent path = some (path / 100)

-- The root is path 1.
abbrev mounted : FuseMt ℕ ℕ
mounted = record { inodes = init 1; directory_cache = new_cache }

abbrev root_table : InodeTable ℕ
root_table = record {
  table = record { path = some 1; lookups = 0; generation = 0 } ∷ [];
  free_list = [];
  by_path = insert (λ _. none) 1 0;
}

-- A file is made again after it is unlinked.
abbrev remake_file : List (Call ℕ ℕ ℕ)
remake_file = mknods 1 5 (λ p n. ok 0) ∷ unlinks 1 5 (λ p n. ok tt) ∷ mknods 1 5 (λ p n. ok 0) ∷ []

remake_file_lem :
    Post (run join mounted remake_file) (λ fs. InodeTable.get_path fs.inodes 3 ≡ some (some 105))
unfolding run step mknod unlink init InodeTable.get_path InodeTable.add InodeTable.unlink
    InodeTable.get_inode_entry
remake_file_lem = refl

remake_file-Returns : Returns (run join mounted remake_file)
unfolding run step mknod unlink init InodeTable.get_path InodeTable.add InodeTable.unlink
    InodeTable.get_inode_entry
remake_file-Returns = (_, refl)

abbrev with_directory : FuseMt ℕ ℕ
with_directory = record {
  inodes = record {
    table =
        record { path = some 1; lookups = 0; generation = 0 }
        ∷ record { path = some 105; lookups = 1; generation = 0 }
        ∷ [];
    free_list = [];
    by_path = insert root_table.by_path 105 1;
  };
  directory_cache = new_cache;
}

abbrev first_reply : Reply (EntryReply ℕ)
first_reply = replied (record { attr = 0; ino = 2; generation = 0 })

make_directory : mkdir join mounted 1 5 (λ p n. ok 0) ≡ some (first_reply, with_directory)
unfolding mkdir init InodeTable.get_path InodeTable.add InodeTable.get_inode_entry
make_directory = refl

root_inode : InodeTable.get_inode mounted.inodes 1 ≡ some 1
unfolding InodeTable.get_inode init
root_inode = refl

abbrev make_call : List (Call ℕ ℕ ℕ)
make_call = mkdirs 1 5 (λ p n. ok 0) ∷ []

made : run join mounted make_call ≡ some with_directory
unfolding run step mkdir init InodeTable.get_path InodeTable.add InodeTable.get_inode_entry
made = refl

with_directory-Inv : Inv with_directory.inodes
with_directory-Inv =
    Post-elim _ (λ fs. Inv fs.inodes) (run-InodesInv join make_call mounted (init-Inv 1)) made

root_path : InodeTable.get_path with_directory.inodes 1 ≡ some (some 1)
unfolding InodeTable.get_path
root_path = refl

generations :
    (i : ℕ) (entry : Entry ℕ)
    → get_elem? with_directory.inodes.table i ≡ some entry
    → entry.generation ≤ 0
generations zero entry h = ground arith
generations (suc zero) entry h = ground arith
generations (suc (suc i)) entry h = cc

unlink-mknod_example :
    (made : FuseMt ℕ ℕ) × (r : EntryReply ℕ) × ((unlink join with_directory 1 5 (λ p n. ok tt)
        >>= λ r. mknod join r.1 1 5 (λ p n. ok 7))
      ≡ some (replied r, made))
    × Remade with_directory.inodes 105 made.inodes r.ino
unlink-mknod_example =
    unlink-mknod join with_directory 1 1 5 7 with_directory-Inv root_path
      (λ i entry h. omega (arith, generations i entry h))

rmdir_forbids_mkdir_example :
    (rmdir join with_directory 1 5 (λ p n. ok tt) >>= λ r. mkdir join {A = ℕ} r.1 1 5 (λ p n. ok 0))
    ≡ none
rmdir_forbids_mkdir_example =
    rmdir_forbids_mkdir join mounted with_directory 1 1 5 0 0 first_reply (init-Inv 1) root_inode
      make_directory

-- The root is open under key 1, with the file system's handle 9.
abbrev opened_root : FuseMt ℕ ℕ
opened_root = record { inodes = root_table; directory_cache = (new_entry new_cache 9).1 }

open_root : opendir mounted 1 (λ path. ok (9, 0)) ≡ some (replied (1, 0), opened_root)
unfolding opendir init InodeTable.get_path new_entry new_cache
open_root = refl

abbrev entry : ℕ → CachedEntry ℕ
entry name = record { name = name; kind = 0 }

-- 46 is ".", 47 is "..".
abbrev entries : List (CachedEntry ℕ)
entries = entry 46 ∷ entry 47 ∷ entry 7 ∷ []

abbrev two_fit : List (Listed ℕ) → Listed ℕ → Bool
two_fit reply l = leb 2 (length reply)

opened_root-Open : Open parent 46 47 two_fit 1 1 (λ path fh. ok entries) opened_root 1 entries
unfolding InodeTable.get_path find_parent_inode new_entry new_cache
opened_root-Open = record {
  path = 1;
  handle = record { fh = 9; entries = none };
  at = refl;
  opened = refl;
  under = refl;
  listing = inr (refl, refl);
}

collect-all_example :
    collect parent 46 47 two_fit 1 1 (λ path fh. ok entries) 4 opened_root 0
    ≡ some (numbered 46 47 1 1 0 entries)
collect-all_example =
    collect-all parent 46 47 two_fit 1 1 (λ path fh. ok entries) (λ l. refl) 4 opened_root 1 entries
      opened_root-Open (omega arith)

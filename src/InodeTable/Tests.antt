-- ===== src/InodeTable/Tests.antt =====
-- async_fuse/inode_table.rs: runs of the table, with numbers for paths, and instances of its laws.
use fairy.Prelude.{
  ℕ, zero, suc, ◌≤◌, ◌≡◌, refl, none, some, [], ◌∷◌, Post, Returns, arith, if◌then◌else◌, nat_eq,
  get_elem?, ◌==◌, insert, Post-elim,
}
use fairy.InodeTable.{
  Entry, InodeTable, get_inode_entry, get_path, init, add, forget, rename, get_inode, adds, forgets,
  renames, step, run,
}
use fairy.InodeTable.Invariant.{Inv, init-Inv}
use fairy.InodeTable.History.{run-Inv}
use fairy.InodeTable.Mapping.{Mapped, add-Mapped, add-some}
use fairy.InodeTable.Forgetting.{
  acquires, releases, remaining, refer_all, Settled, refer_all-Settled, forget_unmaps_live_path,
}

abbrev root_only : InodeTable ℕ
root_only = record {
  table = record { path = some 0; lookups = 0; generation = 0 } ∷ [];
  free_list = [];
  by_path = λ p. if 0 == p then some 0 else none;
}

root_only-Inv : Inv root_only
unfolding init
root_only-Inv = init-Inv 0

-- The table of `test_inode_reuse`: the first inode is forgotten, and its number comes back.
reuse :
    Post
      (run root_only (adds 10 ∷ adds 11 ∷ forgets 2 1 ∷ adds 12 ∷ []))
      (λ t. (get_inode t 12 ≡ some 2) × (get_path t 2 ≡ some (some 12)) × (get_inode t 10 ≡ none))
unfolding run step add forget get_inode get_path get_inode_entry
reuse = (refl, refl, refl)

-- The calls of `test_inode_reuse`.
run-Inv_example : Post (run root_only (adds 10 ∷ adds 11 ∷ forgets 2 1 ∷ adds 12 ∷ [])) Inv
run-Inv_example = run-Inv (adds 10 ∷ adds 11 ∷ forgets 2 1 ∷ adds 12 ∷ []) root_only root_only-Inv

add-Mapped_example :
    Post (add root_only 10) (λ r. Mapped root_only 10 r.0 r.1.0 × (root_only.by_path 10 ≡ none))
add-Mapped_example = add-Mapped root_only 10 root_only-Inv

root_only_generations :
    (i : ℕ) (entry : Entry ℕ) → get_elem? root_only.table i ≡ some entry → entry.generation ≤ 0
root_only_generations zero entry h = ground arith
root_only_generations (suc i) entry h = cc

add-some_example : Returns (add root_only 10)
add-some_example =
    add-some root_only 10 root_only-Inv refl
      (λ i entry h. omega (arith, root_only_generations i entry h))

-- After `add 10` and `add 11`.
abbrev two_files : InodeTable ℕ
two_files = record {
  table =
      record { path = some 0; lookups = 0; generation = 0 }
      ∷ record { path = some 10; lookups = 1; generation = 0 }
      ∷ record { path = some 11; lookups = 1; generation = 0 }
      ∷ [];
  free_list = [];
  by_path = insert (insert root_only.by_path 10 1) 11 2;
}

two_files_lem : run root_only (adds 10 ∷ adds 11 ∷ []) ≡ some two_files
unfolding run step add get_inode_entry
two_files_lem = refl

two_files-Inv : Inv two_files
two_files-Inv =
    Post-elim _ Inv (run-Inv (adds 10 ∷ adds 11 ∷ []) root_only root_only-Inv) two_files_lem

-- Path 11 is renamed onto 10, and the inode that 10 had is forgotten: 10 leads nowhere after that,
-- though inode 3 has it.
taken_over :
    Post
      (run root_only (adds 10 ∷ adds 11 ∷ renames 11 10 ∷ forgets 2 1 ∷ []))
      (λ t. (get_inode t 10 ≡ none) × (get_path t 3 ≡ some (some 10)))
unfolding run step add rename forget get_inode get_path get_inode_entry
taken_over = (refl, refl)

-- A lookup, and both references given back.
all_returned : remaining 1 (acquires ∷ releases 2 ∷ []) ≡ some 0
unfolding remaining
all_returned = refl

refer_all-Settled_example :
    (t : InodeTable ℕ) × (refer_all two_files 2 (acquires ∷ releases 2 ∷ []) ≡ some t)
    × Settled two_files 10 2 0 t
refer_all-Settled_example =
    refer_all-Settled two_files 10 1 (record { path = some 10; lookups = 1; generation = 0 })
      (acquires ∷ releases 2 ∷ []) two_files-Inv (omega arith) refl refl (omega arith) all_returned

forget_unmaps_live_path_example :
    (t₁ : InodeTable ℕ) × (t₂ : InodeTable ℕ) × (rename two_files 11 10 ≡ some t₁)
    × (get_inode t₁ 10 ≡ some 3)
    × (forget t₁ 2 1 ≡ some (t₂, 0))
    × (get_inode t₂ 10 ≡ none)
    × (get_path t₂ 3 ≡ some (some 10))
forget_unmaps_live_path_example =
    forget_unmaps_live_path two_files 11 10 2 1
      (record { path = some 10; lookups = 1; generation = 0 }) two_files-Inv (omega arith)
      (omega arith) refl refl refl

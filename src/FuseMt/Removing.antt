-- ===== src/FuseMt/Removing.antt =====
-- async_fuse/fusemt.rs: what becomes of the inode of a directory that is removed.
use fairy.Prelude.{
  ℕ, ◌≡◌, refl, none, some, ◌>>=◌, Eq, get_elem?, Option-cases, inl, inr, arith, ◌∙◌, Post,
  Post->>=, Post-elim, beq_refl, beq-ne, ap,
}
use fairy.InodeTable.{InodeTable, add, get_inode, get_inode_entry, get_path}
use fairy.InodeTable.Invariant.{Inv}
use fairy.InodeTable.History.{add-Inv}
use fairy.InodeTable.Mapping.{add-Mapped, get_path-get_inode}
use fairy.FuseMt.{FuseMt, ok, EntryReply, Reply, replied_entry, mkdir, rmdir}

module _ {P : Type 0} ⦃e : Eq P⦄ where
  -- `add` panics on a path that is mapped.
  add-mapped :
      (t : InodeTable P) (path : P) {idx : ℕ} → t.by_path path ≡ some idx → add t path ≡ none
  unfolding add
  add-mapped t path m = elim (Option-cases (get_inode_entry t.free_list t.table)) [
    | inl a ↦ rw a refl
    | inr (r, a) ↦ elim (Option-cases (get_elem? r.2 r.0)) [
      | inl g ↦ rw (a, g) refl
      | inr (entry, g) ↦ rw (a, g, m) refl
    ]
  ]

  get_inode-mapped :
      (t : InodeTable P) (path : P) {inode : ℕ}
      → get_inode t path ≡ some inode
      → (idx : ℕ) × (t.by_path path ≡ some idx)
  unfolding get_inode
  get_inode-mapped t path h = elim (Option-cases (t.by_path path)) [
    | inl m ↦ absurd (ground arith)
    | inr (idx, m) ↦ (idx, m)
  ]

  -- After `add` the new path leads to its inode, and a directory that had an inode has it still.
  record Entered (t : InodeTable P) (directory path : P) (parent : ℕ) (t' : InodeTable P)
      : Type 0 where
    pub mapped : (idx : ℕ) × (t'.by_path path ≡ some idx)
    pub before : get_path t parent ≡ some (some directory)
    pub after : get_path t' parent ≡ some (some directory)

  add-Entered :
      (t : InodeTable P) (directory path : P) {parent : ℕ} {r : InodeTable P × (ℕ × ℕ)}
      → Inv t
      → get_inode t directory ≡ some parent
      → add t path ≡ some r
      → Entered t directory path parent r.0
  add-Entered t directory path {parent} {r} v h a =
      let (entered, unmapped) = Post-elim _ _ (add-Mapped t path v) a in
      let (idx, m) = get_inode-mapped t directory h in
      let other = beq-ne path directory (λ q. cc (m, unmapped, ap t.by_path q)) in
      record {
        mapped =
            get_inode-mapped r.0 path {inode = r.1.0}
              (entered.found path ∙ rw (beq_refl path) refl);
        before = get_path-get_inode t directory v h;
        after =
            get_path-get_inode r.0 directory (Post-elim _ _ (add-Inv t v path) a)
              (entered.found directory ∙ rw other h);
      }

module _ {P N A : Type 0} ⦃e : Eq P⦄ (join : P → N → P) where
  mkdir-add :
      (fs : FuseMt P N) (parent : ℕ) (directory : P) (name : N) (attr : A)
      → get_path fs.inodes parent ≡ some (some directory)
      → mkdir join fs parent name (λ p n. ok attr)
        ≡ (add fs.inodes (join directory name) >>= λ r. replied_entry fs attr r)
  unfolding mkdir
  mkdir-add fs parent directory name attr h = rw h refl

  mkdir-Entered :
      (fs : FuseMt P N) (parent : ℕ) (directory : P) (name : N) (attr : A)
      → Inv fs.inodes
      → get_inode fs.inodes directory ≡ some parent
      → Post
          (mkdir join fs parent name (λ p n. ok attr))
          (λ r. Entered fs.inodes directory (join directory name) parent r.1.inodes)
  mkdir-Entered fs parent directory name attr v h =
      rw (mkdir-add fs parent directory name attr (get_path-get_inode fs.inodes directory v h)) (
        Post->>= (add fs.inodes (join directory name)) _ _
          λ r a. add-Entered fs.inodes directory (join directory name) v h a)

  -- In a state with a sound inode table, a directory that is made in one with an inode, and then
  -- removed, cannot be made again right after: the call panics, though the file system made the
  -- directory.
  pub rmdir_forbids_mkdir :
      (fs made : FuseMt P N) (parent : ℕ) (directory : P) (name : N) (attr attr' : A)
      (reply : Reply (EntryReply A))
      → Inv fs.inodes
      → get_inode fs.inodes directory ≡ some parent
      → mkdir join fs parent name (λ p n. ok attr) ≡ some (reply, made)
      → (rmdir join made parent name (λ p n. ok tt) >>= λ r.
          mkdir join r.1 parent name (λ p n. ok attr'))
        ≡ none
  unfolding rmdir
  rmdir_forbids_mkdir fs made parent directory name attr attr' reply v h m =
      let entered = Post-elim _ _ (mkdir-Entered fs parent directory name attr v h) m in
      rw (entered.after) (
        mkdir-add made parent directory name attr' entered.after
        ∙ rw (add-mapped made.inodes (join directory name) entered.mapped.1) refl)

-- ===== src/FuseMt/Remaking.antt =====
-- async_fuse/fusemt.rs: a file that is unlinked can be made again.
use fairy.Prelude.{
  ℕ, ◌<◌, ◌≡◌, ◌≢◌, refl, none, some, ◌>>=◌, Eq, get_elem?, Post-elim, beq_refl, if◌then◌else◌,
  arith,
}
use fairy.InodeTable.{Entry, InodeTable, get_inode, get_path, u64_max}
use fairy.InodeTable
use fairy.InodeTable.Paths.{path_at}
use fairy.InodeTable.Invariant.{Inv}
use fairy.InodeTable.History.{unlink-Inv}
use fairy.InodeTable.Mapping.{Mapped, add-Mapped, add-some}
use fairy.FuseMt.{FuseMt, ok, EntryReply, replied, mknod, unlink}

module _ {P : Type 0} ⦃e : Eq P⦄ where
  -- The path was given a new number, that no inode in use had; every other path is mapped as before.
  pub record Remade (t : InodeTable P) (path : P) (t' : InodeTable P) (ino : ℕ) : Type 0 where
    pub remapped : (q : P) → get_inode t' q ≡ (if e.beq path q then some ino else get_inode t q)
    pub unused : (q : P) → get_path t ino ≢ some (some q)
    pub assigned : get_path t' ino ≡ some (some path)

  unlink-unmapped : (t : InodeTable P) (path : P) → (InodeTable.unlink t path).by_path path ≡ none
  unfolding InodeTable.unlink
  unlink-unmapped t path = ground (arith, beq_refl path)

  unlink-get_inode :
      (t : InodeTable P) (path q : P)
      → get_inode (InodeTable.unlink t path) q ≡ (if e.beq path q then none else get_inode t q)
  unfolding InodeTable.unlink get_inode
  unlink-get_inode t path q = ground arith

  unlink-get_path :
      (t : InodeTable P) (path : P) (inode : ℕ)
      → get_path (InodeTable.unlink t path) inode ≡ get_path t inode
  unfolding InodeTable.unlink get_path
  unlink-get_path t path inode = refl

  Mapped-Remade :
      (t : InodeTable P) (path : P) (t' : InodeTable P) (ino : ℕ)
      → Mapped (InodeTable.unlink t path) path t' ino
      → Remade t path t' ino
  unfolding get_path InodeTable.unlink path_at
  Mapped-Remade t path t' ino m = record {
    remapped = λ q. ground (arith, m.found q, unlink-get_inode t path q);
    unused = λ q h. ground (arith, m.unused, m.positive, h);
    assigned = m.assigned;
  }

module _ {P N A : Type 0} ⦃e : Eq P⦄ (join : P → N → P) where
  -- In a state with a sound inode table, let a file be unlinked and made again in a directory with an
  -- inode, and the file system do both. Neither call panics, unless the number of an inode was reused
  -- as often as a `u64` counts. The file's path has an inode number, which belonged to no path before,
  -- the number leads back to the path, and every other path has the inode that it had.
  pub unlink-mknod :
      (fs : FuseMt P N) (parent : ℕ) (directory : P) (name : N) (attr : A)
      → Inv fs.inodes
      → get_path fs.inodes parent ≡ some (some directory)
      → ((i : ℕ) (entry : Entry P)
          → get_elem? fs.inodes.table i ≡ some entry
          → entry.generation < u64_max)
      → (made : FuseMt P N) × (r : EntryReply A) × ((unlink join fs parent name (λ p n. ok tt)
            >>= λ r. mknod join r.1 parent name (λ p n. ok attr))
          ≡ some (replied r, made))
        × Remade fs.inodes (join directory name) made.inodes r.ino
  unfolding unlink mknod InodeTable.unlink
  unlink-mknod fs parent directory name attr v h g =
      let path = join directory name in
      let t = InodeTable.unlink fs.inodes path in
      let sound = unlink-Inv fs.inodes v path in
      let ((t', (ino, generation)), a) = add-some t path sound (unlink-unmapped fs.inodes path) g in
      (
        record fs { inodes = t' },
        record { attr = attr; ino = ino; generation = generation },
        rw (h, unlink-get_path fs.inodes path parent, h, a) refl,
        Mapped-Remade fs.inodes path t' ino ((Post-elim _ _ (add-Mapped t path sound) a).0),
      )

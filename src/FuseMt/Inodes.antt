-- ===== src/FuseMt/Inodes.antt =====
-- async_fuse/fusemt.rs: what the calls of the kernel, in any order, keep of the inode table.
use fairy.Prelude.{ℕ, Option, none, some, List, [], ◌∷◌, ◌>>=◌, Eq, Post, Post->>=, Post-elim}
use fairy.InodeTable.{InodeTable, add, get_inode}
use fairy.InodeTable
use fairy.InodeTable.Invariant.{Inv}
use fairy.InodeTable.History.{
  add-Inv, add_or_get-Inv, lookup-Inv, forget-Inv, rename-Inv, unlink-Inv,
}
use fairy.FuseMt.{
  FuseMt, Answer, ok, err, Reply, with_path, path_or_error, found, enter, passed_on, unlinked,
  renamed, opened, released, lookup, mknod, mkdir, symlink, create, link, unlink, rmdir, rename,
  getattr, forget, opendir, releasedir, real_fh,
}

-- A call of the kernel, with what the file system answers.
pub data Call (P N A : Type 0) : Type 0 where
  lookups : ℕ → N → (P → Answer A) → Call P N A
  mknods : ℕ → N → (P → N → Answer A) → Call P N A
  mkdirs : ℕ → N → (P → N → Answer A) → Call P N A
  symlinks : ℕ → N → (P → N → Answer A) → Call P N A
  creates : ℕ → N → (P → N → Answer A) → Call P N A
  links : ℕ → ℕ → N → (P → P → N → Answer A) → Call P N A
  unlinks : ℕ → N → (P → N → Answer (Unit {0})) → Call P N A
  rmdirs : ℕ → N → (P → N → Answer (Unit {0})) → Call P N A
  renames : ℕ → N → ℕ → N → (P → N → P → N → Answer (Unit {0})) → Call P N A
  getattrs : ℕ → (P → Answer A) → Call P N A
  forgets : ℕ → ℕ → Call P N A
  opendirs : ℕ → (P → Answer (ℕ × ℕ)) → Call P N A
  releasedirs : ℕ → ℕ → (P → ℕ → Answer (Unit {0})) → Call P N A

abbrev after_reply : {P N R : Type 0} → Option (Reply R × FuseMt P N) → Option (FuseMt P N)
after_reply m = m >>= λ r. some r.1

module _ {P N A : Type 0} ⦃e : Eq P⦄ (join : P → N → P) where
  unfoldable pub step : FuseMt P N → Call P N A → Option (FuseMt P N)
  step fs (lookups parent name a) = after_reply (lookup join fs parent name a)
  step fs (mknods parent name a) = after_reply (mknod join fs parent name a)
  step fs (mkdirs parent name a) = after_reply (mkdir join fs parent name a)
  step fs (symlinks parent name a) = after_reply (symlink join fs parent name a)
  step fs (creates parent name a) = after_reply (create join fs parent name a)
  step fs (links ino parent name a) = after_reply (link join fs ino parent name a)
  step fs (unlinks parent name a) = after_reply (unlink join fs parent name a)
  step fs (rmdirs parent name a) = after_reply (rmdir join fs parent name a)
  step fs (renames parent name newparent newname a) =
      after_reply (rename join fs parent name newparent newname a)
  step fs (getattrs ino a) = after_reply (getattr fs ino a)
  step fs (forgets ino n) = forget fs ino n
  step fs (opendirs ino a) = after_reply (opendir fs ino a)
  step fs (releasedirs ino key a) = after_reply (releasedir fs ino key a)

  unfoldable pub run : FuseMt P N → List (Call P N A) → Option (FuseMt P N)
  run fs [] = some fs
  run fs (c ∷ cs) = step fs c >>= λ fs'. run fs' cs

module _ {P N : Type 0} where
  abbrev InodesInv : ⦃e : Eq P⦄ → FuseMt P N → Type 0
  InodesInv fs = Inv fs.inodes

  abbrev Keeps : ⦃e : Eq P⦄ → {R : Type 0} → Option (Reply R × FuseMt P N) → Type 0
  Keeps m = Post m (λ r. InodesInv r.1)

module _ {P N : Type 0} ⦃e : Eq P⦄ where
  after_reply-Inv :
      {R : Type 0} (m : Option (Reply R × FuseMt P N)) → Keeps m → Post (after_reply m) InodesInv
  after_reply-Inv m h = Post->>= m _ _ λ r d. Post-elim m (λ r. InodesInv r.1) h d

  path_or_error-Keeps :
      {R : Type 0} (fs : FuseMt P N) (path : Option P) (k : P → Option (Reply R × FuseMt P N))
      → InodesInv fs
      → ((p : P) → Keeps (k p))
      → Keeps (path_or_error path fs k)
  path_or_error-Keeps fs none k v h = v
  path_or_error-Keeps fs (some p) k v h = h p

  with_path-Keeps :
      {R : Type 0} (fs : FuseMt P N) (ino : ℕ) (k : P → Option (Reply R × FuseMt P N))
      → InodesInv fs
      → ((path : P) → Keeps (k path))
      → Keeps (with_path fs ino k)
  with_path-Keeps fs ino k v h =
      Post->>= (InodeTable.get_path fs.inodes ino) _ _ λ path _. path_or_error-Keeps fs path k v h

module _ {P N : Type 0} ⦃e : Eq P⦄ (fs : FuseMt P N) (v : InodesInv fs) where
  enter-Keeps : {A : Type 0} (path : P) (a : Answer A) → Keeps (enter fs path a)
  enter-Keeps path (err n) = v
  enter-Keeps path (ok attr) =
      Post->>= (add fs.inodes path) _ _ λ r d. Post-elim _ _ (add-Inv fs.inodes v path) d

  found-Keeps : {A : Type 0} (path : P) (a : Answer A) → Keeps (found fs path a)
  found-Keeps path (err n) = v
  found-Keeps path (ok attr) = Post->>= (InodeTable.add_or_get fs.inodes path) _ _ λ r d.
      Post->>= (InodeTable.lookup r.0 r.1.0) _ _ λ t h.
        Post-elim _ _ (lookup-Inv r.0 (Post-elim _ _ (add_or_get-Inv fs.inodes v path) d) r.1.0) h

  passed_on-Keeps : {A : Type 0} (a : Answer A) → Keeps (passed_on fs a)
  passed_on-Keeps (err n) = v
  passed_on-Keeps (ok a) = v

  unlinked-Keeps : (path : P) (a : Answer (Unit {0})) → Keeps (unlinked fs path a)
  unlinked-Keeps path (err n) = v
  unlinked-Keeps path (ok tt) = unlink-Inv fs.inodes v path

  renamed-Keeps :
      (oldpath newpath : P) (a : Answer (Unit {0})) → Keeps (renamed fs oldpath newpath a)
  renamed-Keeps oldpath newpath (err n) = v
  renamed-Keeps oldpath newpath (ok tt) =
      Post->>= (InodeTable.rename fs.inodes oldpath newpath) _ _
        λ t d. Post-elim _ _ (rename-Inv fs.inodes v oldpath newpath) d

  opened-Keeps : (a : Answer (ℕ × ℕ)) → Keeps (opened fs a)
  opened-Keeps (err n) = v
  opened-Keeps (ok a) = v

  released-Keeps : (key : ℕ) (a : Answer (Unit {0})) → Keeps (released fs key a)
  released-Keeps key (err n) = v
  released-Keeps key (ok tt) = v

  forgotten-Inv : (ino n : ℕ) → Post (forget fs ino n) InodesInv
  unfolding forget
  forgotten-Inv ino n = Post->>= (InodeTable.get_path fs.inodes ino) _ _ λ path _.
      Post->>= (InodeTable.forget fs.inodes ino n) _ _
        λ r d. Post-elim _ _ (forget-Inv fs.inodes v ino n) d

module _ {P N A : Type 0} ⦃e : Eq P⦄ (join : P → N → P) where
  make-Inv :
      (fs : FuseMt P N) (parent : ℕ) (name : N) (a : P → N → Answer A)
      → InodesInv fs
      → Post (after_reply (mkdir join fs parent name a)) InodesInv
  unfolding mkdir
  make-Inv fs parent name a v =
      after_reply-Inv _
        (with_path-Keeps fs parent _ v λ p. enter-Keeps fs v (join p name) (a p name))

  step-Inv : (fs : FuseMt P N) (c : Call P N A) → InodesInv fs → Post (step join fs c) InodesInv
  unfolding step lookup mknod mkdir symlink create link unlink rmdir rename getattr opendir
      releasedir
  step-Inv fs (lookups parent name a) v =
      after_reply-Inv _
        (with_path-Keeps fs parent _ v λ p. found-Keeps fs v (join p name) (a (join p name)))
  step-Inv fs (mknods parent name a) v = make-Inv fs parent name a v
  step-Inv fs (mkdirs parent name a) v = make-Inv fs parent name a v
  step-Inv fs (symlinks parent name a) v = make-Inv fs parent name a v
  step-Inv fs (creates parent name a) v = make-Inv fs parent name a v
  step-Inv fs (links ino parent name a) v = after_reply-Inv _ (
      with_path-Keeps fs ino _ v
        λ q. with_path-Keeps fs parent _ v λ p. enter-Keeps fs v (join p name) (a q p name))
  step-Inv fs (unlinks parent name a) v =
      after_reply-Inv _
        (with_path-Keeps fs parent _ v λ p. unlinked-Keeps fs v (join p name) (a p name))
  step-Inv fs (rmdirs parent name a) v =
      after_reply-Inv _ (with_path-Keeps fs parent _ v λ p. passed_on-Keeps fs v (a p name))
  step-Inv fs (renames parent name newparent newname a) v = after_reply-Inv _ (
      with_path-Keeps fs parent _ v λ p.
        with_path-Keeps fs newparent _ v
          λ q. renamed-Keeps fs v (join p name) (join q newname) (a p name q newname))
  step-Inv fs (getattrs ino a) v =
      after_reply-Inv _ (with_path-Keeps fs ino _ v λ p. passed_on-Keeps fs v (a p))
  step-Inv fs (forgets ino n) v = forgotten-Inv fs v ino n
  step-Inv fs (opendirs ino a) v =
      after_reply-Inv _ (with_path-Keeps fs ino _ v λ p. opened-Keeps fs v (a p))
  step-Inv fs (releasedirs ino key a) v = after_reply-Inv _ (
      with_path-Keeps fs ino _ v
        λ p. Post->>= (real_fh fs.directory_cache key) _ _ λ fh _. released-Keeps fs v key (a p fh))

  -- From any state with a sound inode table, every history of calls that does not panic ends in one,
  -- whatever the file system answers: each mapped path is the path of its entry, the free list
  -- names distinct slots with no path, and inode 1 has a path.
  pub run-InodesInv :
      (cs : List (Call P N A)) (fs : FuseMt P N)
      → Inv fs.inodes
      → Post (run join fs cs) (λ fs'. Inv fs'.inodes)
  unfolding run
  run-InodesInv [] fs v = v
  run-InodesInv (c ∷ cs) fs v =
      Post->>= (step join fs c) _ _
        λ fs' h. run-InodesInv cs fs' (Post-elim _ _ (step-Inv fs c v) h)

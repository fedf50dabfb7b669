-- ===== src/FuseMt.antt =====
-- fuse/src/async_fuse/fusemt.rs and fuse/src/async_fuse/directory_cache.rs: the calls of the kernel, by
-- inode number, on a file system that knows paths. What that file system answers, to the paths that
-- it is asked about, is an argument of the handler; `join` is `Path::join`. `none` is a panic.
pub mod Directories
pub mod Inodes
pub mod Paging
pub mod Remaking
pub mod Removing
pub mod Requests
pub mod Tests
use fairy.Prelude.{
  ℕ, zero, suc, ◌+◌, ◌-◌, ◌%◌, ◌^◌, Bool, true, false, Option, none, some, List, [], ◌∷◌, ◌++◌,
  ◌==◌, if◌then◌else◌, ◌>>=◌, Eq, insert, erase, nat_eq,
}
use fairy.InodeTable.{InodeTable}
use fairy.InodeTable

pub record CachedEntry (N : Type 0) : Type 0 where
  pub name : N
  pub kind : ℕ

pub record DirectoryCacheEntry (N : Type 0) : Type 0 where
  pub fh : ℕ
  pub entries : Option (List (CachedEntry N))

pub record DirectoryCache (N : Type 0) : Type 0 where
  pub next_key : ℕ
  pub entries : ℕ → Option (DirectoryCacheEntry N)

-- `P` is a path, `N` a name.
pub record FuseMt (P N : Type 0) : Type 0 where
  pub inodes : InodeTable P
  pub directory_cache : DirectoryCache N

-- `Result<_, c_int>`, of the file system.
pub data Answer (A : Type 0) : Type 0 where
  ok : A → Answer A
  err : ℕ → Answer A

pub data Reply (A : Type 0) : Type 0 where
  replied : A → Reply A
  error : ℕ → Reply A

abbrev pub einval : ℕ
einval = 22

abbrev pub eio : ℕ
eio = 5

-- The attributes, the inode number and the generation of a reply.
pub record EntryReply (A : Type 0) : Type 0 where
  pub attr : A
  pub ino : ℕ
  pub generation : ℕ

module _ {N : Type 0} where
  unfoldable pub new_cache : DirectoryCache N
  new_cache = record { next_key = 1; entries = λ _. none }

  unfoldable pub new_entry : DirectoryCache N → ℕ → ℕ × DirectoryCache N
  new_entry c fh = (
    c.next_key,
    record {
      next_key = (c.next_key + 1) % 2 ^ 64;
      entries = insert c.entries c.next_key (record { fh = fh; entries = none });
    },
  )

  unfoldable pub real_fh : DirectoryCache N → ℕ → Option ℕ
  real_fh c key = c.entries key >>= λ e. some e.fh

  unfoldable pub delete : DirectoryCache N → ℕ → DirectoryCache N
  delete c key = record c { entries = erase c.entries key }

module _ {P N : Type 0} where
  abbrev pub path_or_error :
      {A : Type 0}
      → Option P
      → FuseMt P N
      → (P → Option (Reply A × FuseMt P N))
      → Option (Reply A × FuseMt P N)
  path_or_error none fs k = some (error einval, fs)
  path_or_error (some path) fs k = k path

  -- `get_path!`
  abbrev pub with_path :
      {A : Type 0}
      → FuseMt P N
      → ℕ
      → (P → Option (Reply A × FuseMt P N))
      → Option (Reply A × FuseMt P N)
  with_path fs ino k = InodeTable.get_path fs.inodes ino >>= λ path. path_or_error path fs k

  abbrev pub replied_entry :
      {A : Type 0}
      → FuseMt P N
      → A
      → InodeTable P × (ℕ × ℕ)
      → Option (Reply (EntryReply A) × FuseMt P N)
  replied_entry fs attr (inodes, (ino, generation)) = some (
    replied (record { attr = attr; ino = ino; generation = generation }),
    record fs { inodes = inodes },
  )

  abbrev pub passed_on : {A : Type 0} → FuseMt P N → Answer A → Option (Reply A × FuseMt P N)
  passed_on fs (err n) = some (error n, fs)
  passed_on fs (ok a) = some (replied a, fs)

  unfoldable pub getattr :
      {A : Type 0} → FuseMt P N → ℕ → (P → Answer A) → Option (Reply A × FuseMt P N)
  getattr fs ino answer = with_path fs ino λ path. passed_on fs (answer path)

  abbrev pub opened : FuseMt P N → Answer (ℕ × ℕ) → Option (Reply (ℕ × ℕ) × FuseMt P N)
  opened fs (err n) = some (error n, fs)
  opened fs (ok (fh, flags)) =
      let (key, cache) = new_entry fs.directory_cache fh in
      some (replied (key, flags), record fs { directory_cache = cache })

  unfoldable pub opendir :
      FuseMt P N → ℕ → (P → Answer (ℕ × ℕ)) → Option (Reply (ℕ × ℕ) × FuseMt P N)
  opendir fs ino answer = with_path fs ino λ path. opened fs (answer path)

  abbrev pub released : FuseMt P N → ℕ → Answer (Unit {0}) → Option (Reply (Unit {0}) × FuseMt P N)
  released fs key (err n) =
      some (error n, record fs { directory_cache = delete fs.directory_cache key })
  released fs key (ok tt) =
      some (replied tt, record fs { directory_cache = delete fs.directory_cache key })

  -- The file system's answer is to the real handle.
  unfoldable pub releasedir :
      FuseMt P N → ℕ → ℕ → (P → ℕ → Answer (Unit {0})) → Option (Reply (Unit {0}) × FuseMt P N)
  releasedir fs ino key answer =
      with_path fs ino
        λ path. real_fh fs.directory_cache key >>= λ fh. released fs key (answer path fh)

module _ {P N : Type 0} ⦃e : Eq P⦄ where
  -- A new path gets an inode, where the file system made one.
  abbrev pub enter :
      {A : Type 0} → FuseMt P N → P → Answer A → Option (Reply (EntryReply A) × FuseMt P N)
  enter fs path (err n) = some (error n, fs)
  enter fs path (ok attr) = InodeTable.add fs.inodes path >>= λ r. replied_entry fs attr r

  abbrev pub found :
      {A : Type 0} → FuseMt P N → P → Answer A → Option (Reply (EntryReply A) × FuseMt P N)
  found fs path (err n) = some (error n, fs)
  found fs path (ok attr) = InodeTable.add_or_get fs.inodes path >>= λ r.
      InodeTable.lookup r.0 r.1.0 >>= λ t. replied_entry fs attr (t, r.1)

  abbrev pub unlinked : FuseMt P N → P → Answer (Unit {0}) → Option (Reply (Unit {0}) × FuseMt P N)
  unlinked fs path (err n) = some (error n, fs)
  unlinked fs path (ok tt) =
      some (replied tt, record fs { inodes = InodeTable.unlink fs.inodes path })

  abbrev pub renamed :
      FuseMt P N → P → P → Answer (Unit {0}) → Option (Reply (Unit {0}) × FuseMt P N)
  renamed fs oldpath newpath (err n) = some (error n, fs)
  renamed fs oldpath newpath (ok tt) = InodeTable.rename fs.inodes oldpath newpath >>= λ t.
      some (replied tt, record fs { inodes = t })

  -- The path is for the log.
  unfoldable pub forget : FuseMt P N → ℕ → ℕ → Option (FuseMt P N)
  forget fs ino nlookup = InodeTable.get_path fs.inodes ino >>= λ path.
      InodeTable.forget fs.inodes ino nlookup >>= λ r. some (record fs { inodes = r.0 })

module _ {P N : Type 0} ⦃e : Eq P⦄ (join : P → N → P) where
  unfoldable pub lookup :
      {A : Type 0}
      → FuseMt P N
      → ℕ
      → N
      → (P → Answer A)
      → Option (Reply (EntryReply A) × FuseMt P N)
  lookup fs parent name answer =
      with_path fs parent
        λ parent_path. found fs (join parent_path name) (answer (join parent_path name))

  unfoldable pub mknod :
      {A : Type 0}
      → FuseMt P N
      → ℕ
      → N
      → (P → N → Answer A)
      → Option (Reply (EntryReply A) × FuseMt P N)
  mknod fs parent name answer =
      with_path fs parent λ parent_path. enter fs (join parent_path name) (answer parent_path name)

  unfoldable pub mkdir :
      {A : Type 0}
      → FuseMt P N
      → ℕ
      → N
      → (P → N → Answer A)
      → Option (Reply (EntryReply A) × FuseMt P N)
  mkdir fs parent name answer =
      with_path fs parent λ parent_path. enter fs (join parent_path name) (answer parent_path name)

  unfoldable pub symlink :
      {A : Type 0}
      → FuseMt P N
      → ℕ
      → N
      → (P → N → Answer A)
      → Option (Reply (EntryReply A) × FuseMt P N)
  symlink fs parent name answer =
      with_path fs parent λ parent_path. enter fs (join parent_path name) (answer parent_path name)

  unfoldable pub create :
      {A : Type 0}
      → FuseMt P N
      → ℕ
      → N
      → (P → N → Answer A)
      → Option (Reply (EntryReply A) × FuseMt P N)
  create fs parent name answer =
      with_path fs parent λ parent_path. enter fs (join parent_path name) (answer parent_path name)

  unfoldable pub link :
      {A : Type 0}
      → FuseMt P N
      → ℕ
      → ℕ
      → N
      → (P → P → N → Answer A)
      → Option (Reply (EntryReply A) × FuseMt P N)
  link fs ino newparent newname answer = with_path fs ino λ path.
      with_path fs newparent λ newparent_path.
        enter fs (join newparent_path newname) (answer path newparent_path newname)

  unfoldable pub unlink :
      FuseMt P N → ℕ → N → (P → N → Answer (Unit {0})) → Option (Reply (Unit {0}) × FuseMt P N)
  unlink fs parent name answer =
      with_path fs parent
        λ parent_path. unlinked fs (join parent_path name) (answer parent_path name)

  unfoldable pub rmdir :
      FuseMt P N → ℕ → N → (P → N → Answer (Unit {0})) → Option (Reply (Unit {0}) × FuseMt P N)
  rmdir fs parent name answer =
      with_path fs parent λ parent_path. passed_on fs (answer parent_path name)

  unfoldable pub rename :
      FuseMt P N
      → ℕ
      → N
      → ℕ
      → N
      → (P → N → P → N → Answer (Unit {0}))
      → Option (Reply (Unit {0}) × FuseMt P N)
  rename fs parent name newparent newname answer = with_path fs parent λ parent_path.
      with_path fs newparent λ newparent_path.
        renamed fs (join parent_path name) (join newparent_path newname)
          (answer parent_path name newparent_path newname)

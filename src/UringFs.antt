-- ===== src/UringFs.antt =====
-- fuse/src/uring_fuse/uring_fs: the inodes by number and by path, the cache of listings, and the
-- handlers of the file system on them. Names and paths are bytes, and `valid` is the test that a
-- `String` is UTF-8. A cast of an offset between `i64`, `usize` and `u64` keeps its 64 bits.
pub mod Index
pub mod Listing
pub mod Tests
use fairy.Prelude.{
  ℕ, zero, suc, ◌+◌, ◌%◌, ◌^◌, Bool, true, false, Option, none, some, List, [], ◌∷◌, ◌++◌, ◌==◌,
  leb, if◌then◌else◌, insert, nat_eq,
}
use fairy.Prelude.BTreeMap.{Bytes, bytes_eq}

pub data FileType : Type 0 where
  named_pipe char_device block_device directory regular_file symlink socket : FileType

-- The times are in seconds after the epoch, which is all that this file system gives.
pub record FileAttr : Type 0 where
  pub ino : ℕ
  pub size : ℕ
  pub blocks : ℕ
  pub atime : ℕ
  pub mtime : ℕ
  pub ctime : ℕ
  pub crtime : ℕ
  pub kind : FileType
  pub perm : ℕ
  pub nlink : ℕ
  pub uid : ℕ
  pub gid : ℕ
  pub rdev : ℕ
  pub blksize : ℕ
  pub flags : ℕ

pub record Inode : Type 0 where
  pub ino : ℕ
  pub parent : ℕ
  pub name : Bytes
  pub full_path : Bytes
  pub kind : FileType

pub record InodeManager : Type 0 where
  pub bucket : Bytes
  pub inodes : ℕ → Option Inode
  pub path_index : Bytes → Option ℕ
  pub next_ino : ℕ

abbrev pub ListStatusCache : Type 0
ListStatusCache = Bytes → Option (List Bytes)

pub record UringFilesystem : Type 0 where
  pub inode_manager : InodeManager
  pub ls_cache : ListStatusCache
  pub next_fh : ℕ

pub data InodeError : Type 0 where
  inode_does_not_exist inode_insert_failure : ℕ → InodeError

-- `Result<Inode, InodeError>`
pub data Found : Type 0 where
  ok : Inode → Found
  err : InodeError → Found

abbrev pub ok_or : Option Inode → InodeError → Found
ok_or none e = err e
ok_or (some inode) e = ok inode

abbrev pub slash : ℕ
slash = 47

abbrev pub fuse_root_id : ℕ
fuse_root_id = 1

abbrev pub enoent : ℕ
enoent = 2

abbrev pub enosys : ℕ
enosys = 38

abbrev pub starts_with_slash : Bytes → Bool
starts_with_slash [] = false
starts_with_slash (b ∷ bs) = b == slash

-- Whether a separator is to be added.
abbrev pub needs_slash : Bytes → Bool
needs_slash [] = false
needs_slash (b ∷ []) = if b == slash then false else true
needs_slash (b ∷ c ∷ bs) = needs_slash (c ∷ bs)

-- `PathBuf::join`
unfoldable pub join : Bytes → Bytes → Bytes
join base name =
    if starts_with_slash name
    then name
    else if needs_slash base
    then base ++ (slash ∷ name)
    else base ++ name

unfoldable pub attr_of : Inode → FileAttr
attr_of inode = record {
  ino = inode.ino;
  size = 0;
  blocks = 0;
  atime = 0;
  mtime = 0;
  ctime = 0;
  crtime = 0;
  kind = inode.kind;
  perm = 0o555;
  nlink = 2;
  uid = 0;
  gid = 0;
  rdev = 0;
  flags = 0;
  blksize = 0;
}

-- The methods of `InodeManager`.
unfoldable pub new_manager : Bytes → InodeManager
new_manager bucket =
    let root : Inode = record {
      ino = fuse_root_id;
      parent = fuse_root_id;
      name = [];
      full_path = slash ∷ [];
      kind = directory;
    } in
    record {
      bucket = bucket;
      inodes = insert (λ _. none) fuse_root_id root;
      path_index = insert (λ _. none) (slash ∷ []) fuse_root_id;
      next_ino = 2;
    }

unfoldable pub get : InodeManager → ℕ → Found
get m ino = ok_or (m.inodes ino) (inode_does_not_exist ino)

abbrev pub and_then : Found → (Inode → Found) → Found
and_then (err e) f = err e
and_then (ok inode) f = f inode

abbrev pub indexed : InodeManager → Option ℕ → ℕ → Found
indexed m none parent = err (inode_does_not_exist parent)
indexed m (some ino) parent = ok_or (m.inodes ino) (inode_does_not_exist ino)

unfoldable pub lookup_inode : InodeManager → ℕ → Bytes → Found
lookup_inode m parent name =
    and_then (ok_or (m.inodes parent) (inode_does_not_exist parent))
      λ inode. indexed m (m.path_index (join inode.full_path name)) parent

unfoldable pub create_inode : InodeManager → ℕ → Bytes → Bytes → FileType → Inode × InodeManager
create_inode m parent name full_path kind =
    let inode : Inode = record {
      ino = m.next_ino;
      parent = parent;
      name = name;
      full_path = full_path;
      kind = kind;
    } in
    (
      inode,
      record m {
        inodes = insert m.inodes m.next_ino inode;
        path_index = insert m.path_index full_path m.next_ino;
        next_ino = (m.next_ino + 1) % 2 ^ 64;
      },
    )

abbrev pub pushed : Option (List Bytes) → Bytes → List Bytes
pushed none file = file ∷ []
pushed (some files) file = files ++ (file ∷ [])

unfoldable pub append : ListStatusCache → Bytes → Bytes → ListStatusCache
append cache path file = insert cache path (pushed (cache path) file)

-- What a handler replies.
pub data Reply (A : Type 0) : Type 0 where
  replied : A → Reply A
  error : ℕ → Reply A
  panic : Reply A

pub record Entry : Type 0 where
  pub ttl : ℕ
  pub attr : FileAttr
  pub generation : ℕ

pub record Created : Type 0 where
  pub entry : Entry
  pub fh : ℕ
  pub flags : ℕ

pub record DirectoryEntry : Type 0 where
  pub ino : ℕ
  pub offset : ℕ
  pub kind : FileType
  pub name : Bytes

unfoldable pub init : InodeManager → ListStatusCache → UringFilesystem
init manager cache = record { inode_manager = manager; ls_cache = cache; next_fh = 1 }

abbrev pub entry_reply : Found → Reply Entry
entry_reply (err e) = error enoent
entry_reply (ok inode) = replied (record { ttl = 100000; attr = attr_of inode; generation = 0 })

abbrev pub attr_reply : Found → Reply (ℕ × FileAttr)
attr_reply (err e) = error enoent
attr_reply (ok inode) = replied (100000, attr_of inode)

-- `unwrap` panics where there is no inode.
abbrev pub set_reply : Found → Reply (ℕ × FileAttr)
set_reply (err e) = panic
set_reply (ok inode) = replied (1000000, attr_of inode)

unfoldable pub lookup : (Bytes → Bool) → UringFilesystem → ℕ → Bytes → Reply Entry
lookup valid fs parent name =
    if valid name then entry_reply (lookup_inode fs.inode_manager parent name) else error enoent

unfoldable pub getattr : UringFilesystem → ℕ → Reply (ℕ × FileAttr)
getattr fs ino = attr_reply (get fs.inode_manager ino)

unfoldable pub setattr : UringFilesystem → ℕ → Reply (ℕ × FileAttr)
setattr fs ino = set_reply (get fs.inode_manager ino)

unfoldable pub write : UringFilesystem → ℕ → Bytes → Reply ℕ
write fs ino data_bytes = error enosys

-- `full` tells whether the reply has no room for an entry after those that it has.
module _ (full : List DirectoryEntry → DirectoryEntry → Bool) where
  abbrev pub add : List DirectoryEntry → DirectoryEntry → List DirectoryEntry
  add entries e = if full entries e then entries else entries ++ (e ∷ [])

  abbrev pub add_found : Found → ℕ → List DirectoryEntry × ℕ → List DirectoryEntry × ℕ
  add_found (err e) offset r = r
  add_found (ok inode) offset r = (
    add r.0 (record { ino = inode.ino; offset = offset; kind = inode.kind; name = inode.name }),
    r.1 + 1,
  )

  -- The entries, each with its index, after those that are skipped; the number of those counted.
  unfoldable pub list_entries :
      InodeManager → ℕ → ℕ → ℕ → ℕ → List Bytes → List DirectoryEntry × ℕ → List DirectoryEntry × ℕ
  list_entries m ino offset i n [] r = r
  list_entries m ino offset i (suc n) (name ∷ names) r = list_entries m ino offset (suc i) n names r
  list_entries m ino offset i zero (name ∷ names) r =
      list_entries m ino offset (suc i) zero names
        (add_found (lookup_inode m ino name) ((i + offset + 2) % 2 ^ 64) r)

  abbrev pub list_cached :
      InodeManager → ℕ → ℕ → Option (List Bytes) → List DirectoryEntry × ℕ → List DirectoryEntry × ℕ
  list_cached m ino offset none r = r
  list_cached m ino offset (some names) r = list_entries m ino offset 0 offset names r

  abbrev pub counted : List DirectoryEntry × ℕ → Reply (List DirectoryEntry)
  counted (entries, zero) = error enoent
  counted (entries, suc n) = replied entries

  abbrev pub first : ℕ → ℕ → List DirectoryEntry × ℕ
  first ino offset =
      if offset == 0
      then (add [] (record { ino = ino; offset = 1; kind = directory; name = 46 ∷ [] }), 1)
      else ([], 0)

  abbrev pub list_found : UringFilesystem → Found → ℕ → ℕ → Reply (List DirectoryEntry)
  list_found fs (err e) ino offset = error enoent
  list_found fs (ok inode) ino offset =
      counted
        (list_cached fs.inode_manager ino offset (fs.ls_cache inode.full_path) (first ino offset))

  unfoldable pub readdir : UringFilesystem → ℕ → ℕ → Reply (List DirectoryEntry)
  readdir fs ino offset = list_found fs (get fs.inode_manager ino) ino offset

module _ (valid : Bytes → Bool) where
  abbrev pub created :
      UringFilesystem → Inode → Bytes → Inode × InodeManager → Reply Created × UringFilesystem
  created fs parent name (inode, manager) = (
    replied (record {
      entry = record { ttl = 1000000; attr = attr_of inode; generation = inode.ino };
      fh = fs.next_fh;
      flags = 0;
    }),
    record {
      inode_manager = manager;
      ls_cache = append fs.ls_cache parent.full_path name;
      next_fh = (fs.next_fh + 1) % 2 ^ 64;
    },
  )

  abbrev pub create_in : UringFilesystem → ℕ → Bytes → Found → Reply Created × UringFilesystem
  create_in fs parent name (err e) = (error enoent, fs)
  create_in fs parent name (ok node) =
      let full_path = join node.full_path name in
      if valid full_path
      then (if valid name
          then created fs node name
              (create_inode fs.inode_manager parent name full_path regular_file)
          else (panic, fs))
      else (panic, fs)

  unfoldable pub create : UringFilesystem → ℕ → Bytes → Reply Created × UringFilesystem
  create fs parent name = create_in fs parent name (get fs.inode_manager parent)

  -- A sequence of calls of `create`, by parent and name.
  unfoldable pub run : UringFilesystem → List (ℕ × Bytes) → UringFilesystem
  run fs [] = fs
  run fs ((parent, name) ∷ calls) = run (create fs parent name).1 calls

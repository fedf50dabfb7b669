-- ===== src/SimpleFs/Creating.antt =====
-- fuse/src/filesystem.rs: the handlers that make inodes and links.
use Prim.Native.Nat.{bit_and, bit_or}
use fairy.Prelude.{
  ℕ, ◌+◌, ◌^◌, Bool, true, false, ◌||◌, none, some, [], ◌∷◌, ltb, ◌==◌, if◌then◌else◌, length,
}
use fairy.Prelude.BTreeMap
use fairy.Prelude.BTreeMap.{Bytes}
use fairy.SimpleFs.{
  Time, FileKind, file, directory, symlink, InodeAttributes, Bincode, Request, Handler, ◌>>=◌, ◌>>◌,
  reply, fail, ensure, assert, when, attempt,
}
use fairy.SimpleFs.Libc.{
  eacces, einval, enosys, w_ok, s_ifmt, s_ifreg, s_iflnk, s_ifdir, s_isuid, s_isgid, fuse_root_id,
  o_accmode, o_rdonly, o_wronly, o_rdwr,
}
use fairy.SimpleFs.Access.{permitted, creation_gid, creation_mode, as_file_kind, complement32, has}
use fairy.SimpleFs.Store.{
  allocate_next_inode, allocate_next_file_handle, get_inode, write_inode, write_content, touched,
  write_directory_content, get_directory_content, add_entry, ensure_missing, insert_link,
  lookup_name,
}

abbrev pub block_size : ℕ
block_size = 512

-- `"."` and `".."`
abbrev pub dot : Bytes
dot = 46 ∷ []

abbrev pub dot_dot : Bytes
dot_dot = 46 ∷ 46 ∷ []

abbrev pub is_directory : FileKind → Bool
is_directory directory = true
is_directory file = false
is_directory symlink = false

-- The parent of a new entry: it must be writable, and its times change.
unfoldable pub touch_parent : (ℕ → Time) → Request → ℕ → Handler InodeAttributes
unfolding get_inode write_inode
touch_parent now req parent = do
  parent_attrs ← get_inode parent
  ensure (permitted parent_attrs req w_ok) eacces
  let new = touched parent_attrs (now 1) (now 0)
  write_inode new
  reply new

-- `mode &= !(S_ISUID | S_ISGID)`, unless the caller is root.
abbrev pub strip_set_ids : Request → ℕ → ℕ
strip_set_ids req mode =
    if req.uid == 0 then mode else bit_and mode (complement32 (s_isuid + s_isgid))

-- An inode that a request makes; the fields that the handlers set differently come first.
abbrev pub new_inode :
    (ℕ → Time) → Request → InodeAttributes → ℕ → FileKind → ℕ → ℕ → ℕ → ℕ → InodeAttributes
new_inode now req parent_attrs inode kind mode size hardlinks open_file_handles = record {
  inode = inode;
  open_file_handles = open_file_handles;
  size = size;
  last_accessed = now 2;
  last_modified = now 3;
  last_metadata_changed = now 4;
  kind = kind;
  mode = mode;
  hardlinks = hardlinks;
  uid = req.uid;
  gid = creation_gid parent_attrs req.gid;
  xattrs = [];
}

abbrev pub suid_supported : Handler Bool
suid_supported s = reply s.suid_support s

-- The access mode of the flags: whether to read, and whether to write.
unfoldable pub access_mode : ℕ → Handler (Bool × Bool)
access_mode flags =
    (let mode = bit_and flags o_accmode in
      if mode == o_rdonly
      then reply (true, false)
      else if mode == o_wronly
      then reply (false, true)
      else if mode == o_rdwr
      then reply (true, true)
      else fail einval)

module _ ⦃bin : Bincode⦄ where
  -- The entries "." and ".." of a new directory.
  abbrev pub write_new_directory : ℕ → ℕ → Handler (Unit {0})
  write_new_directory inode parent =
      write_directory_content inode
        (BTreeMap.insert (BTreeMap.insert [] dot (inode, directory)) dot_dot (parent, directory))

  -- What `mknod` and `create` do once they have checked their arguments.
  unfoldable pub make_file : (ℕ → Time) → Request → ℕ → Bytes → ℕ → ℕ → Handler InodeAttributes
  unfolding touch_parent allocate_next_inode as_file_kind creation_mode write_inode creation_gid
      write_directory_content get_directory_content
  make_file now req parent name mode open_file_handles = do
    parent_attrs ← touch_parent now req parent
    let mode = strip_set_ids req mode
    inode ← allocate_next_inode
    kind ← as_file_kind mode
    suid_support ← suid_supported
    let attrs =
        new_inode now req parent_attrs inode kind (creation_mode suid_support mode) 0 1
          open_file_handles
    write_inode attrs
    write_content inode []
    when (is_directory kind) (write_new_directory inode parent)
    add_entry parent name inode kind
    reply attrs

  unfoldable pub mknod : (ℕ → Time) → Request → ℕ → Bytes → ℕ → Handler InodeAttributes
  unfolding make_file lookup_name
  mknod now req parent name mode = do
    let file_type = bit_and mode s_ifmt
    ensure (file_type == s_ifreg || file_type == s_iflnk || file_type == s_ifdir) enosys
    ensure_missing parent name
    make_file now req parent name mode 0

  unfoldable pub create : (ℕ → Time) → Request → ℕ → Bytes → ℕ → ℕ → Handler (InodeAttributes × ℕ)
  unfolding make_file access_mode lookup_name allocate_next_file_handle
  create now req parent name mode flags = do
    ensure_missing parent name
    rw_mode ← access_mode flags
    attrs ← make_file now req parent name mode 1
    fh ← allocate_next_file_handle rw_mode.0 rw_mode.1
    reply (attrs, fh)

  -- A new directory with its two entries, and the entry that leads to it.
  unfoldable pub link_directory : ℕ → Bytes → InodeAttributes → Handler InodeAttributes
  unfolding write_inode write_directory_content get_directory_content
  link_directory parent name attrs = do
    write_inode attrs
    write_new_directory attrs.inode parent
    add_entry parent name attrs.inode directory
    reply attrs

  unfoldable pub mkdir : (ℕ → Time) → Request → ℕ → Bytes → ℕ → Handler InodeAttributes
  unfolding touch_parent allocate_next_inode creation_mode creation_gid lookup_name link_directory
  mkdir now req parent name mode = do
    ensure_missing parent name
    parent_attrs ← touch_parent now req parent
    let mode = strip_set_ids req mode
    let mode = if has parent_attrs.mode s_isgid then bit_or mode s_isgid else mode
    inode ← allocate_next_inode
    suid_support ← suid_supported
    link_directory parent name (
        new_inode now req parent_attrs inode directory (creation_mode suid_support mode) block_size
          2 0)

  unfoldable pub symlink_to : (ℕ → Time) → Request → ℕ → Bytes → Bytes → Handler InodeAttributes
  unfolding touch_parent allocate_next_inode write_inode creation_gid insert_link
  symlink_to now req parent name link = do
    parent_attrs ← touch_parent now req parent
    inode ← allocate_next_inode
    let attrs = new_inode now req parent_attrs inode symlink 0o777 (length link) 1 0
    insert_link (λ n. now (n + 5)) req parent name inode symlink
    write_inode attrs
    write_content inode link
    reply attrs

  unfoldable pub link : (ℕ → Time) → Request → ℕ → ℕ → Bytes → Handler InodeAttributes
  unfolding get_inode write_inode insert_link
  link now req inode new_parent new_name = do
    attrs ← get_inode inode
    insert_link now req new_parent new_name inode attrs.kind
    assert (ltb (attrs.hardlinks + 1) (2 ^ 32))
    let new = record attrs { hardlinks = attrs.hardlinks + 1; last_metadata_changed = now 2 }
    write_inode new
    reply new

  -- The root directory of an empty file system.
  abbrev pub root_attributes : (ℕ → Time) → InodeAttributes
  root_attributes now = record {
    inode = fuse_root_id;
    open_file_handles = 0;
    size = 0;
    last_accessed = now 0;
    last_modified = now 1;
    last_metadata_changed = now 2;
    kind = directory;
    mode = 0o777;
    hardlinks = 2;
    uid = 0;
    gid = 0;
    xattrs = [];
  }

  unfoldable pub init : (ℕ → Time) → Handler (Unit {0})
  unfolding get_inode write_inode write_directory_content
  init now = do
    found ← attempt (get_inode fuse_root_id)
    elim found [
      | some attrs ↦ reply tt
      | none ↦ (do
        write_inode (root_attributes now)
        write_directory_content fuse_root_id (BTreeMap.insert [] dot (fuse_root_id, directory)))
    ]

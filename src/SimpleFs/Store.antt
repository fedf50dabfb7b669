-- ===== src/SimpleFs/Store.antt =====
-- fuse/src/filesystem.rs: the methods of `SimpleFS` that read and write the data directory. Files
-- that cannot be opened are missing files, and every write of a file succeeds.
use Prim.Native.Nat.{bit_or, ◌*◌}
use fairy.Prelude.{
  ℕ, zero, suc, ◌+◌, ◌%◌, ◌^◌, Bool, true, false, not, ◌&&◌, Option, none, some, [], ◌∷◌, ltb, ◌==◌,
  if◌then◌else◌, insert, erase, nat_eq,
}
use fairy.Prelude.BTreeMap
use fairy.Prelude.BTreeMap.{Bytes}
use fairy.SimpleFs.{
  Time, FileKind, InodeAttributes, DirectoryDescriptor, Bincode, SimpleFs, Request, Outcome, done,
  failed, panic, Handler, ◌>>=◌, ◌>>◌, reply, fail, ensure, unwrap, attempt,
}
use fairy.SimpleFs.Libc.{enoent, eacces, eexist, efbig, w_ok, fuse_root_id}
use fairy.SimpleFs.Access.{permitted, clear_suid_sgid, has}

abbrev pub max_file_size : ℕ
max_file_size = 1024 * 1024 * 1024 * 1024

abbrev pub file_handle_read_bit : ℕ
file_handle_read_bit = 2 ^ 63

abbrev pub file_handle_write_bit : ℕ
file_handle_write_bit = 2 ^ 62

unfoldable pub allocate_next_inode : Handler ℕ
allocate_next_inode s =
    (let current : ℕ = elim s.superblock [ none ↦ fuse_root_id | some c ↦ c ] in
      if ltb (current + 1) (2 ^ 64)
      then done (record s { superblock = some (current + 1) }) (current + 1)
      else panic)

unfoldable pub allocate_next_file_handle : Bool → Bool → Handler ℕ
allocate_next_file_handle read write s =
    if ltb s.next_file_handle file_handle_write_bit
    then (let fh = s.next_file_handle in
        let fh = if read then bit_or fh file_handle_read_bit else fh in
        let fh = if write then bit_or fh file_handle_write_bit else fh in
        done (record s { next_file_handle = (s.next_file_handle + 1) % 2 ^ 64 }) fh)
    else panic

unfoldable pub check_file_handle_read : ℕ → Bool
check_file_handle_read file_handle = has file_handle file_handle_read_bit

unfoldable pub check_file_handle_write : ℕ → Bool
check_file_handle_write file_handle = has file_handle file_handle_write_bit

unfoldable pub get_inode : ℕ → Handler InodeAttributes
get_inode inode s = elim (s.inodes inode) [ none ↦ failed s enoent | some attrs ↦ done s attrs ]

unfoldable pub write_inode : InodeAttributes → Handler (Unit {0})
write_inode attrs s = done (record s { inodes = insert s.inodes attrs.inode attrs }) tt

-- `File::open(self.content_path(inode))`, and a new file in its place.
abbrev pub open_content : ℕ → ℕ → Handler Bytes
open_content error inode s = elim (s.contents inode) [
  | none ↦ failed s error
  | some bytes ↦ done s bytes
]

abbrev pub write_content : ℕ → Bytes → Handler (Unit {0})
write_content inode bytes s = done (record s { contents = insert s.contents inode bytes }) tt

-- Check whether a file should be removed from storage: its files are removed if it is neither
-- linked nor open.
unfoldable pub gc_inode : InodeAttributes → Handler Bool
gc_inode attrs s =
    if attrs.hardlinks == 0 && attrs.open_file_handles == 0
    then elim (s.inodes attrs.inode) [
      | none ↦ panic
      | some old ↦ elim (s.contents attrs.inode) [
        | none ↦ panic
        | some bytes ↦
            done
              (record s {
                inodes = erase s.inodes attrs.inode;
                contents = erase s.contents attrs.inode;
              })
              true
      ]
    ]
    else done s false

-- `File::set_len`
abbrev pub set_len : ℕ → Bytes → Bytes
set_len zero bytes = []
set_len (suc n) [] = 0 ∷ set_len n []
set_len (suc n) (b ∷ bytes) = b ∷ set_len n bytes

-- The attributes after a write or a truncation that read the clock twice.
abbrev pub touched : InodeAttributes → Time → Time → InodeAttributes
touched attrs metadata data_time = record attrs {
  last_metadata_changed = metadata;
  last_modified = data_time;
}

-- `now n` is what call `n` of `time_now` reads, in the order of the text of the handler.
unfoldable pub truncate : (ℕ → Time) → ℕ → ℕ → ℕ → ℕ → Handler InodeAttributes
unfolding get_inode write_inode
truncate now inode new_length uid gid = do
  ensure (not (ltb max_file_size new_length)) efbig
  attrs ← get_inode inode
  ensure (permitted attrs (record { uid = uid; gid = gid; groups = [] }) w_ok) eacces
  bytes ← unwrap (open_content enoent inode)
  write_content inode (set_len new_length bytes)
  let new = clear_suid_sgid (record (touched attrs (now 0) (now 1)) { size = new_length })
  write_inode new
  reply new

module _ ⦃bin : Bincode⦄ where
  -- `bincode::deserialize_from(file).unwrap()`
  abbrev pub deserialized : SimpleFs → Option DirectoryDescriptor → Outcome DirectoryDescriptor
  deserialized s none = panic
  deserialized s (some entries) = done s entries

  unfoldable pub get_directory_content : ℕ → Handler DirectoryDescriptor
  get_directory_content inode = do
    bytes ← open_content enoent inode
    λ s. deserialized s (bin.deserialize bytes)

  unfoldable pub write_directory_content : ℕ → DirectoryDescriptor → Handler (Unit {0})
  write_directory_content inode entries = write_content inode (bin.serialize entries)

  unfoldable pub lookup_name : ℕ → Bytes → Handler InodeAttributes
  unfolding get_inode get_directory_content
  lookup_name parent name = do
    entries ← get_directory_content parent
    elim (BTreeMap.get entries name) [ none ↦ fail enoent | some entry ↦ get_inode entry.0 ]

  -- Replaces or adds one entry of a directory.
  abbrev pub add_entry : ℕ → Bytes → ℕ → FileKind → Handler (Unit {0})
  add_entry parent name inode kind = do
    entries ← unwrap (get_directory_content parent)
    write_directory_content parent (BTreeMap.insert entries name (inode, kind))

  abbrev pub remove_entry : ℕ → Bytes → Handler (Unit {0})
  remove_entry parent name = do
    entries ← unwrap (get_directory_content parent)
    write_directory_content parent (BTreeMap.remove entries name)

  -- `if self.lookup_name(parent, name).is_ok() { return Err(EEXIST) }`
  abbrev pub ensure_missing : ℕ → Bytes → Handler (Unit {0})
  ensure_missing parent name = do
    found ← attempt (lookup_name parent name)
    elim found [ none ↦ reply tt | some attrs ↦ fail eexist ]

  unfoldable pub insert_link : (ℕ → Time) → Request → ℕ → Bytes → ℕ → FileKind → Handler (Unit {0})
  unfolding get_inode write_inode lookup_name get_directory_content write_directory_content
  insert_link now req parent name inode kind = do
    ensure_missing parent name
    parent_attrs ← get_inode parent
    ensure (permitted parent_attrs req w_ok) eacces
    write_inode (touched parent_attrs (now 1) (now 0))
    add_entry parent name inode kind

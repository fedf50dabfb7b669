-- ===== src/SimpleFs/Tests.antt =====
-- fuse/src/filesystem.rs on concrete stores.
use fairy.Prelude.{
  ℕ, ◌+◌, ◌%◌, ◌^◌, ◌≡◌, ◌≢◌, refl, Bool, true, false, not, ◌||◌, none, some, List, [], ◌∷◌, insert,
  nat_eq, arith, length, take, min, if◌then◌else◌, ◌==◌,
}
use fairy.Prelude.BTreeMap.{Bytes, bytes_eq}
use fairy.Prelude.{pos, negsuc}
use fairy.SimpleFs.{
  Time, FileKind, file, directory, InodeAttributes, SimpleFs, Request, Outcome, done, failed, panic,
}
use fairy.SimpleFs.Codec.{codec}
use fairy.SimpleFs.Libc.{eexist, r_ok}
use fairy.SimpleFs.Access.{
  check_access, strike, xattr_access_check, parse_xattr_namespace, namespace_access, creation_gid,
  creation_mode, clear_suid_sgid,
}
use fairy.SimpleFs.Clock.{IsSmall}
use fairy.SimpleFs.Store.{
  allocate_next_inode, allocate_next_file_handle, check_file_handle_read, check_file_handle_write,
  get_inode, write_inode, gc_inode, lookup_name, get_directory_content, write_directory_content,
  truncate,
}
use fairy.SimpleFs.Creating.{root_attributes, dot, mkdir, link_directory, touch_parent}
use fairy.SimpleFs.Removing.{unlink, drop_link}
use fairy.SimpleFs.Data.{
  read, write, open_file, open_inode, open_mode, readdir, add_entries, DirectoryEntry,
}
use fairy.SimpleFs.Attributes.{
  setxattr, getxattr, data_of, setattr, now_time, Changes, set_size_and_times, resize, set_atime,
  set_mtime,
}
use fairy.SimpleFs.Permissions.{bit, check_access_lem, grants, class_bits}
use fairy.SimpleFs.Errors.{call_mkdir, run_call, run_call_undone}
use fairy.SimpleFs.Contents.{read_lem, read-write}
use fairy.SimpleFs.Handles.{IsKeyed, getxattr-setxattr}
use fairy.SimpleFs.Listing.{IsListing, readdir-IsListing}
use fairy.SimpleFs.Entries.{IsBounded, last_inode, entry}
use fairy.SimpleFs.Directories.{IsNewDirectory, mkdir-IsNewDirectory}
use fairy.SimpleFs.Unlinking.{unlink_lem}

abbrev clock : ℕ → Time
clock n = (pos n, 0)

abbrev root : Request
root = record { uid = 0; gid = 0; groups = [] }

abbrev empty : SimpleFs
empty = record {
  inodes = λ i. none;
  contents = λ i. none;
  superblock = none;
  next_file_handle = 1;
  direct_io = false;
  suid_support = false;
}

-- After `init`.
abbrev s0 : SimpleFs
s0 = record empty {
  inodes = insert empty.inodes 1 (root_attributes clock);
  contents = insert empty.contents 1 (codec.serialize ((dot, (1, directory)) ∷ []));
}

abbrev store_of : {A : Type 0} → Outcome A → SimpleFs
store_of (done s a) = s
store_of (failed s e) = s
store_of panic = empty

-- The name "a".
abbrev name : Bytes
name = 97 ∷ []

s0-IsBounded : IsBounded s0
unfolding IsBounded
s0-IsBounded inode attrs h = ground arith

s0-IsKeyed : IsKeyed s0
unfolding IsKeyed
s0-IsKeyed inode attrs h = ground arith

-- The inode that `mkdir` makes first.
abbrev made : InodeAttributes
made = record {
  inode = 2;
  open_file_handles = 0;
  size = 512;
  last_accessed = (pos 2, 0);
  last_modified = (pos 3, 0);
  last_metadata_changed = (pos 4, 0);
  kind = directory;
  mode = 0o755;
  hardlinks = 2;
  uid = 0;
  gid = 0;
  xattrs = [];
}

abbrev s1 : SimpleFs
s1 = store_of (mkdir clock root 1 name 0o755 s0)

mkdir-made : mkdir clock root 1 name 0o755 s0 ≡ done s1 made
unfolding mkdir link_directory touch_parent get_inode write_inode allocate_next_inode creation_mode
    creation_gid lookup_name get_directory_content write_directory_content check_access strike
mkdir-made = refl

mkdir-IsNewDirectory_example : (made.inode ≡ last_inode s0 + 1) × IsNewDirectory 1 name s0 s1 made
mkdir-IsNewDirectory_example =
    mkdir-IsNewDirectory clock root 1 name 0o755 s0 s0-IsBounded mkdir-made

mkdir_again : run_call clock root (call_mkdir 1 name 0o755) s1 ≡ failed s1 eexist
unfolding run_call mkdir link_directory touch_parent get_inode write_inode allocate_next_inode
    creation_mode creation_gid lookup_name get_directory_content write_directory_content
    check_access strike
mkdir_again = refl

run_call_undone_example : s1 ≡ s1
run_call_undone_example = run_call_undone clock root (call_mkdir 1 name 0o755) s1 mkdir_again

s1_lookup : lookup_name 1 name s1 ≡ done s1 made
unfolding mkdir link_directory touch_parent get_inode write_inode allocate_next_inode creation_mode
    creation_gid lookup_name get_directory_content write_directory_content check_access strike
s1_lookup = refl

abbrev s2 : SimpleFs
s2 = store_of (unlink clock root 1 name s1)

s1-unlink : unlink clock root 1 name s1 ≡ done s2 tt
unfolding unlink drop_link gc_inode mkdir link_directory touch_parent get_inode write_inode
    allocate_next_inode creation_mode creation_gid lookup_name get_directory_content
    write_directory_content check_access strike
s1-unlink = refl

unlink_lem_example :
    ((k : Bytes) → entry s2 1 k ≡ (if bytes_eq.beq name k then none else entry s1 1 k))
    × (s2.inodes 2 ≡ some (record made { hardlinks = 1; last_metadata_changed = (pos 2, 0) }))
    × (s2.contents 2 ≡ s1.contents 2)
    × (made.hardlinks ≢ 0)
unlink_lem_example = unlink_lem clock root 1 name s1 s1_lookup (λ q. omega arith) s1-unlink

-- A file with the bytes 7, 8 and 9, which may be read and written.
abbrev note : InodeAttributes
note = record made { kind = file; mode = 0o644; size = 3; hardlinks = 1 }

abbrev s3 : SimpleFs
s3 = record s0 {
  inodes = insert s0.inodes 2 note;
  contents = insert s0.contents 2 (7 ∷ 8 ∷ 9 ∷ []);
}

s3-IsKeyed : IsKeyed s3
unfolding IsKeyed
s3-IsKeyed inode attrs h = ground arith

-- A handle with both bits.
abbrev both : ℕ
both = 2 ^ 63 + 2 ^ 62 + 1

both_read : check_file_handle_read both ≡ true
unfolding check_file_handle_read
both_read = refl

abbrev s4 : SimpleFs
s4 = store_of (write clock 2 both (pos 2) (5 ∷ 6 ∷ []) s3)

s3-write : write clock 2 both (pos 2) (5 ∷ 6 ∷ []) s3 ≡ done s4 2
unfolding write check_file_handle_write get_inode write_inode clear_suid_sgid
s3-write = refl

read-write_example : (◌≡◌ {A = ℕ} 2 2) × (read 2 both (pos 2) 2 s4 ≡ done s4 (5 ∷ 6 ∷ []))
read-write_example =
    read-write clock 2 both both 2 (5 ∷ 6 ∷ []) s3 (omega arith) refl (omega arith) s3-write
      both_read

read_lem_example :
    (read 2 both (pos 1) 10 s3 ≡ done s3 (take (min 10 (2 % 2 ^ 32)) (8 ∷ 9 ∷ [])))
    × (length {A = ℕ} (take (min 10 (2 % 2 ^ 32)) (8 ∷ 9 ∷ [])) ≡ min 10 (2 % 2 ^ 32))
read_lem_example = read_lem 2 both 1 10 s3 both_read refl

abbrev s5 : SimpleFs
s5 = store_of (open_file root 2 2 s3)

s3_open : open_file root 2 2 s3 ≡ done s5 (2 ^ 63 + 2 ^ 62 + 1, 0)
unfolding open_file open_inode open_mode get_inode write_inode allocate_next_file_handle
    check_access strike
s3_open = refl

-- "user.a"
abbrev key : Bytes
key = 117 ∷ 115 ∷ 101 ∷ 114 ∷ 46 ∷ 97 ∷ []

abbrev s6 : SimpleFs
s6 = store_of (setxattr (clock 9) root 2 key (1 ∷ 2 ∷ []) s3)

s3-setxattr : setxattr (clock 9) root 2 key (1 ∷ 2 ∷ []) s3 ≡ done s6 tt
unfolding setxattr xattr_access_check parse_xattr_namespace namespace_access get_inode write_inode
    check_access strike
s3-setxattr = refl

s3_may_read : xattr_access_check key r_ok note root s3 ≡ done s3 tt
unfolding xattr_access_check parse_xattr_namespace namespace_access check_access strike
s3_may_read = refl

getxattr-setxattr_example : getxattr root 2 key 100 s6 ≡ done s6 (data_of (1 ∷ 2 ∷ []))
getxattr-setxattr_example =
    getxattr-setxattr (clock 9) root 2 100 key (1 ∷ 2 ∷ []) s3 s3-IsKeyed refl s3-setxattr
      s3_may_read (λ q. omega arith) (omega arith)

abbrev takes_all : List DirectoryEntry → DirectoryEntry → Bool
takes_all added e = false

abbrev listing : List DirectoryEntry
listing = record { inode = 2; offset = 2; kind = directory; name = name } ∷ []

s1-readdir : readdir takes_all 1 (pos 1) s1 ≡ done s1 listing
unfolding readdir add_entries mkdir link_directory touch_parent get_inode write_inode
    allocate_next_inode creation_mode creation_gid lookup_name get_directory_content
    write_directory_content check_access strike
s1-readdir = refl

readdir-IsListing_example :
    (all : List (Bytes × (ℕ × FileKind))) × (get_directory_content 1 s1 ≡ done s1 all)
    × (s1 ≡ s1)
    × IsListing all 1 listing
readdir-IsListing_example = readdir-IsListing takes_all 1 1 s1 s1-readdir

abbrev changes : Changes
changes = record {
  mode = none;
  uid = none;
  gid = none;
  size = some 1;
  atime = none;
  mtime = some now_time;
  fh = some both;
}

abbrev s7 : SimpleFs
s7 = store_of (setattr clock root 2 changes s3)

-- Three bytes, though the file was cut down to one.
s3-setattr :
    setattr clock root 2 changes s3
    ≡ done s7 (record note { last_modified = (pos 2, 0); last_metadata_changed = (pos 2, 0) })
unfolding setattr set_size_and_times resize set_atime set_mtime truncate check_file_handle_write
    get_inode write_inode clear_suid_sgid check_access strike
s3-setattr = refl

-- A member of the group may read this file, but not write it.
check_access_lem_example : check_access 1000 100 0o640 1001 100 4 ≡ (
    if 4 == 0
    then true
    else if 1001 == 0
    then not (bit 4 0) || bit 0o640 0 || bit 0o640 3 || bit 0o640 6
    else grants (class_bits 1000 100 0o640 1001 100) 4)
check_access_lem_example = check_access_lem 1000 100 0o640 1001 100 4 (omega arith)

s0_handle :
    allocate_next_file_handle true false s0 ≡ done (record s0 { next_file_handle = 2 }) (2 ^ 63 + 1)
unfolding allocate_next_file_handle
s0_handle = refl

IsSmall-time : IsSmall (negsuc 4)
unfolding IsSmall
IsSmall-time = omega arith

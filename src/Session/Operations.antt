-- ===== src/Session/Operations.antt =====
-- fuse/src/uring_fuse/low_level/operation.rs: the operations that the kernel asks for, each with what the
-- session reads of its arguments; and, from filesystem.rs beside it, the methods that a file system has
-- for them. A signed number stands for its bits.
use fairy.Prelude.{ℕ, Bool, true, false, Option, List}
use fairy.Prelude.BTreeMap.{Bytes}

-- A time as the kernel sends it, in seconds and nanoseconds; it is not turned into a `SystemTime` here.
pub data TimeOrNow : Type 0 where
  specific_time : ℕ → ℕ → TimeOrNow
  now : TimeOrNow

-- What SETATTR may change.
pub record Attributes : Type 0 where
  pub mode : Option ℕ
  pub uid : Option ℕ
  pub gid : Option ℕ
  pub size : Option ℕ
  pub atime : Option TimeOrNow
  pub mtime : Option TimeOrNow
  pub ctime : Option (ℕ × ℕ)
  pub fh : Option ℕ
  pub crtime : Option ℕ
  pub chgtime : Option ℕ
  pub bkuptime : Option ℕ
  pub flags : Option ℕ

-- A lock on a range, with the handle and its owner.
pub record Lock : Type 0 where
  pub fh : ℕ
  pub lock_owner : ℕ
  pub start : ℕ
  pub end : ℕ
  pub typ : ℕ
  pub pid : ℕ

-- One end of a copy: the inode, the handle and the offset.
pub record CopyEnd : Type 0 where
  pub inode : ℕ
  pub fh : ℕ
  pub offset : ℕ

-- The fields stand in the order in which the session reads them. IOCTL has the size of its input, and
-- the bytes that came, of which the input is the front.
pub data Operation : Type 0 where
  init : ℕ → ℕ → ℕ → ℕ → Operation
  destroy interrupt poll notify_reply cuse_init : Operation
  lookup unlink rmdir removexattr : Bytes → Operation
  forget : ℕ → Operation
  batch_forget : List (ℕ × ℕ) → Operation
  getattr readlink statfs : Operation
  setattr : Attributes → Operation
  mknod : Bytes → ℕ → ℕ → ℕ → Operation
  mkdir : Bytes → ℕ → ℕ → Operation
  symlink : Bytes → Bytes → Operation
  rename : Bytes → ℕ → Bytes → Operation
  rename2 : ℕ → Bytes → ℕ → Bytes → ℕ → Operation
  link : ℕ → Bytes → Operation
  open_file opendir : ℕ → Operation
  read : ℕ → ℕ → ℕ → ℕ → Option ℕ → Operation
  write : ℕ → ℕ → Bytes → ℕ → ℕ → Option ℕ → Operation
  flush : ℕ → ℕ → Operation
  release : ℕ → ℕ → Option ℕ → Bool → Operation
  fsync fsyncdir : ℕ → Bool → Operation
  readdir readdirplus : ℕ → ℕ → ℕ → Operation
  releasedir : ℕ → ℕ → Operation
  setxattr : Bytes → Bytes → ℕ → ℕ → Operation
  getxattr : Bytes → ℕ → Operation
  listxattr access : ℕ → Operation
  create : Bytes → ℕ → ℕ → ℕ → Operation
  getlk setlk setlkw : Lock → Operation
  bmap : ℕ → ℕ → Operation
  ioctl : Bool → ℕ → ℕ → ℕ → ℕ → Bytes → ℕ → Operation
  fallocate : ℕ → ℕ → ℕ → ℕ → Operation
  lseek : ℕ → ℕ → ℕ → Operation
  copy_file_range : CopyEnd → CopyEnd → ℕ → ℕ → Operation

-- The methods that are given a reply, each with its arguments.
pub data Call : Type 0 where
  lookup unlink rmdir removexattr : ℕ → Bytes → Call
  getattr readlink statfs : ℕ → Call
  setattr : ℕ → Attributes → Call
  mknod : ℕ → Bytes → ℕ → ℕ → ℕ → Call
  mkdir : ℕ → Bytes → ℕ → ℕ → Call
  symlink : ℕ → Bytes → Bytes → Call
  rename : ℕ → Bytes → ℕ → Bytes → ℕ → Call
  link : ℕ → ℕ → Bytes → Call
  open_file opendir : ℕ → ℕ → Call
  read : ℕ → ℕ → ℕ → ℕ → ℕ → Option ℕ → Call
  write : ℕ → ℕ → ℕ → Bytes → ℕ → ℕ → Option ℕ → Call
  flush : ℕ → ℕ → ℕ → Call
  release : ℕ → ℕ → ℕ → Option ℕ → Bool → Call
  fsync fsyncdir : ℕ → ℕ → Bool → Call
  readdir readdirplus : ℕ → ℕ → ℕ → ℕ → Call
  releasedir : ℕ → ℕ → ℕ → Call
  setxattr : ℕ → Bytes → Bytes → ℕ → ℕ → Call
  getxattr : ℕ → Bytes → ℕ → Call
  listxattr access : ℕ → ℕ → Call
  create : ℕ → Bytes → ℕ → ℕ → ℕ → Call
  getlk : ℕ → Lock → Call
  setlk : ℕ → Lock → Bool → Call
  bmap : ℕ → ℕ → ℕ → Call
  ioctl : ℕ → ℕ → ℕ → ℕ → Bytes → ℕ → Call
  fallocate : ℕ → ℕ → ℕ → ℕ → ℕ → Call
  lseek : ℕ → ℕ → ℕ → ℕ → Call
  copy_file_range : CopyEnd → CopyEnd → ℕ → ℕ → Call

-- What the kernel may ask for without a user.
unfoldable pub without_uid : Operation → Bool
without_uid (Operation.init major minor capabilities max_readahead) = true
without_uid Operation.destroy = true
without_uid (Operation.read fh offset size flags lock_owner) = true
without_uid (Operation.readdir fh offset size) = true
without_uid (Operation.readdirplus fh offset size) = true
without_uid (Operation.batch_forget nodes) = true
without_uid (Operation.forget nlookup) = true
without_uid (Operation.write fh offset bytes write_flags flags lock_owner) = true
without_uid (Operation.fsync fh datasync) = true
without_uid (Operation.fsyncdir fh datasync) = true
without_uid (Operation.release fh flags lock_owner flushes) = true
without_uid (Operation.releasedir fh flags) = true
without_uid op = false

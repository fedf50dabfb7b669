-- ===== src/Wire/Parsing.antt =====
-- fuse/src/uring_fuse/low_level: the operations of a request. kernel_interface.rs has the opcodes, op.rs
-- the arguments of each operation, as structures and byte strings, and the function that parses them.
use fairy.Prelude.{ℕ, Option, none, some, List, [], ◌∷◌, ◌==◌, if◌then◌else◌, length}
use fairy.Prelude.BTreeMap.{Bytes}
use fairy.Wire.{
  Crates, Fields, Fetched, panicked, fetched, ◌>>=◌, ArgumentIterator, fetch, fetch_slice,
  fetch_str,
}
use fairy.Wire.Layouts.{
  fuse_access_in, fuse_batch_forget_in, fuse_bmap_in, fuse_copy_file_range_in, fuse_create_in,
  fuse_fallocate_in, fuse_flush_in, fuse_forget_in, fuse_fsync_in, fuse_getxattr_in, fuse_init_in,
  fuse_interrupt_in, fuse_ioctl_in, fuse_link_in, fuse_lk_in, fuse_lseek_in, fuse_mkdir_in,
  fuse_mknod_in, fuse_open_in, fuse_poll_in, fuse_read_in, fuse_release_in, fuse_rename2_in,
  fuse_rename_in, fuse_setattr_in, fuse_setxattr_in, fuse_write_in, fuse_forget_one,
}

pub data FuseOpcode : Type 0 where
  fuse_lookup fuse_forget fuse_getattr fuse_setattr fuse_readlink fuse_symlink fuse_mknod fuse_mkdir
        fuse_unlink fuse_rmdir fuse_rename fuse_link fuse_open fuse_read fuse_write fuse_statfs
        fuse_release fuse_fsync fuse_setxattr fuse_getxattr fuse_listxattr fuse_removexattr
        fuse_flush fuse_init fuse_opendir fuse_readdir fuse_releasedir fuse_fsyncdir fuse_getlk
        fuse_setlk fuse_setlkw fuse_access fuse_create fuse_interrupt fuse_bmap fuse_destroy
        fuse_ioctl fuse_poll fuse_notify_reply fuse_batch_forget fuse_fallocate fuse_readdirplus
        fuse_rename2 fuse_lseek fuse_copy_file_range cuse_init :
      FuseOpcode

abbrev pub table : List (ℕ × FuseOpcode)
table =
    (1, fuse_lookup)
    ∷ (2, fuse_forget)
    ∷ (3, fuse_getattr)
    ∷ (4, fuse_setattr)
    ∷ (5, fuse_readlink)
    ∷ (6, fuse_symlink)
    ∷ (8, fuse_mknod)
    ∷ (9, fuse_mkdir)
    ∷ (10, fuse_unlink)
    ∷ (11, fuse_rmdir)
    ∷ (12, fuse_rename)
    ∷ (13, fuse_link)
    ∷ (14, fuse_open)
    ∷ (15, fuse_read)
    ∷ (16, fuse_write)
    ∷ (17, fuse_statfs)
    ∷ (18, fuse_release)
    ∷ (20, fuse_fsync)
    ∷ (21, fuse_setxattr)
    ∷ (22, fuse_getxattr)
    ∷ (23, fuse_listxattr)
    ∷ (24, fuse_removexattr)
    ∷ (25, fuse_flush)
    ∷ (26, fuse_init)
    ∷ (27, fuse_opendir)
    ∷ (28, fuse_readdir)
    ∷ (29, fuse_releasedir)
    ∷ (30, fuse_fsyncdir)
    ∷ (31, fuse_getlk)
    ∷ (32, fuse_setlk)
    ∷ (33, fuse_setlkw)
    ∷ (34, fuse_access)
    ∷ (35, fuse_create)
    ∷ (36, fuse_interrupt)
    ∷ (37, fuse_bmap)
    ∷ (38, fuse_destroy)
    ∷ (39, fuse_ioctl)
    ∷ (40, fuse_poll)
    ∷ (41, fuse_notify_reply)
    ∷ (42, fuse_batch_forget)
    ∷ (43, fuse_fallocate)
    ∷ (44, fuse_readdirplus)
    ∷ (45, fuse_rename2)
    ∷ (46, fuse_lseek)
    ∷ (47, fuse_copy_file_range)
    ∷ (4096, cuse_init)
    ∷ []

abbrev pub found : ℕ → List (ℕ × FuseOpcode) → Option FuseOpcode
found n [] = none
found n (entry ∷ rest) = if n == entry.0 then some entry.1 else found n rest

unfoldable pub try_from : ℕ → Option FuseOpcode
try_from n = found n table

-- An operation with its arguments, but for the header. What is not read of them is kept too.
pub data Parsed : Type 0 where
  lookup : Bytes → Parsed
  forget : Fields fuse_forget_in → Parsed
  getattr : Parsed
  setattr : Fields fuse_setattr_in → Parsed
  readlink : Parsed
  symlink : Bytes → Bytes → Parsed
  mknod : Fields fuse_mknod_in → Bytes → Parsed
  mkdir : Fields fuse_mkdir_in → Bytes → Parsed
  unlink : Bytes → Parsed
  rmdir : Bytes → Parsed
  rename : Fields fuse_rename_in → Bytes → Bytes → Parsed
  link : Fields fuse_link_in → Bytes → Parsed
  open_file : Fields fuse_open_in → Parsed
  read : Fields fuse_read_in → Parsed
  write : Fields fuse_write_in → Bytes → Parsed
  statfs : Parsed
  release : Fields fuse_release_in → Parsed
  fsync : Fields fuse_fsync_in → Parsed
  setxattr : Fields fuse_setxattr_in → Bytes → Bytes → Parsed
  getxattr : Fields fuse_getxattr_in → Bytes → Parsed
  listxattr : Fields fuse_getxattr_in → Parsed
  removexattr : Bytes → Parsed
  flush : Fields fuse_flush_in → Parsed
  init : Fields fuse_init_in → Parsed
  opendir : Fields fuse_open_in → Parsed
  readdir : Fields fuse_read_in → Parsed
  releasedir : Fields fuse_release_in → Parsed
  fsyncdir : Fields fuse_fsync_in → Parsed
  getlk : Fields fuse_lk_in → Parsed
  setlk : Fields fuse_lk_in → Parsed
  setlkw : Fields fuse_lk_in → Parsed
  access : Fields fuse_access_in → Parsed
  create : Fields fuse_create_in → Bytes → Parsed
  interrupt : Fields fuse_interrupt_in → Parsed
  bmap : Fields fuse_bmap_in → Parsed
  destroy : Parsed
  ioctl : Fields fuse_ioctl_in → Bytes → Parsed
  poll : Fields fuse_poll_in → Parsed
  notify_reply : Bytes → Parsed
  batch_forget : Fields fuse_batch_forget_in → List (Fields fuse_forget_one) → Parsed
  fallocate : Fields fuse_fallocate_in → Parsed
  readdirplus : Fields fuse_read_in → Parsed
  rename2 : Fields fuse_rename2_in → Bytes → Bytes → Parsed
  lseek : Fields fuse_lseek_in → Parsed
  copy_file_range : Fields fuse_copy_file_range_in → Parsed
  cuse_init : Fields fuse_init_in → Parsed

-- `assert!` of two lengths, before the operation is returned.
abbrev pub asserted : ℕ → ℕ → Parsed → Fetched Parsed
asserted len size p = if len == size then fetched p else panicked

-- `fetch_all` takes what is left.
unfoldable pub parse : ⦃crates : Crates⦄ → FuseOpcode → ArgumentIterator → Fetched Parsed
unfolding fetch fetch_str fetch_slice
parse fuse_lookup it = do name ← fetch_str it; fetched (Parsed.lookup name.0)
parse fuse_forget it = do arg ← fetch fuse_forget_in it; fetched (Parsed.forget arg.0)
parse fuse_getattr it = fetched Parsed.getattr
parse fuse_setattr it = do arg ← fetch fuse_setattr_in it; fetched (Parsed.setattr arg.0)
parse fuse_readlink it = fetched Parsed.readlink
parse fuse_symlink it = do
  target ← fetch_str it
  path ← fetch_str target.1
  fetched (Parsed.symlink target.0 path.0)
parse fuse_mknod it = do
  arg ← fetch fuse_mknod_in it
  name ← fetch_str arg.1
  fetched (Parsed.mknod arg.0 name.0)
parse fuse_mkdir it = do
  arg ← fetch fuse_mkdir_in it
  name ← fetch_str arg.1
  fetched (Parsed.mkdir arg.0 name.0)
parse fuse_unlink it = do name ← fetch_str it; fetched (Parsed.unlink name.0)
parse fuse_rmdir it = do name ← fetch_str it; fetched (Parsed.rmdir name.0)
parse fuse_rename it = do
  arg ← fetch fuse_rename_in it
  name ← fetch_str arg.1
  newname ← fetch_str name.1
  fetched (Parsed.rename arg.0 name.0 newname.0)
parse fuse_link it = do
  arg ← fetch fuse_link_in it
  name ← fetch_str arg.1
  fetched (Parsed.link arg.0 name.0)
parse fuse_open it = do arg ← fetch fuse_open_in it; fetched (Parsed.open_file arg.0)
parse fuse_read it = do arg ← fetch fuse_read_in it; fetched (Parsed.read arg.0)
parse fuse_write it = do
  arg ← fetch fuse_write_in it
  asserted (length arg.1.left) arg.0.1.1.0 (Parsed.write arg.0 arg.1.left)
parse fuse_statfs it = fetched Parsed.statfs
parse fuse_release it = do arg ← fetch fuse_release_in it; fetched (Parsed.release arg.0)
parse fuse_fsync it = do arg ← fetch fuse_fsync_in it; fetched (Parsed.fsync arg.0)
parse fuse_setxattr it = do
  arg ← fetch fuse_setxattr_in it
  name ← fetch_str arg.1
  asserted (length name.1.left) arg.0.0 (Parsed.setxattr arg.0 name.0 name.1.left)
parse fuse_getxattr it = do
  arg ← fetch fuse_getxattr_in it
  name ← fetch_str arg.1
  fetched (Parsed.getxattr arg.0 name.0)
parse fuse_listxattr it = do arg ← fetch fuse_getxattr_in it; fetched (Parsed.listxattr arg.0)
parse fuse_removexattr it = do name ← fetch_str it; fetched (Parsed.removexattr name.0)
parse fuse_flush it = do arg ← fetch fuse_flush_in it; fetched (Parsed.flush arg.0)
parse fuse_init it = do arg ← fetch fuse_init_in it; fetched (Parsed.init arg.0)
parse fuse_opendir it = do arg ← fetch fuse_open_in it; fetched (Parsed.opendir arg.0)
parse fuse_readdir it = do arg ← fetch fuse_read_in it; fetched (Parsed.readdir arg.0)
parse fuse_releasedir it = do arg ← fetch fuse_release_in it; fetched (Parsed.releasedir arg.0)
parse fuse_fsyncdir it = do arg ← fetch fuse_fsync_in it; fetched (Parsed.fsyncdir arg.0)
parse fuse_getlk it = do arg ← fetch fuse_lk_in it; fetched (Parsed.getlk arg.0)
parse fuse_setlk it = do arg ← fetch fuse_lk_in it; fetched (Parsed.setlk arg.0)
parse fuse_setlkw it = do arg ← fetch fuse_lk_in it; fetched (Parsed.setlkw arg.0)
parse fuse_access it = do arg ← fetch fuse_access_in it; fetched (Parsed.access arg.0)
parse fuse_create it = do
  arg ← fetch fuse_create_in it
  name ← fetch_str arg.1
  fetched (Parsed.create arg.0 name.0)
parse fuse_interrupt it = do arg ← fetch fuse_interrupt_in it; fetched (Parsed.interrupt arg.0)
parse fuse_bmap it = do arg ← fetch fuse_bmap_in it; fetched (Parsed.bmap arg.0)
parse fuse_destroy it = fetched Parsed.destroy
parse fuse_ioctl it = do arg ← fetch fuse_ioctl_in it; fetched (Parsed.ioctl arg.0 arg.1.left)
parse fuse_poll it = do arg ← fetch fuse_poll_in it; fetched (Parsed.poll arg.0)
parse fuse_notify_reply it = fetched (Parsed.notify_reply it.left)
parse fuse_batch_forget it = do
  arg ← fetch fuse_batch_forget_in it
  nodes ← fetch_slice fuse_forget_one arg.0.0 arg.1
  fetched (Parsed.batch_forget arg.0 nodes.0)
parse fuse_fallocate it = do arg ← fetch fuse_fallocate_in it; fetched (Parsed.fallocate arg.0)
parse fuse_readdirplus it = do arg ← fetch fuse_read_in it; fetched (Parsed.readdirplus arg.0)
parse fuse_rename2 it = do
  arg ← fetch fuse_rename2_in it
  name ← fetch_str arg.1
  newname ← fetch_str name.1
  fetched (Parsed.rename2 arg.0 name.0 newname.0)
parse fuse_lseek it = do arg ← fetch fuse_lseek_in it; fetched (Parsed.lseek arg.0)
parse fuse_copy_file_range it = do
  arg ← fetch fuse_copy_file_range_in it
  fetched (Parsed.copy_file_range arg.0)
parse cuse_init it = do arg ← fetch fuse_init_in it; fetched (Parsed.cuse_init arg.0)

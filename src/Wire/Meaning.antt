-- ===== src/Wire/Meaning.antt =====
-- fuse/src/uring_fuse/low_level/op.rs: what the methods of each operation give the session, of its header
-- and its arguments. lock.rs has the lock.
use Prim.Native.Nat.{bit_and}
use fairy.Prelude.{ℕ, Bool, not, Option, none, some, List, map, ◌==◌, if◌then◌else◌}
use fairy.Prelude.BTreeMap.{Bytes}
use fairy.Session.Operations.{Operation, Attributes, TimeOrNow, specific_time, now, Lock}
use fairy.Wire.{Fields}
use fairy.Wire.Layouts.{
  fuse_access_in, fuse_bmap_in, fuse_copy_file_range_in, fuse_create_in, fuse_fallocate_in,
  fuse_flush_in, fuse_forget_in, fuse_fsync_in, fuse_getxattr_in, fuse_init_in, fuse_ioctl_in,
  fuse_link_in, fuse_lseek_in, fuse_mkdir_in, fuse_mknod_in, fuse_open_in, fuse_read_in,
  fuse_release_in, fuse_rename2_in, fuse_rename_in, fuse_setxattr_in, fuse_write_in,
  fuse_forget_one, fuse_setattr_in, fuse_lk_in, fattr_mode, fattr_uid, fattr_gid, fattr_size,
  fattr_atime, fattr_mtime, fattr_fh, fattr_atime_now, fattr_mtime_now, fattr_ctime,
  fuse_release_flush, fuse_release_flock_unlock, fuse_write_lockowner, fuse_read_lockowner,
  fuse_ioctl_unrestricted, fuse_fsync_fdatasync,
}
use fairy.Wire.Parsing.{Parsed}

abbrev pub has : ℕ → ℕ → Bool
has flags flag = not (bit_and flags flag == 0)

abbrev pub given {ℓ} : {A : Type ℓ} → Bool → A → Option A
given b a = if b then some a else none

-- The times are read where the request is dispatched.
abbrev pub chosen : Bool → ℕ → ℕ → TimeOrNow
chosen is_now secs nsecs = if is_now then now else specific_time secs nsecs

unfoldable pub changes : Fields fuse_setattr_in → Attributes
changes (valid, (padding, (fh, (size, (lock_owner, (atime, (mtime, (ctime, rest)))))))) =
    let (atimensec, (mtimensec, (ctimensec, (mode, (unused4, (uid, (gid, (unused5, end)))))))) =
      rest in
    record {
      mode = given (has valid fattr_mode) mode;
      uid = given (has valid fattr_uid) uid;
      gid = given (has valid fattr_gid) gid;
      size = given (has valid fattr_size) size;
      atime = given (has valid fattr_atime) (chosen (has valid fattr_atime_now) atime atimensec);
      mtime = given (has valid fattr_mtime) (chosen (has valid fattr_mtime_now) mtime mtimensec);
      ctime = given (has valid fattr_ctime) (ctime, ctimensec);
      fh = given (has valid fattr_fh) fh;
      crtime = none;
      chgtime = none;
      bkuptime = none;
      flags = none;
    }

unfoldable pub lock : Fields fuse_lk_in → Lock
lock (fh, (owner, (start, (end, (typ, (pid, (lk_flags, (padding, nil)))))))) = record {
  fh = fh;
  lock_owner = owner;
  start = start;
  end = end;
  typ = typ;
  pid = pid;
}

abbrev forget_of : Fields fuse_forget_in → Operation
forget_of (nlookup, end) = Operation.forget nlookup

abbrev mknod_of : Fields fuse_mknod_in → Bytes → Operation
mknod_of (mode, (rdev, (umask, (padding, end)))) name = Operation.mknod name mode umask rdev

abbrev mkdir_of : Fields fuse_mkdir_in → Bytes → Operation
mkdir_of (mode, (umask, end)) name = Operation.mkdir name mode umask

abbrev rename_of : Fields fuse_rename_in → Bytes → Bytes → Operation
rename_of (newdir, end) name newname = Operation.rename name newdir newname

abbrev link_of : Fields fuse_link_in → Bytes → Operation
link_of (oldnodeid, end) name = Operation.link oldnodeid name

abbrev open_file_of : Fields fuse_open_in → Operation
open_file_of (flags, (unused, end)) = Operation.open_file flags

abbrev read_of : Fields fuse_read_in → Operation
read_of (fh, (offset, (size, (read_flags, (lock_owner, (flags, (padding, end))))))) =
    Operation.read fh offset size flags (given (has read_flags fuse_read_lockowner) lock_owner)

abbrev write_of : Fields fuse_write_in → Bytes → Operation
write_of (fh, (offset, (size, (write_flags, (lock_owner, (flags, (padding, end))))))) value =
    Operation.write fh offset value write_flags flags
      (given (has write_flags fuse_write_lockowner) lock_owner)

abbrev release_of : Fields fuse_release_in → Operation
release_of (fh, (flags, (release_flags, (lock_owner, end)))) =
    Operation.release fh flags (given (has release_flags fuse_release_flock_unlock) lock_owner)
      (has release_flags fuse_release_flush)

abbrev fsync_of : Fields fuse_fsync_in → Operation
fsync_of (fh, (fsync_flags, (padding, end))) =
    Operation.fsync fh (has fsync_flags fuse_fsync_fdatasync)

abbrev setxattr_of : Fields fuse_setxattr_in → Bytes → Bytes → Operation
setxattr_of (size, (flags, end)) name value = Operation.setxattr name value flags 0

abbrev getxattr_of : Fields fuse_getxattr_in → Bytes → Operation
getxattr_of (size, (padding, end)) name = Operation.getxattr name size

abbrev listxattr_of : Fields fuse_getxattr_in → Operation
listxattr_of (size, (padding, end)) = Operation.listxattr size

abbrev flush_of : Fields fuse_flush_in → Operation
flush_of (fh, (unused, (padding, (lock_owner, end)))) = Operation.flush fh lock_owner

abbrev init_of : Fields fuse_init_in → Operation
init_of (major, (minor, (max_readahead, (flags, end)))) =
    Operation.init major minor flags max_readahead

abbrev opendir_of : Fields fuse_open_in → Operation
opendir_of (flags, (unused, end)) = Operation.opendir flags

abbrev readdir_of : Fields fuse_read_in → Operation
readdir_of (fh, (offset, (size, (read_flags, (lock_owner, (flags, (padding, end))))))) =
    Operation.readdir fh offset size

abbrev releasedir_of : Fields fuse_release_in → Operation
releasedir_of (fh, (flags, (release_flags, (lock_owner, end)))) = Operation.releasedir fh flags

abbrev fsyncdir_of : Fields fuse_fsync_in → Operation
fsyncdir_of (fh, (fsync_flags, (padding, end))) =
    Operation.fsyncdir fh (has fsync_flags fuse_fsync_fdatasync)

abbrev access_of : Fields fuse_access_in → Operation
access_of (mask, (padding, end)) = Operation.access mask

abbrev create_of : Fields fuse_create_in → Bytes → Operation
create_of (flags, (mode, (umask, (padding, end)))) name = Operation.create name mode umask flags

abbrev bmap_of : Fields fuse_bmap_in → Operation
bmap_of (block, (blocksize, (padding, end))) = Operation.bmap blocksize block

abbrev ioctl_of : Fields fuse_ioctl_in → Bytes → Operation
ioctl_of (fh, (flags, (cmd, (arg, (in_size, (out_size, end)))))) bytes =
    Operation.ioctl (has flags fuse_ioctl_unrestricted) fh flags cmd in_size bytes out_size

abbrev fallocate_of : Fields fuse_fallocate_in → Operation
fallocate_of (fh, (offset, (len, (mode, (padding, end))))) = Operation.fallocate fh offset len mode

abbrev readdirplus_of : Fields fuse_read_in → Operation
readdirplus_of (fh, (offset, (size, (read_flags, (lock_owner, (flags, (padding, end))))))) =
    Operation.readdirplus fh offset size

abbrev rename2_of : ℕ → Fields fuse_rename2_in → Bytes → Bytes → Operation
rename2_of node (newdir, (flags, (padding, end))) name newname =
    Operation.rename2 node name newdir newname flags

abbrev lseek_of : Fields fuse_lseek_in → Operation
lseek_of (fh, (offset, (whence, (padding, end)))) = Operation.lseek fh offset whence

abbrev copy_file_range_of : ℕ → Fields fuse_copy_file_range_in → Operation
copy_file_range_of node (fh_in, (off_in, (nodeid_out, (fh_out, (off_out, (len, (flags, end))))))) =
    Operation.copy_file_range (record { inode = node; fh = fh_in; offset = off_in })
      (record { inode = nodeid_out; fh = fh_out; offset = off_out }) len flags

abbrev batch_forget_of : List (Fields fuse_forget_one) → Operation
batch_forget_of nodes = Operation.batch_forget (map (λ n. (n.0, n.1.0)) nodes)

-- With the number of the node in the header.
unfoldable pub meaning : ℕ → Parsed → Operation
unfolding changes lock
meaning node (Parsed.lookup name) = Operation.lookup name
meaning node (Parsed.forget arg) = forget_of arg
meaning node Parsed.getattr = Operation.getattr
meaning node (Parsed.setattr arg) = Operation.setattr (changes arg)
meaning node Parsed.readlink = Operation.readlink
meaning node (Parsed.symlink target path) = Operation.symlink target path
meaning node (Parsed.mknod arg name) = mknod_of arg name
meaning node (Parsed.mkdir arg name) = mkdir_of arg name
meaning node (Parsed.unlink name) = Operation.unlink name
meaning node (Parsed.rmdir name) = Operation.rmdir name
meaning node (Parsed.rename arg name newname) = rename_of arg name newname
meaning node (Parsed.link arg name) = link_of arg name
meaning node (Parsed.open_file arg) = open_file_of arg
meaning node (Parsed.read arg) = read_of arg
meaning node (Parsed.write arg value) = write_of arg value
meaning node Parsed.statfs = Operation.statfs
meaning node (Parsed.release arg) = release_of arg
meaning node (Parsed.fsync arg) = fsync_of arg
meaning node (Parsed.setxattr arg name value) = setxattr_of arg name value
meaning node (Parsed.getxattr arg name) = getxattr_of arg name
meaning node (Parsed.listxattr arg) = listxattr_of arg
meaning node (Parsed.removexattr name) = Operation.removexattr name
meaning node (Parsed.flush arg) = flush_of arg
meaning node (Parsed.init arg) = init_of arg
meaning node (Parsed.opendir arg) = opendir_of arg
meaning node (Parsed.readdir arg) = readdir_of arg
meaning node (Parsed.releasedir arg) = releasedir_of arg
meaning node (Parsed.fsyncdir arg) = fsyncdir_of arg
meaning node (Parsed.getlk arg) = Operation.getlk (lock arg)
meaning node (Parsed.setlk arg) = Operation.setlk (lock arg)
meaning node (Parsed.setlkw arg) = Operation.setlkw (lock arg)
meaning node (Parsed.access arg) = access_of arg
meaning node (Parsed.create arg name) = create_of arg name
meaning node (Parsed.interrupt arg) = Operation.interrupt
meaning node (Parsed.bmap arg) = bmap_of arg
meaning node Parsed.destroy = Operation.destroy
meaning node (Parsed.ioctl arg bytes) = ioctl_of arg bytes
meaning node (Parsed.poll arg) = Operation.poll
meaning node (Parsed.notify_reply bytes) = Operation.notify_reply
meaning node (Parsed.batch_forget arg nodes) = batch_forget_of nodes
meaning node (Parsed.fallocate arg) = fallocate_of arg
meaning node (Parsed.readdirplus arg) = readdirplus_of arg
meaning node (Parsed.rename2 arg name newname) = rename2_of node arg name newname
meaning node (Parsed.lseek arg) = lseek_of arg
meaning node (Parsed.copy_file_range arg) = copy_file_range_of node arg
meaning node (Parsed.cuse_init arg) = Operation.cuse_init

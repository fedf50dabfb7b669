-- ===== src/Session/Routes.antt =====
-- fuse/src/uring_fuse/request.rs: the last match of `dispatch_req`, from the operation to the method of
-- the file system, where there is one.
use fairy.Prelude.{ℕ, ◌^◌, true, false, List, length, take, ltb, leb, if◌then◌else◌}
use fairy.Session.Operations.{Operation, Call}

pub data Route : Type 0 where
  calls : Call → Route
  forgets : ℕ → ℕ → Route
  forgets_all : List (ℕ × ℕ) → Route
  unsupported : Route
  panics : Route

-- With the number of the node that the request is about. INIT and DESTROY do not come here.
unfoldable pub route : ℕ → Operation → Route
route node (Operation.lookup name) = calls (Call.lookup node name)
route node (Operation.forget nlookup) = forgets node nlookup
route node Operation.getattr = calls (Call.getattr node)
route node (Operation.setattr attributes) = calls (Call.setattr node attributes)
route node Operation.readlink = calls (Call.readlink node)
route node (Operation.mknod name mode umask rdev) = calls (Call.mknod node name mode umask rdev)
route node (Operation.mkdir name mode umask) = calls (Call.mkdir node name mode umask)
route node (Operation.unlink name) = calls (Call.unlink node name)
route node (Operation.rmdir name) = calls (Call.rmdir node name)
route node (Operation.symlink target link) = calls (Call.symlink node target link)
route node (Operation.rename src dir dest) = calls (Call.rename node src dir dest 0)
route node (Operation.link inode dest) = calls (Call.link inode node dest)
route node (Operation.open_file flags) = calls (Call.open_file node flags)
route node (Operation.read fh offset size flags lock_owner) =
    calls (Call.read node fh offset size flags lock_owner)
route node (Operation.write fh offset bytes write_flags flags lock_owner) =
    calls (Call.write node fh offset bytes write_flags flags lock_owner)
route node (Operation.flush fh lock_owner) = calls (Call.flush node fh lock_owner)
route node (Operation.release fh flags lock_owner flushes) =
    calls (Call.release node fh flags lock_owner flushes)
route node (Operation.fsync fh datasync) = calls (Call.fsync node fh datasync)
route node (Operation.opendir flags) = calls (Call.opendir node flags)
route node (Operation.readdir fh offset size) = calls (Call.readdir node fh offset size)
route node (Operation.releasedir fh flags) = calls (Call.releasedir node fh flags)
route node (Operation.fsyncdir fh datasync) = calls (Call.fsyncdir node fh datasync)
route node Operation.statfs = calls (Call.statfs node)
route node (Operation.setxattr name value flags position) =
    calls (Call.setxattr node name value flags position)
route node (Operation.getxattr name size) = calls (Call.getxattr node name size)
route node (Operation.listxattr size) = calls (Call.listxattr node size)
route node (Operation.removexattr name) = calls (Call.removexattr node name)
route node (Operation.access mask) = calls (Call.access node mask)
route node (Operation.create name mode umask flags) = calls (Call.create node name mode umask flags)
route node (Operation.getlk lock) = calls (Call.getlk node lock)
route node (Operation.setlk lock) = calls (Call.setlk node lock false)
route node (Operation.setlkw lock) = calls (Call.setlk node lock true)
route node (Operation.bmap block_size block) = calls (Call.bmap node block_size block)
route node (Operation.ioctl unrestricted_flag fh flags command in_size bytes out_size) =
    if unrestricted_flag
    then unsupported
    else if leb in_size (length bytes)
    then calls (Call.ioctl node fh flags command (take in_size bytes) out_size)
    else panics
route node (Operation.batch_forget nodes) = forgets_all nodes
route node (Operation.fallocate fh offset size mode) =
    calls (Call.fallocate node fh offset size mode)
route node (Operation.readdirplus fh offset size) = calls (Call.readdirplus node fh offset size)
route node (Operation.rename2 dir name newdir newname flags) =
    calls (Call.rename dir name newdir newname flags)
route node (Operation.lseek fh offset whence) = calls (Call.lseek node fh offset whence)
route node (Operation.copy_file_range src dest size flags) =
    if ltb flags (2 ^ 32) then calls (Call.copy_file_range src dest size flags) else panics
route node op = unsupported

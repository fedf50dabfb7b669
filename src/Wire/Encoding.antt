-- ===== src/Wire/Encoding.antt =====
-- How the kernel lays out a request, written independently of the code that parses it: the fields of a
-- structure, each with its low byte first; a string and the zero after it; and then what follows.
use fairy.Prelude.{ℕ, zero, suc, ◌/◌, ◌%◌, ◌^◌, ◌<◌, ◌≡◌, List, [], ◌∷◌, ◌++◌, length}
use fairy.Prelude.BTreeMap.{Bytes}
use fairy.Wire.{bytes, Layout, Fields}
use fairy.Wire.Layouts.{
  fuse_access_in, fuse_batch_forget_in, fuse_bmap_in, fuse_copy_file_range_in, fuse_create_in,
  fuse_fallocate_in, fuse_flush_in, fuse_forget_in, fuse_fsync_in, fuse_getxattr_in, fuse_init_in,
  fuse_interrupt_in, fuse_ioctl_in, fuse_link_in, fuse_lk_in, fuse_lseek_in, fuse_mkdir_in,
  fuse_mknod_in, fuse_open_in, fuse_poll_in, fuse_read_in, fuse_release_in, fuse_rename2_in,
  fuse_rename_in, fuse_setattr_in, fuse_setxattr_in, fuse_write_in, fuse_forget_one,
}
use fairy.Wire.Parsing.{
  FuseOpcode, fuse_lookup, fuse_forget, fuse_getattr, fuse_setattr, fuse_readlink, fuse_symlink,
  fuse_mknod, fuse_mkdir, fuse_unlink, fuse_rmdir, fuse_rename, fuse_link, fuse_open, fuse_read,
  fuse_write, fuse_statfs, fuse_release, fuse_fsync, fuse_setxattr, fuse_getxattr, fuse_listxattr,
  fuse_removexattr, fuse_flush, fuse_init, fuse_opendir, fuse_readdir, fuse_releasedir,
  fuse_fsyncdir, fuse_getlk, fuse_setlk, fuse_setlkw, fuse_access, fuse_create, fuse_interrupt,
  fuse_bmap, fuse_destroy, fuse_ioctl, fuse_poll, fuse_notify_reply, fuse_batch_forget,
  fuse_fallocate, fuse_readdirplus, fuse_rename2, fuse_lseek, fuse_copy_file_range, cuse_init,
  Parsed,
}

unfoldable pub put_word : ℕ → ℕ → Bytes → Bytes
put_word zero v rest = rest
put_word (suc n) v rest = (v % 256) ∷ put_word n (v / 256) rest

unfoldable pub put_fields : (ws : Layout) → Fields ws → Bytes → Bytes
unfolding put_word
put_fields [] f rest = rest
put_fields (w ∷ ws) f rest = put_word (bytes w) f.0 (put_fields ws f.1 rest)

unfoldable pub put_slice : (ws : Layout) → List (Fields ws) → Bytes → Bytes
unfolding put_fields
put_slice ws [] rest = rest
put_slice ws (f ∷ fs) rest = put_fields ws f (put_slice ws fs rest)

unfoldable pub put_str : Bytes → Bytes → Bytes
put_str name rest = name ++ (0 ∷ rest)

abbrev pub opcode : Parsed → FuseOpcode
opcode (Parsed.lookup name) = fuse_lookup
opcode (Parsed.forget arg) = fuse_forget
opcode Parsed.getattr = fuse_getattr
opcode (Parsed.setattr arg) = fuse_setattr
opcode Parsed.readlink = fuse_readlink
opcode (Parsed.symlink name newname) = fuse_symlink
opcode (Parsed.mknod arg name) = fuse_mknod
opcode (Parsed.mkdir arg name) = fuse_mkdir
opcode (Parsed.unlink name) = fuse_unlink
opcode (Parsed.rmdir name) = fuse_rmdir
opcode (Parsed.rename arg name newname) = fuse_rename
opcode (Parsed.link arg name) = fuse_link
opcode (Parsed.open_file arg) = fuse_open
opcode (Parsed.read arg) = fuse_read
opcode (Parsed.write arg value) = fuse_write
opcode Parsed.statfs = fuse_statfs
opcode (Parsed.release arg) = fuse_release
opcode (Parsed.fsync arg) = fuse_fsync
opcode (Parsed.setxattr arg name value) = fuse_setxattr
opcode (Parsed.getxattr arg name) = fuse_getxattr
opcode (Parsed.listxattr arg) = fuse_listxattr
opcode (Parsed.removexattr name) = fuse_removexattr
opcode (Parsed.flush arg) = fuse_flush
opcode (Parsed.init arg) = fuse_init
opcode (Parsed.opendir arg) = fuse_opendir
opcode (Parsed.readdir arg) = fuse_readdir
opcode (Parsed.releasedir arg) = fuse_releasedir
opcode (Parsed.fsyncdir arg) = fuse_fsyncdir
opcode (Parsed.getlk arg) = fuse_getlk
opcode (Parsed.setlk arg) = fuse_setlk
opcode (Parsed.setlkw arg) = fuse_setlkw
opcode (Parsed.access arg) = fuse_access
opcode (Parsed.create arg name) = fuse_create
opcode (Parsed.interrupt arg) = fuse_interrupt
opcode (Parsed.bmap arg) = fuse_bmap
opcode Parsed.destroy = fuse_destroy
opcode (Parsed.ioctl arg value) = fuse_ioctl
opcode (Parsed.poll arg) = fuse_poll
opcode (Parsed.notify_reply value) = fuse_notify_reply
opcode (Parsed.batch_forget arg nodes) = fuse_batch_forget
opcode (Parsed.fallocate arg) = fuse_fallocate
opcode (Parsed.readdirplus arg) = fuse_readdirplus
opcode (Parsed.rename2 arg name newname) = fuse_rename2
opcode (Parsed.lseek arg) = fuse_lseek
opcode (Parsed.copy_file_range arg) = fuse_copy_file_range
opcode (Parsed.cuse_init arg) = cuse_init

-- The arguments of an operation, before what follows them.
unfoldable pub encode : Parsed → Bytes → Bytes
unfolding put_fields put_slice put_str
encode (Parsed.lookup name) rest = put_str name rest
encode (Parsed.forget arg) rest = put_fields fuse_forget_in arg rest
encode Parsed.getattr rest = rest
encode (Parsed.setattr arg) rest = put_fields fuse_setattr_in arg rest
encode Parsed.readlink rest = rest
encode (Parsed.symlink name newname) rest = put_str name (put_str newname rest)
encode (Parsed.mknod arg name) rest = put_fields fuse_mknod_in arg (put_str name rest)
encode (Parsed.mkdir arg name) rest = put_fields fuse_mkdir_in arg (put_str name rest)
encode (Parsed.unlink name) rest = put_str name rest
encode (Parsed.rmdir name) rest = put_str name rest
encode (Parsed.rename arg name newname) rest =
    put_fields fuse_rename_in arg (put_str name (put_str newname rest))
encode (Parsed.link arg name) rest = put_fields fuse_link_in arg (put_str name rest)
encode (Parsed.open_file arg) rest = put_fields fuse_open_in arg rest
encode (Parsed.read arg) rest = put_fields fuse_read_in arg rest
encode (Parsed.write arg value) rest = put_fields fuse_write_in arg (value)
encode Parsed.statfs rest = rest
encode (Parsed.release arg) rest = put_fields fuse_release_in arg rest
encode (Parsed.fsync arg) rest = put_fields fuse_fsync_in arg rest
encode (Parsed.setxattr arg name value) rest =
    put_fields fuse_setxattr_in arg (put_str name (value))
encode (Parsed.getxattr arg name) rest = put_fields fuse_getxattr_in arg (put_str name rest)
encode (Parsed.listxattr arg) rest = put_fields fuse_getxattr_in arg rest
encode (Parsed.removexattr name) rest = put_str name rest
encode (Parsed.flush arg) rest = put_fields fuse_flush_in arg rest
encode (Parsed.init arg) rest = put_fields fuse_init_in arg rest
encode (Parsed.opendir arg) rest = put_fields fuse_open_in arg rest
encode (Parsed.readdir arg) rest = put_fields fuse_read_in arg rest
encode (Parsed.releasedir arg) rest = put_fields fuse_release_in arg rest
encode (Parsed.fsyncdir arg) rest = put_fields fuse_fsync_in arg rest
encode (Parsed.getlk arg) rest = put_fields fuse_lk_in arg rest
encode (Parsed.setlk arg) rest = put_fields fuse_lk_in arg rest
encode (Parsed.setlkw arg) rest = put_fields fuse_lk_in arg rest
encode (Parsed.access arg) rest = put_fields fuse_access_in arg rest
encode (Parsed.create arg name) rest = put_fields fuse_create_in arg (put_str name rest)
encode (Parsed.interrupt arg) rest = put_fields fuse_interrupt_in arg rest
encode (Parsed.bmap arg) rest = put_fields fuse_bmap_in arg rest
encode Parsed.destroy rest = rest
encode (Parsed.ioctl arg value) rest = put_fields fuse_ioctl_in arg (value)
encode (Parsed.poll arg) rest = put_fields fuse_poll_in arg rest
encode (Parsed.notify_reply value) rest = value
encode (Parsed.batch_forget arg nodes) rest =
    put_fields fuse_batch_forget_in arg (put_slice fuse_forget_one nodes rest)
encode (Parsed.fallocate arg) rest = put_fields fuse_fallocate_in arg rest
encode (Parsed.readdirplus arg) rest = put_fields fuse_read_in arg rest
encode (Parsed.rename2 arg name newname) rest =
    put_fields fuse_rename2_in arg (put_str name (put_str newname rest))
encode (Parsed.lseek arg) rest = put_fields fuse_lseek_in arg rest
encode (Parsed.copy_file_range arg) rest = put_fields fuse_copy_file_range_in arg rest
encode (Parsed.cuse_init arg) rest = put_fields fuse_init_in arg rest

-- Each field has its width.
abbrev pub FitFields : (ws : Layout) → Fields ws → Type 0
FitFields [] f = Unit
FitFields (w ∷ ws) f = (f.0 < 256 ^ bytes w) × FitFields ws f.1

abbrev pub FitSlice : (ws : Layout) → List (Fields ws) → Type 0
FitSlice ws [] = Unit
FitSlice ws (f ∷ fs) = FitFields ws f × FitSlice ws fs

-- No zero.
abbrev pub IsName : Bytes → Type 0
IsName [] = Unit
IsName (b ∷ name) = (0 < b) × IsName name

-- What the kernel may send, with what follows: the fields have their widths, the names no zero, and a
-- length or a count that is sent is that of what it is about. What is sent without a length is the rest.
abbrev pub Fits : Parsed → Bytes → Type 0
Fits (Parsed.lookup name) rest = IsName name
Fits (Parsed.forget arg) rest = FitFields fuse_forget_in arg
Fits Parsed.getattr rest = Unit
Fits (Parsed.setattr arg) rest = FitFields fuse_setattr_in arg
Fits Parsed.readlink rest = Unit
Fits (Parsed.symlink name newname) rest = IsName name × IsName newname
Fits (Parsed.mknod arg name) rest = FitFields fuse_mknod_in arg × IsName name
Fits (Parsed.mkdir arg name) rest = FitFields fuse_mkdir_in arg × IsName name
Fits (Parsed.unlink name) rest = IsName name
Fits (Parsed.rmdir name) rest = IsName name
Fits (Parsed.rename arg name newname) rest =
    FitFields fuse_rename_in arg × IsName name × IsName newname
Fits (Parsed.link arg name) rest = FitFields fuse_link_in arg × IsName name
Fits (Parsed.open_file arg) rest = FitFields fuse_open_in arg
Fits (Parsed.read arg) rest = FitFields fuse_read_in arg
Fits (Parsed.write arg value) rest =
    FitFields fuse_write_in arg × (length value ≡ arg.1.1.0) × (rest ≡ [])
Fits Parsed.statfs rest = Unit
Fits (Parsed.release arg) rest = FitFields fuse_release_in arg
Fits (Parsed.fsync arg) rest = FitFields fuse_fsync_in arg
Fits (Parsed.setxattr arg name value) rest =
    FitFields fuse_setxattr_in arg × IsName name × (length value ≡ arg.0) × (rest ≡ [])
Fits (Parsed.getxattr arg name) rest = FitFields fuse_getxattr_in arg × IsName name
Fits (Parsed.listxattr arg) rest = FitFields fuse_getxattr_in arg
Fits (Parsed.removexattr name) rest = IsName name
Fits (Parsed.flush arg) rest = FitFields fuse_flush_in arg
Fits (Parsed.init arg) rest = FitFields fuse_init_in arg
Fits (Parsed.opendir arg) rest = FitFields fuse_open_in arg
Fits (Parsed.readdir arg) rest = FitFields fuse_read_in arg
Fits (Parsed.releasedir arg) rest = FitFields fuse_release_in arg
Fits (Parsed.fsyncdir arg) rest = FitFields fuse_fsync_in arg
Fits (Parsed.getlk arg) rest = FitFields fuse_lk_in arg
Fits (Parsed.setlk arg) rest = FitFields fuse_lk_in arg
Fits (Parsed.setlkw arg) rest = FitFields fuse_lk_in arg
Fits (Parsed.access arg) rest = FitFields fuse_access_in arg
Fits (Parsed.create arg name) rest = FitFields fuse_create_in arg × IsName name
Fits (Parsed.interrupt arg) rest = FitFields fuse_interrupt_in arg
Fits (Parsed.bmap arg) rest = FitFields fuse_bmap_in arg
Fits Parsed.destroy rest = Unit
Fits (Parsed.ioctl arg value) rest = FitFields fuse_ioctl_in arg × (rest ≡ [])
Fits (Parsed.poll arg) rest = FitFields fuse_poll_in arg
Fits (Parsed.notify_reply value) rest = (rest ≡ [])
Fits (Parsed.batch_forget arg nodes) rest =
    FitFields fuse_batch_forget_in arg × FitSlice fuse_forget_one nodes × (length nodes ≡ arg.0)
Fits (Parsed.fallocate arg) rest = FitFields fuse_fallocate_in arg
Fits (Parsed.readdirplus arg) rest = FitFields fuse_read_in arg
Fits (Parsed.rename2 arg name newname) rest =
    FitFields fuse_rename2_in arg × IsName name × IsName newname
Fits (Parsed.lseek arg) rest = FitFields fuse_lseek_in arg
Fits (Parsed.copy_file_range arg) rest = FitFields fuse_copy_file_range_in arg
Fits (Parsed.cuse_init arg) rest = FitFields fuse_init_in arg

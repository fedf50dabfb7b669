-- ===== src/Wire/Layouts.antt =====
-- fuse/src/uring_fuse/low_level/kernel_interface.rs: the structures that the kernel sends, for the
-- features that the manifest turns on and not on macOS, and the flags that tell how to read them.
use fairy.Prelude.{ℕ, [], ◌∷◌}
use fairy.Wire.{Layout, u32, u64}

abbrev pub fuse_in_header : Layout
fuse_in_header = u32 ∷ u32 ∷ u64 ∷ u64 ∷ u32 ∷ u32 ∷ u32 ∷ u32 ∷ []

abbrev pub fuse_forget_in : Layout
fuse_forget_in = u64 ∷ []

abbrev pub fuse_forget_one : Layout
fuse_forget_one = u64 ∷ u64 ∷ []

abbrev pub fuse_batch_forget_in : Layout
fuse_batch_forget_in = u32 ∷ u32 ∷ []

abbrev pub fuse_mknod_in : Layout
fuse_mknod_in = u32 ∷ u32 ∷ u32 ∷ u32 ∷ []

abbrev pub fuse_mkdir_in : Layout
fuse_mkdir_in = u32 ∷ u32 ∷ []

abbrev pub fuse_rename_in : Layout
fuse_rename_in = u64 ∷ []

abbrev pub fuse_rename2_in : Layout
fuse_rename2_in = u64 ∷ u32 ∷ u32 ∷ []

abbrev pub fuse_link_in : Layout
fuse_link_in = u64 ∷ []

abbrev pub fuse_setattr_in : Layout
fuse_setattr_in =
    u32 ∷ u32 ∷ u64 ∷ u64 ∷ u64 ∷ u64 ∷ u64 ∷ u64 ∷ u32 ∷ u32 ∷ u32 ∷ u32 ∷ u32 ∷ u32 ∷ u32 ∷ u32
    ∷ []

abbrev pub fuse_open_in : Layout
fuse_open_in = u32 ∷ u32 ∷ []

abbrev pub fuse_create_in : Layout
fuse_create_in = u32 ∷ u32 ∷ u32 ∷ u32 ∷ []

abbrev pub fuse_release_in : Layout
fuse_release_in = u64 ∷ u32 ∷ u32 ∷ u64 ∷ []

abbrev pub fuse_flush_in : Layout
fuse_flush_in = u64 ∷ u32 ∷ u32 ∷ u64 ∷ []

abbrev pub fuse_read_in : Layout
fuse_read_in = u64 ∷ u64 ∷ u32 ∷ u32 ∷ u64 ∷ u32 ∷ u32 ∷ []

abbrev pub fuse_write_in : Layout
fuse_write_in = u64 ∷ u64 ∷ u32 ∷ u32 ∷ u64 ∷ u32 ∷ u32 ∷ []

abbrev pub fuse_fsync_in : Layout
fuse_fsync_in = u64 ∷ u32 ∷ u32 ∷ []

abbrev pub fuse_setxattr_in : Layout
fuse_setxattr_in = u32 ∷ u32 ∷ []

abbrev pub fuse_getxattr_in : Layout
fuse_getxattr_in = u32 ∷ u32 ∷ []

abbrev pub fuse_lk_in : Layout
fuse_lk_in = u64 ∷ u64 ∷ u64 ∷ u64 ∷ u32 ∷ u32 ∷ u32 ∷ u32 ∷ []

abbrev pub fuse_access_in : Layout
fuse_access_in = u32 ∷ u32 ∷ []

abbrev pub fuse_init_in : Layout
fuse_init_in = u32 ∷ u32 ∷ u32 ∷ u32 ∷ []

abbrev pub fuse_interrupt_in : Layout
fuse_interrupt_in = u64 ∷ []

abbrev pub fuse_bmap_in : Layout
fuse_bmap_in = u64 ∷ u32 ∷ u32 ∷ []

abbrev pub fuse_ioctl_in : Layout
fuse_ioctl_in = u64 ∷ u32 ∷ u32 ∷ u64 ∷ u32 ∷ u32 ∷ []

abbrev pub fuse_poll_in : Layout
fuse_poll_in = u64 ∷ u64 ∷ u32 ∷ u32 ∷ []

abbrev pub fuse_fallocate_in : Layout
fuse_fallocate_in = u64 ∷ u64 ∷ u64 ∷ u32 ∷ u32 ∷ []

abbrev pub fuse_lseek_in : Layout
fuse_lseek_in = u64 ∷ u64 ∷ u32 ∷ u32 ∷ []

abbrev pub fuse_copy_file_range_in : Layout
fuse_copy_file_range_in = u64 ∷ u64 ∷ u64 ∷ u64 ∷ u64 ∷ u64 ∷ u64 ∷ []

abbrev pub fattr_mode : ℕ
fattr_mode = 1

abbrev pub fattr_uid : ℕ
fattr_uid = 2

abbrev pub fattr_gid : ℕ
fattr_gid = 4

abbrev pub fattr_size : ℕ
fattr_size = 8

abbrev pub fattr_atime : ℕ
fattr_atime = 16

abbrev pub fattr_mtime : ℕ
fattr_mtime = 32

abbrev pub fattr_fh : ℕ
fattr_fh = 64

abbrev pub fattr_atime_now : ℕ
fattr_atime_now = 128

abbrev pub fattr_mtime_now : ℕ
fattr_mtime_now = 256

abbrev pub fattr_ctime : ℕ
fattr_ctime = 1024

abbrev pub fuse_release_flush : ℕ
fuse_release_flush = 1

abbrev pub fuse_release_flock_unlock : ℕ
fuse_release_flock_unlock = 2

abbrev pub fuse_write_lockowner : ℕ
fuse_write_lockowner = 2

abbrev pub fuse_read_lockowner : ℕ
fuse_read_lockowner = 2

abbrev pub fuse_ioctl_unrestricted : ℕ
fuse_ioctl_unrestricted = 2

abbrev pub fuse_fsync_fdatasync : ℕ
fuse_fsync_fdatasync = 1

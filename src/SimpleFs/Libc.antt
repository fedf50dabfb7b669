-- ===== src/SimpleFs/Libc.antt =====
-- The constants of `libc` on Linux, and of `fuser`, that fuse/src/filesystem.rs uses.
use Prim.Native.Nat.{ℕ}

abbrev pub eperm : ℕ
eperm = 1

abbrev pub enoent : ℕ
enoent = 2

abbrev pub ebadf : ℕ
ebadf = 9

abbrev pub eacces : ℕ
eacces = 13

abbrev pub eexist : ℕ
eexist = 17

abbrev pub einval : ℕ
einval = 22

abbrev pub efbig : ℕ
efbig = 27

abbrev pub erange : ℕ
erange = 34

abbrev pub enametoolong : ℕ
enametoolong = 36

abbrev pub enosys : ℕ
enosys = 38

abbrev pub enotempty : ℕ
enotempty = 39

abbrev pub enodata : ℕ
enodata = 61

abbrev pub enotsup : ℕ
enotsup = 95

abbrev pub f_ok : ℕ
f_ok = 0

abbrev pub x_ok : ℕ
x_ok = 1

abbrev pub w_ok : ℕ
w_ok = 2

abbrev pub r_ok : ℕ
r_ok = 4

abbrev pub s_ifmt : ℕ
s_ifmt = 0o170000

abbrev pub s_ifreg : ℕ
s_ifreg = 0o100000

abbrev pub s_iflnk : ℕ
s_iflnk = 0o120000

abbrev pub s_ifdir : ℕ
s_ifdir = 0o040000

abbrev pub s_isuid : ℕ
s_isuid = 0o4000

abbrev pub s_isgid : ℕ
s_isgid = 0o2000

abbrev pub s_isvtx : ℕ
s_isvtx = 0o1000

abbrev pub s_ixusr : ℕ
s_ixusr = 0o100

abbrev pub s_ixgrp : ℕ
s_ixgrp = 0o10

abbrev pub s_ixoth : ℕ
s_ixoth = 0o1

abbrev pub o_accmode : ℕ
o_accmode = 3

abbrev pub o_rdonly : ℕ
o_rdonly = 0

abbrev pub o_wronly : ℕ
o_wronly = 1

abbrev pub o_rdwr : ℕ
o_rdwr = 2

abbrev pub o_trunc : ℕ
o_trunc = 0o1000

abbrev pub rename_exchange : ℕ
rename_exchange = 2

abbrev pub falloc_fl_keep_size : ℕ
falloc_fl_keep_size = 1

abbrev pub fuse_root_id : ℕ
fuse_root_id = 1

abbrev pub fopen_direct_io : ℕ
fopen_direct_io = 1

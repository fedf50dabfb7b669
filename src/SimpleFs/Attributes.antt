-- ===== src/SimpleFs/Attributes.antt =====
-- fuse/src/filesystem.rs: the handlers that look inodes up, and read and change their attributes.
use Prim.Native.Nat.{bit_and}
use fairy.Prelude.{
  ℕ, ◌+◌, ◌%◌, ◌^◌, Bool, true, false, not, ◌&&◌, ◌||◌, Option, none, some, List, [], ◌∷◌, ◌++◌,
  ltb, ◌==◌, if◌then◌else◌, length,
}
use fairy.Prelude.BTreeMap
use fairy.Prelude.BTreeMap.{Bytes}
use fairy.SimpleFs.{
  Time, InodeAttributes, Bincode, Request, Handler, ◌>>=◌, ◌>>◌, reply, fail, ensure, unwrap,
  attempt,
}
use fairy.SimpleFs.Libc.{
  eperm, eacces, ebadf, erange, enametoolong, enodata, x_ok, w_ok, r_ok, s_isuid, s_isgid, s_ixusr,
  s_ixgrp, s_ixoth,
}
use fairy.SimpleFs.Access.{
  permitted, clear_suid_sgid, has, complement16, complement32, xattr_access_check,
}
use fairy.SimpleFs.Times.{SystemTime, time_from_system_time}
use fairy.SimpleFs.Store.{get_inode, write_inode, lookup_name, truncate, check_file_handle_write}

abbrev pub max_name_length : ℕ
max_name_length = 255

unfoldable pub lookup : ⦃bin : Bincode⦄ → Request → ℕ → Bytes → Handler InodeAttributes
unfolding get_inode lookup_name
lookup req parent name = do
  ensure (not (ltb max_name_length (length name))) enametoolong
  parent_attrs ← unwrap (get_inode parent)
  ensure (permitted parent_attrs req x_ok) eacces
  lookup_name parent name

unfoldable pub getattr : ℕ → Handler InodeAttributes
unfolding get_inode
getattr inode = get_inode inode

unfoldable pub access : Request → ℕ → ℕ → Handler (Unit {0})
unfolding get_inode
access req inode mask = do attr ← get_inode inode; ensure (permitted attr req mask) eacces

pub data TimeOrNow : Type 0 where
  specific_time : SystemTime → TimeOrNow
  now_time : TimeOrNow

abbrev pub is_now : TimeOrNow → Bool
is_now (specific_time t) = false
is_now now_time = true

abbrev pub contains : List ℕ → ℕ → Bool
contains [] g = false
contains (h ∷ groups) g = h == g || contains groups g

abbrev pub is_some : Option ℕ → Bool
is_some none = false
is_some (some n) = true

-- `setattr` with a mode.
unfoldable pub chmod : Time → Request → InodeAttributes → ℕ → Handler InodeAttributes
unfolding write_inode
chmod time req attrs mode = do
  ensure (req.uid == 0 || req.uid == attrs.uid) eperm
  let outsider =
      not (req.uid == 0) && not (req.gid == attrs.gid) && not (contains req.groups attrs.gid)
  let new = record attrs {
    mode = (if outsider then bit_and mode (complement32 s_isgid) else mode) % 2 ^ 16;
    last_metadata_changed = time;
  }
  write_inode new
  reply new

-- What the new owner of `chown` does to the attributes, and what the new group does.
abbrev pub set_owner : Option ℕ → InodeAttributes → InodeAttributes
set_owner none attrs = attrs
set_owner (some uid) attrs = record attrs {
  uid = uid;
  mode = bit_and attrs.mode (complement16 s_isuid);
}

abbrev pub set_group : Request → Option ℕ → InodeAttributes → InodeAttributes
set_group req none attrs = attrs
set_group req (some gid) attrs = record attrs {
  gid = gid;
  mode = if req.uid == 0 then attrs.mode else bit_and attrs.mode (complement16 s_isgid);
}

-- Non-root users can only change gid to a group they're in, and the owner not at all.
abbrev pub may_set_group : Request → Option ℕ → Bool
may_set_group req none = true
may_set_group req (some gid) = req.uid == 0 || contains req.groups gid

abbrev pub may_set_owner : Request → InodeAttributes → Option ℕ → Bool
may_set_owner req attrs none = true
may_set_owner req attrs (some uid) = req.uid == 0 || (uid == attrs.uid && req.uid == attrs.uid)

-- `setattr` with an owner or a group.
unfoldable pub chown :
    Time → Request → InodeAttributes → Option ℕ → Option ℕ → Handler InodeAttributes
unfolding write_inode clear_suid_sgid
chown time req attrs uid gid = do
  ensure (may_set_group req gid) eperm
  ensure (may_set_owner req attrs uid) eperm
  ensure (not (is_some gid && not (req.uid == 0) && not (req.uid == attrs.uid))) eperm
  let executable = has attrs.mode (s_ixusr + s_ixgrp + s_ixoth)
  let cleared = if executable then clear_suid_sgid attrs else attrs
  let new = record (set_group req gid (set_owner uid cleared)) { last_metadata_changed = time }
  write_inode new
  reply new

-- `setattr` with a size.
unfoldable pub resize : (ℕ → Time) → Request → ℕ → Option ℕ → Option ℕ → Handler (Unit {0})
unfolding truncate check_file_handle_write
resize now req inode none fh = reply tt
resize now req inode (some size) (some handle) = do
  ensure (check_file_handle_write handle) eacces
  attrs ← truncate now inode size 0 0
  reply tt
resize now req inode (some size) none = do attrs ← truncate now inode size req.uid req.gid; reply tt

abbrev pub chosen_time : TimeOrNow → Time → Time
chosen_time (specific_time t) now = time_from_system_time t
chosen_time now_time now = now

-- Who may set a time.
abbrev pub ensure_utimens : Request → InodeAttributes → TimeOrNow → Handler (Unit {0})
ensure_utimens req attrs t = do
  ensure (attrs.uid == req.uid || req.uid == 0 || is_now t) eperm
  ensure (attrs.uid == req.uid || permitted attrs req w_ok) eacces

-- `setattr` with a time of the last access, and with one of the last modification. They answer the
-- attributes that the handler goes on with.
unfoldable pub set_atime :
    Time → Request → InodeAttributes → Option TimeOrNow → Handler InodeAttributes
unfolding write_inode time_from_system_time
set_atime now req attrs none = reply attrs
set_atime now req attrs (some atime) = do
  ensure_utimens req attrs atime
  let new = record attrs { last_accessed = chosen_time atime now; last_metadata_changed = now }
  write_inode new
  reply new

unfoldable pub set_mtime :
    Time → Request → InodeAttributes → Option TimeOrNow → Handler InodeAttributes
unfolding write_inode time_from_system_time
set_mtime now req attrs none = reply attrs
set_mtime now req attrs (some mtime) = do
  ensure_utimens req attrs mtime
  let new = record attrs { last_modified = chosen_time mtime now; last_metadata_changed = now }
  write_inode new
  reply new

-- What `setattr` is asked to set.
pub record Changes : Type 0 where
  pub mode : Option ℕ
  pub uid : Option ℕ
  pub gid : Option ℕ
  pub size : Option ℕ
  pub atime : Option TimeOrNow
  pub mtime : Option TimeOrNow
  pub fh : Option ℕ

-- `setattr` with neither a mode nor an owner nor a group.
unfoldable pub set_size_and_times :
    (ℕ → Time) → Request → ℕ → InodeAttributes → Changes → Handler InodeAttributes
unfolding get_inode resize set_atime set_mtime
set_size_and_times now req inode attrs changes = do
  resize now req inode changes.size changes.fh
  attrs ← set_atime (now 2) req attrs changes.atime
  attrs ← set_mtime (now 2) req attrs changes.mtime
  unwrap (get_inode inode)

unfoldable pub setattr : (ℕ → Time) → Request → ℕ → Changes → Handler InodeAttributes
unfolding get_inode chmod chown set_size_and_times
setattr now req inode changes = do
  attrs ← get_inode inode
  elim changes.mode [
    | some mode ↦ chmod (now 0) req attrs mode
    | none ↦
        (if is_some changes.uid || is_some changes.gid
          then chown (now 0) req attrs changes.uid changes.gid
          else set_size_and_times now req inode attrs changes)
  ]

-- `if let Ok(attrs) = self.get_inode(inode)`, with `EBADF` in the other case.
abbrev pub get_inode_or_ebadf : ℕ → Handler InodeAttributes
get_inode_or_ebadf inode = do
  found ← attempt (get_inode inode)
  elim found [ none ↦ fail ebadf | some attrs ↦ reply attrs ]

-- `setxattr` on the attributes that it found.
abbrev pub set_value : Time → Request → Bytes → Bytes → InodeAttributes → Handler (Unit {0})
set_value now request key value attrs = do
  xattr_access_check key w_ok attrs request
  write_inode (record attrs {
    xattrs = BTreeMap.insert attrs.xattrs key value;
    last_metadata_changed = now;
  })

unfoldable pub setxattr : Time → Request → ℕ → Bytes → Bytes → Handler (Unit {0})
unfolding get_inode write_inode xattr_access_check
setxattr now request inode key value = do
  attrs ← get_inode_or_ebadf inode
  set_value now request key value attrs

-- `ReplyXattr`: the size that a buffer needs, or the data.
pub data XattrReply : Type 0 where
  size_of : ℕ → XattrReply
  data_of : Bytes → XattrReply

unfoldable pub reply_xattr : Bytes → ℕ → Handler XattrReply
reply_xattr bytes size =
    if size == 0
    then reply (size_of (length bytes % 2 ^ 32))
    else if ltb size (length bytes)
    then fail erange
    else reply (data_of bytes)

abbrev pub value_reply : ℕ → Option Bytes → Handler XattrReply
value_reply size none = fail enodata
value_reply size (some bytes) = reply_xattr bytes size

-- `getxattr` on the attributes that it found.
abbrev pub get_value : Request → Bytes → ℕ → InodeAttributes → Handler XattrReply
get_value request key size attrs = do
  xattr_access_check key r_ok attrs request
  value_reply size (BTreeMap.get attrs.xattrs key)

unfoldable pub getxattr : Request → ℕ → Bytes → ℕ → Handler XattrReply
unfolding get_inode reply_xattr xattr_access_check
getxattr request inode key size = do
  attrs ← get_inode_or_ebadf inode
  get_value request key size attrs

-- Concatenated null-terminated strings.
abbrev pub key_list : BTreeMap.BTreeMap Bytes → Bytes
key_list [] = []
key_list (e ∷ m) = e.0 ++ (0 ∷ key_list m)

unfoldable pub listxattr : ℕ → ℕ → Handler XattrReply
unfolding get_inode reply_xattr
listxattr inode size = do attrs ← get_inode_or_ebadf inode; reply_xattr (key_list attrs.xattrs) size

unfoldable pub removexattr : Time → Request → ℕ → Bytes → Handler (Unit {0})
unfolding get_inode write_inode xattr_access_check
removexattr now request inode key = do
  attrs ← get_inode_or_ebadf inode
  xattr_access_check key w_ok attrs request
  elim (BTreeMap.get attrs.xattrs key) [
    | none ↦ fail enodata
    | some old ↦
        write_inode
          (record attrs { xattrs = BTreeMap.remove attrs.xattrs key; last_metadata_changed = now })
  ]

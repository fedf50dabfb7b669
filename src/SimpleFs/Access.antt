-- ===== src/SimpleFs/Access.antt =====
-- fuse/src/filesystem.rs: permission bits, and who may read and write extended attributes.
use Prim.Native.Nat.{bit_and}
use fairy.Prelude.{
  ℕ, ◌+◌, ◌-◌, ◌/◌, ◌%◌, ◌^◌, Bool, true, false, not, ◌&&◌, ◌||◌, Option, none, some, [], ◌∷◌, ltb,
  ◌==◌, if◌then◌else◌, length,
}
use fairy.Prelude.BTreeMap.{Bytes, bytes_eq}
use fairy.SimpleFs.{
  InodeAttributes, FileKind, file, directory, symlink, Request, panic, Handler, reply, fail, ensure,
}
use fairy.SimpleFs.Libc.{
  f_ok, x_ok, r_ok, s_isuid, s_isgid, s_ixgrp, s_ifmt, s_ifreg, s_iflnk, s_ifdir, s_isvtx, eperm,
  enotsup,
}

-- `!x` of a `u16` and of a `u32`.
abbrev pub complement16 : ℕ → ℕ
complement16 x = 2 ^ 16 - 1 - x

abbrev pub complement32 : ℕ → ℕ
complement32 x = 2 ^ 32 - 1 - x

-- `mask & bits != 0`
abbrev pub has : ℕ → ℕ → Bool
has mask bits = not (bit_and mask bits == 0)

-- `access_mask -= access_mask & bits`; an `i32` is its pattern of 32 bits.
unfoldable pub strike : ℕ → ℕ → ℕ
strike mask bits = mask - bit_and mask bits

unfoldable pub check_access : ℕ → ℕ → ℕ → ℕ → ℕ → ℕ → Bool
check_access file_uid file_gid file_mode uid gid access_mask =
    if access_mask == f_ok
    then true
    else if uid == 0
    then strike (strike (strike (bit_and access_mask x_ok) (file_mode / 2 ^ 6)) (file_mode / 2 ^ 3))
        file_mode
      == 0
    else if uid == file_uid
    then strike access_mask (file_mode / 2 ^ 6) == 0
    else if gid == file_gid
    then strike access_mask (file_mode / 2 ^ 3) == 0
    else strike access_mask file_mode == 0

-- The call that the handlers make.
abbrev pub permitted : InodeAttributes → Request → ℕ → Bool
permitted attrs req access_mask =
    check_access attrs.uid attrs.gid attrs.mode req.uid req.gid access_mask

unfoldable pub clear_suid_sgid : InodeAttributes → InodeAttributes
clear_suid_sgid attr =
    let mode = bit_and attr.mode (complement16 s_isuid) in
    record attr { mode = if has mode s_ixgrp then bit_and mode (complement16 s_isgid) else mode }

unfoldable pub creation_gid : InodeAttributes → ℕ → ℕ
creation_gid parent gid = if has parent.mode s_isgid then parent.gid else gid

-- `as u16` keeps sixteen bits.
unfoldable pub creation_mode : Bool → ℕ → ℕ
creation_mode suid_support mode =
    if suid_support then mode % 2 ^ 16 else bit_and mode (complement32 (s_isuid + s_isgid)) % 2 ^ 16

-- `unimplemented!` panics.
unfoldable pub as_file_kind : ℕ → Handler FileKind
as_file_kind mode s =
    (let mode = bit_and mode s_ifmt in
        if mode == s_ifreg
        then reply file
        else if mode == s_iflnk
        then reply symlink
        else if mode == s_ifdir
        then reply directory
        else (λ s. panic))
      s

-- "Sticky bit" handling: whether it forbids the request to take `attrs` away from `parent`.
abbrev pub sticky : InodeAttributes → InodeAttributes → Request → Bool
sticky parent attrs req =
    has parent.mode s_isvtx
    && not (req.uid == 0)
    && not (req.uid == parent.uid)
    && not (req.uid == attrs.uid)

pub data XattrNamespace : Type 0 where
  security system trusted user : XattrNamespace

-- `key[..prefix.len()].eq(prefix)`, for a key that is long enough.
abbrev pub starts_with : Bytes → Bytes → Bool
starts_with key [] = true
starts_with [] (p ∷ ps) = false
starts_with (k ∷ ks) (p ∷ ps) = (k == p) && starts_with ks ps

-- The prefixes, in ASCII; the last one has no dot.
abbrev pub user_prefix : Bytes
user_prefix = 117 ∷ 115 ∷ 101 ∷ 114 ∷ 46 ∷ []

abbrev pub system_prefix : Bytes
system_prefix = 115 ∷ 121 ∷ 115 ∷ 116 ∷ 101 ∷ 109 ∷ 46 ∷ []

abbrev pub trusted_prefix : Bytes
trusted_prefix = 116 ∷ 114 ∷ 117 ∷ 115 ∷ 116 ∷ 101 ∷ 100 ∷ 46 ∷ []

abbrev pub security_prefix : Bytes
security_prefix = 115 ∷ 101 ∷ 99 ∷ 117 ∷ 114 ∷ 105 ∷ 116 ∷ 121 ∷ []

-- "system.posix_acl_access"
abbrev pub posix_acl_access : Bytes
posix_acl_access =
    115 ∷ 121 ∷ 115 ∷ 116 ∷ 101 ∷ 109 ∷ 46 ∷ 112 ∷ 111 ∷ 115 ∷ 105 ∷ 120 ∷ 95 ∷ 97 ∷ 99 ∷ 108 ∷ 95
    ∷ 97 ∷ 99 ∷ 99 ∷ 101 ∷ 115 ∷ 115 ∷ []

unfoldable pub parse_xattr_namespace : Bytes → Option XattrNamespace
parse_xattr_namespace key =
    if ltb (length key) (length user_prefix)
    then none
    else if starts_with key user_prefix
    then some user
    else if ltb (length key) (length system_prefix)
    then none
    else if starts_with key system_prefix
    then some system
    else if ltb (length key) (length trusted_prefix)
    then none
    else if starts_with key trusted_prefix
    then some trusted
    else if ltb (length key) (length security_prefix)
    then none
    else if starts_with key security_prefix
    then some security
    else none

-- Whether the namespace lets the request have this access; an error is `EPERM`.
unfoldable pub namespace_access : XattrNamespace → Bytes → ℕ → InodeAttributes → Request → Bool
namespace_access security key access_mask attrs req = access_mask == r_ok || req.uid == 0
namespace_access trusted key access_mask attrs req = req.uid == 0
namespace_access system key access_mask attrs req =
    if bytes_eq.beq key posix_acl_access then permitted attrs req access_mask else req.uid == 0
namespace_access user key access_mask attrs req = permitted attrs req access_mask

-- Its only error of `parse_xattr_namespace` is `ENOTSUP`.
unfoldable pub xattr_access_check : Bytes → ℕ → InodeAttributes → Request → Handler (Unit {0})
unfolding parse_xattr_namespace namespace_access
xattr_access_check key access_mask attrs req = elim (parse_xattr_namespace key) [
  | none ↦ fail enotsup
  | some namespace ↦ ensure (namespace_access namespace key access_mask attrs req) eperm
]

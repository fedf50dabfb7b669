-- ===== src/SimpleFs/Handles.antt =====
-- fuse/src/filesystem.rs: open inodes, and attributes that `setattr` and `setxattr` change.
use fairy.Prelude.{
  ℕ, ◌+◌, ◌≤◌, ◌≡◌, ◌≢◌, refl, ap, ◌∙◌, Bool, true, false, Option, none, some, length, arith, inl,
  inr, Option-cases, nat_eq,
}
use fairy.Prelude.BTreeMap
use mathlib.Core.Path.{subst}
use fairy.Prelude.BTreeMap.{Bytes, get-insert, bytes_eq, bytes_beq_refl}
use fairy.SimpleFs.{Time, InodeAttributes, SimpleFs, Request, done, Handler, ensure, fail, then_run}
use fairy.SimpleFs.Atomic.{Kept-inversion}
use fairy.SimpleFs.Steps.{Quiet-open_mode, Quiet-xattr_access_check}
use fairy.SimpleFs.Libc.{r_ok, w_ok, eperm, enotsup}
use fairy.SimpleFs.Access.{
  XattrNamespace, security, system, trusted, user, xattr_access_check, parse_xattr_namespace,
  namespace_access,
}
use fairy.SimpleFs.Store.{get_inode, write_inode, gc_inode, allocate_next_file_handle}
use fairy.SimpleFs.Data.{open_file, open_inode, open_mode, release}
use fairy.SimpleFs.Attributes.{
  setxattr, getxattr, data_of, reply_xattr, get_inode_or_ebadf, set_value, get_value, value_reply,
}

-- Every inode is stored under its own number.
unfoldable pub IsKeyed : SimpleFs → Type 0
IsKeyed s =
    (inode : ℕ) (attrs : InodeAttributes) → s.inodes inode ≡ some attrs → attrs.inode ≡ inode

open_inode_inversion :
    (req : Request) (inode : ℕ) (mode : ℕ × Bool × Bool) (s : SimpleFs) {s' : SimpleFs}
    {reply : ℕ × ℕ}
    → IsKeyed s
    → open_inode req inode mode s ≡ done s' reply
    → (attrs : InodeAttributes) × (s'.inodes inode
        ≡ some (record attrs { open_file_handles = attrs.open_file_handles + 1 }))
unfolding IsKeyed open_inode get_inode write_inode allocate_next_file_handle
open_inode_inversion req inode mode s keyed h = elim (Option-cases (s.inodes inode)) [
  | inl m ↦ absurd (ground arith)
  | inr (attrs, m) ↦ (attrs, ground (arith, keyed inode attrs m))
]

-- An inode that was opened once keeps its count of open handles when it is released: `release` leaves
-- the store as it is. Neither file of the inode is removed then, though its last link is gone.
release_leaks :
    (req : Request) (inode flags : ℕ) (s : SimpleFs) {s' : SimpleFs} {reply : ℕ × ℕ}
    → IsKeyed s
    → open_file req inode flags s ≡ done s' reply
    → (attrs : InodeAttributes) × (s'.inodes inode ≡ some attrs)
      × (attrs.open_file_handles ≢ 0)
      × (release inode s' ≡ done s' tt)
      × (gc_inode (record attrs { hardlinks = 0 }) s' ≡ done s' false)
unfolding open_file release gc_inode get_inode
release_leaks req inode flags s {s'} {reply} keyed h = (
  record opened.0 { open_file_handles = opened.0.open_file_handles + 1 },
  opened.1,
  omega arith,
  ground (arith, opened.1),
  ground arith,
)
  where
    by_mode :
        (mode : ℕ × Bool × Bool) × (open_inode req inode mode s ≡ done s' reply)
        × (open_mode flags s ≡ done s mode)
    by_mode =
        Kept-inversion s (open_mode flags s) (open_inode req inode) ((Quiet-open_mode flags).keep s)
          h

    opened :
        (attrs : InodeAttributes) × (s'.inodes inode
          ≡ some (record attrs { open_file_handles = attrs.open_file_handles + 1 }))
    opened = open_inode_inversion req inode by_mode.0 s keyed by_mode.1

-- Who may read or write an attribute does not depend on the attributes, nor on the times.
namespace_access_stable :
    (n : XattrNamespace) (key : Bytes) (mask : ℕ) (attrs new : InodeAttributes) (req : Request)
    → new.uid ≡ attrs.uid
    → new.gid ≡ attrs.gid
    → new.mode ≡ attrs.mode
    → namespace_access n key mask new req ≡ namespace_access n key mask attrs req
unfolding namespace_access
namespace_access_stable security key mask attrs new req u g m = refl
namespace_access_stable system key mask attrs new req u g m = rw (u, g, m) refl
namespace_access_stable trusted key mask attrs new req u g m = refl
namespace_access_stable user key mask attrs new req u g m = rw (u, g, m) refl

xattr_access_check_stable :
    (key : Bytes) (mask : ℕ) (attrs new : InodeAttributes) (req : Request) (s s' : SimpleFs)
    → new.uid ≡ attrs.uid
    → new.gid ≡ attrs.gid
    → new.mode ≡ attrs.mode
    → xattr_access_check key mask attrs req s ≡ done s tt
    → xattr_access_check key mask new req s' ≡ done s' tt
unfolding xattr_access_check
xattr_access_check_stable key mask attrs new req s s' u g m = go (parse_xattr_namespace key)
  where
    allowed :
        (b b' : Bool) → b' ≡ b → ensure b eperm s ≡ done s tt → ensure b' eperm s' ≡ done s' tt
    allowed b true e h = refl
    allowed true false e h = cc
    allowed false false e h = cc

    go :
        (o : Option XattrNamespace)
        → (elim o as (λ x. Handler (Unit {0})) [
          | none ↦ fail enotsup
          | some n ↦ ensure (namespace_access n key mask attrs req) eperm
        ])
            s
          ≡ done s tt
        → (elim o as (λ x. Handler (Unit {0})) [
          | none ↦ fail enotsup
          | some n ↦ ensure (namespace_access n key mask new req) eperm
        ])
            s'
          ≡ done s' tt
    go none h = cc
    go (some n) h = allowed _ _ (namespace_access_stable n key mask attrs new req u g m) h

-- What `setxattr` stored, `getxattr` replies, if the value fits in the buffer, and if the attribute
-- may be read.
pub getxattr-setxattr :
    (now : Time) (req : Request) (inode size : ℕ) (key value : Bytes) (s : SimpleFs) {s' : SimpleFs}
    {attrs : InodeAttributes}
    → IsKeyed s
    → s.inodes inode ≡ some attrs
    → setxattr now req inode key value s ≡ done s' tt
    → xattr_access_check key r_ok attrs req s ≡ done s tt
    → size ≢ 0
    → length value ≤ size
    → getxattr req inode key size s' ≡ done s' (data_of value)
unfolding IsKeyed setxattr getxattr get_inode write_inode reply_xattr
getxattr-setxattr now req inode size key value s {s'} {attrs} keyed e h ok nonzero fits =
    ap (λ o. then_run o (get_value req key size)) found_again
    ∙ ap (λ o. then_run o (λ t. value_reply size (BTreeMap.get new.xattrs key)))
        (xattr_access_check_stable key r_ok attrs new req s s' refl refl refl ok)
    ∙ ap (λ o. value_reply size o s') got
    ∙ ground arith
  where
    new : InodeAttributes
    new = record attrs {
      xattrs = BTreeMap.insert attrs.xattrs key value;
      last_metadata_changed = now;
    }

    found : get_inode_or_ebadf inode s ≡ done s attrs
    found = ground arith

    checked :
        (t : Unit {0}) × (write_inode new s ≡ done s' tt)
        × (xattr_access_check key w_ok attrs req s ≡ done s t)
    checked =
        Kept-inversion s (xattr_access_check key w_ok attrs req s) (λ t. write_inode new)
          ((Quiet-xattr_access_check key w_ok attrs req).keep s)
          (subst (λ o. then_run o (set_value now req key value) ≡ done s' tt) found h)

    stored : s'.inodes inode ≡ some new
    stored = ground (arith, checked.1, keyed inode attrs e)

    got : BTreeMap.get (BTreeMap.insert attrs.xattrs key value) key ≡ some value
    got = ground (arith, get-insert attrs.xattrs key value key, bytes_beq_refl key)

    found_again : get_inode_or_ebadf inode s' ≡ done s' new
    found_again = ground (arith, stored)

-- ===== src/SimpleFs/Undoing.antt =====
-- fuse/src/filesystem.rs: that the handlers, one by one, change nothing when they reply an error.
use fairy.Prelude.{ℕ, Bool, Option, none, some}
use fairy.Prelude.BTreeMap
use fairy.Prelude.BTreeMap.{Bytes}
use fairy.Prelude.{ℤ}
use fairy.SimpleFs.{Time, FileKind, InodeAttributes, Bincode, Request}
use fairy.SimpleFs.Atomic.{
  Atomic, Quiet, Sure, Quiet->>=_Atomic, Quiet->>=, Atomic->>=_Sure, Sure->>=, Atomic-Quiet,
  Atomic-Sure, Quiet-reply, Quiet-fail, Sure-reply, Quiet-attempt, Quiet-unwrap, Sure-attempt,
  Quiet-ensure, Sure-assert, Quiet-when, Undone, Quiet-option, Atomic-option, Sure-option,
  Atomic-if,
}
use fairy.SimpleFs.Store.{get_inode, lookup_name, insert_link}
use fairy.SimpleFs.Creating.{mknod, create, mkdir, link_directory, link}
use fairy.SimpleFs.Steps.{
  Quiet-access_mode, Quiet-open_mode, Quiet-opendir_mode, Quiet-non_negative,
  Quiet-get_inode_or_ebadf, Quiet-xattr_access_check, storing, Quiet-get_inode, Quiet-open_content,
  Sure-write_inode, Quiet-get_directory_content, Quiet-lookup_name, Quiet-ensure_missing,
  Atomic-touch_parent, Atomic-make_file,
}
use fairy.SimpleFs.Data.{open_file, opendir, open_inode, open_flags, release, write}
use fairy.SimpleFs.Attributes.{setxattr, removexattr}
use fairy.SimpleFs.Removing.{
  unlink, drop_link, rmdir, rename, exchange, move, ensure_empty, ensure_overwritable,
  ensure_replaceable, drop_target, drop_found,
}

module _ ⦃bin : Bincode⦄ where
  ruleset acting = (
    Quiet->>=_Atomic, Quiet-ensure, Quiet-ensure_missing, Quiet-get_inode, Quiet-lookup_name,
    Atomic->>=_Sure, Atomic-touch_parent, Atomic-make_file, Atomic-Sure, storing,
  )

  pub Atomic-insert_link :
      (now : ℕ → Time) (req : Request) (parent : ℕ) (name : Bytes) (inode : ℕ) (kind : FileKind)
      → Atomic (insert_link now req parent name inode kind)
  unfolding insert_link
  Atomic-insert_link now req parent name inode kind = search (acting) depth 40

  pub Atomic-mknod :
      (now : ℕ → Time) (req : Request) (parent : ℕ) (name : Bytes) (mode : ℕ)
      → Atomic (mknod now req parent name mode)
  unfolding mknod
  Atomic-mknod now req parent name mode = search (acting) depth 40

  pub Atomic-create :
      (now : ℕ → Time) (req : Request) (parent : ℕ) (name : Bytes) (mode flags : ℕ)
      → Atomic (create now req parent name mode flags)
  unfolding create
  Atomic-create now req parent name mode flags = search (acting, Quiet-access_mode) depth 40

  pub Atomic-mkdir :
      (now : ℕ → Time) (req : Request) (parent : ℕ) (name : Bytes) (mode : ℕ)
      → Atomic (mkdir now req parent name mode)
  unfolding mkdir link_directory
  Atomic-mkdir now req parent name mode = search (acting) depth 40

  pub Atomic-link :
      (now : ℕ → Time) (req : Request) (inode new_parent : ℕ) (new_name : Bytes)
      → Atomic (link now req inode new_parent new_name)
  unfolding link
  Atomic-link now req inode new_parent new_name = search (acting, Atomic-insert_link) depth 40

  Quiet-ensure_empty : (inode : ℕ) → Quiet (ensure_empty inode)
  Quiet-ensure_empty inode =
      Quiet->>= (Quiet-unwrap (Quiet-get_directory_content inode)) (λ entries. Quiet-ensure _ _)

  pub Atomic-unlink :
      (now : ℕ → Time) (req : Request) (parent : ℕ) (name : Bytes)
      → Atomic (unlink now req parent name)
  unfolding unlink drop_link
  Atomic-unlink now req parent name = search (acting) depth 40

  pub Atomic-rmdir :
      (now : ℕ → Time) (req : Request) (parent : ℕ) (name : Bytes)
      → Atomic (rmdir now req parent name)
  unfolding rmdir
  Atomic-rmdir now req parent name = search (acting, Quiet-ensure_empty) depth 40

  pub Atomic-exchange :
      (now : ℕ → Time) (a p q : InodeAttributes) (parent : ℕ) (name : Bytes) (new_parent : ℕ)
      (new_name : Bytes)
      → Atomic (exchange now a p q parent name new_parent new_name)
  unfolding exchange
  Atomic-exchange now a p q parent name new_parent new_name = search (acting) depth 40

  Quiet-ensure_overwritable : (parent : ℕ) (name : Bytes) → Quiet (ensure_overwritable parent name)
  Quiet-ensure_overwritable parent name =
      Quiet->>= (Quiet-attempt (Quiet-lookup_name parent name)) (λ found.
        Quiet-option found (Quiet-reply tt)
          (λ existing. Quiet-when _ (Quiet-ensure_empty existing.inode)))

  Sure-drop_found :
      (time : Time) (parent : ℕ) (name : Bytes) (found : Option InodeAttributes)
      → Sure (drop_found time parent name found)
  Sure-drop_found time parent name none = Sure-reply tt
  Sure-drop_found time parent name (some existing) = search (storing) depth 40

  Sure-drop_target : (time : Time) (parent : ℕ) (name : Bytes) → Sure (drop_target time parent name)
  Sure-drop_target time parent name =
      Sure->>= (Sure-attempt (lookup_name parent name)) (Sure-drop_found time parent name)

  pub Atomic-move :
      (now : ℕ → Time) (req : Request) (a p q : InodeAttributes) (parent : ℕ) (name : Bytes)
      (new_parent : ℕ) (new_name : Bytes)
      → Atomic (move now req a p q parent name new_parent new_name)
  unfolding move
  Atomic-move now req a p q parent name new_parent new_name =
      search (acting, Quiet-ensure_overwritable, Sure-drop_target) depth 40

  Quiet-ensure_replaceable :
      (req : Request) (q : InodeAttributes) (parent : ℕ) (name : Bytes)
      → Quiet (ensure_replaceable req q parent name)
  Quiet-ensure_replaceable req q parent name = Quiet-when _ (
      Quiet->>= (Quiet-attempt (Quiet-lookup_name parent name))
        (λ found. Quiet-option found (Quiet-reply tt) (λ existing. Quiet-ensure _ _)))

  pub Atomic-rename :
      (now : ℕ → Time) (req : Request) (parent : ℕ) (name : Bytes) (new_parent : ℕ)
      (new_name : Bytes) (flags : ℕ)
      → Atomic (rename now req parent name new_parent new_name flags)
  unfolding rename
  Atomic-rename now req parent name new_parent new_name flags =
      search (acting, Quiet-ensure_replaceable, Atomic-if, Atomic-exchange, Atomic-move) depth 40

  Sure-open_flags : Sure open_flags
  Sure-open_flags = record { succeed = λ s. tt }

  pub Atomic-open_inode :
      (req : Request) (inode : ℕ) (mode : ℕ × Bool × Bool) → Atomic (open_inode req inode mode)
  unfolding open_inode
  Atomic-open_inode req inode mode = search (acting, Sure-open_flags) depth 40

  pub Atomic-open_file : (req : Request) (inode flags : ℕ) → Atomic (open_file req inode flags)
  unfolding open_file
  Atomic-open_file req inode flags =
      Quiet->>=_Atomic (Quiet-open_mode flags) (λ mode. Atomic-open_inode req inode mode)

  pub Atomic-opendir : (req : Request) (inode flags : ℕ) → Atomic (opendir req inode flags)
  unfolding opendir
  Atomic-opendir req inode flags =
      Quiet->>=_Atomic (Quiet-opendir_mode flags) (λ mode. Atomic-open_inode req inode mode)

  pub Atomic-write :
      (now : ℕ → Time) (inode fh : ℕ) (offset : ℤ) (bytes : Bytes)
      → Atomic (write now inode fh offset bytes)
  unfolding write
  Atomic-write now inode fh offset bytes =
      search (acting, Quiet-non_negative, Quiet-open_content) depth 40

  pub Atomic-setxattr :
      (now : Time) (req : Request) (inode : ℕ) (key value : Bytes)
      → Atomic (setxattr now req inode key value)
  unfolding setxattr
  Atomic-setxattr now req inode key value =
      search (acting, Quiet-get_inode_or_ebadf, Quiet-xattr_access_check) depth 40

  pub Atomic-removexattr :
      (now : Time) (req : Request) (inode : ℕ) (key : Bytes)
      → Atomic (removexattr now req inode key)
  unfolding removexattr
  Atomic-removexattr now req inode key = Quiet->>=_Atomic (Quiet-get_inode_or_ebadf inode) (λ attrs.
      Quiet->>=_Atomic (Quiet-xattr_access_check key _ attrs req) (λ t.
        Atomic-option (BTreeMap.get attrs.xattrs key) (Atomic-Quiet (Quiet-fail _))
          (λ old. Atomic-Sure (Sure-write_inode _))))

  pub Sure-release : (inode : ℕ) → Sure (release inode)
  unfolding release
  Sure-release inode =
      Sure->>= (Sure-attempt (get_inode inode))
        (λ found. Sure-option found (Sure-reply tt) (λ attrs. Sure-assert _))

  pub ruleset finished = (Atomic->>=_Sure, Sure-reply)

-- ===== src/SimpleFs/Steps.antt =====
-- fuse/src/filesystem.rs: which steps of the handlers only read, and which never reply an error.
use fairy.Prelude.{ℕ, refl, Bool, true, false, Option, none, some, if◌then◌else◌, ◌==◌}
use fairy.Prelude.BTreeMap
use fairy.Prelude.BTreeMap.{Bytes}
use fairy.SimpleFs.{
  Time, file, directory, symlink, InodeAttributes, DirectoryDescriptor, Bincode, SimpleFs, Request,
  Outcome, done, failed, panic,
}
use fairy.SimpleFs.Atomic.{
  Atomic, Quiet, Sure, Quiet->>=_Atomic, Quiet->>=, Atomic->>=_Sure, Sure->>=, Atomic-Quiet,
  Atomic-Sure, Quiet-reply, Quiet-fail, Sure-reply, Quiet-attempt, Quiet-unwrap, Sure-unwrap,
  Sure-attempt, Quiet-ensure, Quiet-assert, Sure-assert, Sure-when, Quiet-when, Undone, Kept,
  Succeeded, Quiet-option, Atomic-option, Sure-option, Quiet-if, Atomic-if, Sure-if, Sure-panic,
}
use fairy.SimpleFs.Store.{
  allocate_next_inode, allocate_next_file_handle, get_inode, write_inode, gc_inode, write_content,
  open_content, get_directory_content, write_directory_content, deserialized, lookup_name,
  ensure_missing,
}
use Prim.Native.Nat.{bit_and}
use fairy.SimpleFs.Libc.{enoent, eexist, s_ifmt, s_ifreg, s_iflnk, s_ifdir}
use fairy.SimpleFs.Access.{as_file_kind}
use fairy.SimpleFs.Creating.{touch_parent, suid_supported, make_file}
use fairy.SimpleFs.Access.{xattr_access_check, parse_xattr_namespace}
use fairy.SimpleFs.Data.{open_mode, opendir_mode, non_negative}
use fairy.SimpleFs.Attributes.{get_inode_or_ebadf}
use fairy.SimpleFs.Creating.{access_mode}
use fairy.SimpleFs.Libc.{o_accmode, o_rdonly, o_wronly, o_rdwr}
use fairy.Prelude.{ℤ, pos, negsuc}

pub ruleset reading = (
  Quiet->>=, Quiet-reply, Quiet-fail, Quiet-attempt, Quiet-unwrap, Quiet-ensure, Quiet-assert,
  Quiet-when, Quiet-option, Quiet-if,
)

pub ruleset finishing =
    (Sure->>=, Sure-reply, Sure-unwrap, Sure-assert, Sure-when, Sure-option, Sure-if, Sure-panic)

pub Quiet-get_inode : (inode : ℕ) → Quiet (get_inode inode)
unfolding get_inode
Quiet-get_inode inode = record {
  keep = λ s.
      elim (s.inodes inode)
        as (λ o. Kept s (elim o [ none ↦ failed s enoent | some a ↦ done s a ])) [
          | none ↦ refl
          | some a ↦ refl
        ];
}

pub Quiet-open_content : (e inode : ℕ) → Quiet (open_content e inode)
Quiet-open_content e inode = record {
  keep = λ s.
      elim (s.contents inode) as (λ o. Kept s (elim o [ none ↦ failed s e | some b ↦ done s b ])) [
        | none ↦ refl
        | some b ↦ refl
      ];
}

pub Quiet-suid_supported : Quiet suid_supported
Quiet-suid_supported = record { keep = λ s. refl }

pub Sure-suid_supported : Sure suid_supported
Sure-suid_supported = record { succeed = λ s. tt }

pub Sure-write_inode : (attrs : InodeAttributes) → Sure (write_inode attrs)
unfolding write_inode
Sure-write_inode attrs = record { succeed = λ s. tt }

pub Sure-write_content : (inode : ℕ) (bytes : Bytes) → Sure (write_content inode bytes)
Sure-write_content inode bytes = record { succeed = λ s. tt }

-- A step that replies or panics.
done_or_panic :
    {A : Type 0} (b : Bool) (o : Outcome A) → Succeeded o → Succeeded (if b then o else panic)
done_or_panic true o h = h
done_or_panic false o h = tt

pub Sure-allocate_next_inode : Sure allocate_next_inode
unfolding allocate_next_inode
Sure-allocate_next_inode = record { succeed = λ s. done_or_panic _ (done _ _) tt }

pub Sure-allocate_next_file_handle :
    (read write : Bool) → Sure (allocate_next_file_handle read write)
unfolding allocate_next_file_handle
Sure-allocate_next_file_handle read write = record { succeed = λ s. done_or_panic _ (done _ _) tt }

pub Sure-as_file_kind : (mode : ℕ) → Sure (as_file_kind mode)
unfolding as_file_kind
Sure-as_file_kind mode = Sure-if (bit_and mode s_ifmt == s_ifreg) (Sure-reply file) (
    Sure-if (bit_and mode s_ifmt == s_iflnk) (Sure-reply symlink)
      (Sure-if (bit_and mode s_ifmt == s_ifdir) (Sure-reply directory) Sure-panic))

pub Sure-gc_inode : (attrs : InodeAttributes) → Sure (gc_inode attrs)
unfolding gc_inode
Sure-gc_inode attrs = record {
  succeed =
      λ s. either _ _ s (present (s.inodes attrs.inode) (s.contents attrs.inode) (done _ true) tt);
}
  where
    present :
        (o : Option InodeAttributes) (c : Option Bytes) (x : Outcome Bool)
        → Succeeded x
        → Succeeded (elim o [ none ↦ panic | some a ↦ elim c [ none ↦ panic | some b ↦ x ] ])
    present none c x h = tt
    present (some a) none x h = tt
    present (some a) (some b) x h = h

    either :
        (b : Bool) (x : Outcome Bool) (s : SimpleFs)
        → Succeeded x
        → Succeeded (if b then x else done s false)
    either true x s h = h
    either false x s h = tt

pub Quiet-access_mode : (flags : ℕ) → Quiet (access_mode flags)
unfolding access_mode
Quiet-access_mode flags = Quiet-if (bit_and flags o_accmode == o_rdonly) (Quiet-reply _) (
    Quiet-if (bit_and flags o_accmode == o_wronly) (Quiet-reply _)
      (Quiet-if (bit_and flags o_accmode == o_rdwr) (Quiet-reply _) (Quiet-fail _)))

pub Quiet-open_mode : (flags : ℕ) → Quiet (open_mode flags)
unfolding open_mode
Quiet-open_mode flags =
    Quiet-if (bit_and flags o_accmode == o_rdonly)
      (Quiet->>= (Quiet-ensure _ _) (λ t. Quiet-reply _))
      (Quiet-if (bit_and flags o_accmode == o_wronly) (Quiet-reply _)
        (Quiet-if (bit_and flags o_accmode == o_rdwr) (Quiet-reply _) (Quiet-fail _)))

pub Quiet-opendir_mode : (flags : ℕ) → Quiet (opendir_mode flags)
unfolding opendir_mode
Quiet-opendir_mode flags =
    Quiet-if (bit_and flags o_accmode == o_rdonly)
      (Quiet->>= (Quiet-ensure _ _) (λ t. Quiet-reply _))
      (Quiet-if (bit_and flags o_accmode == o_wronly) (Quiet-reply _)
        (Quiet-if (bit_and flags o_accmode == o_rdwr) (Quiet-reply _) (Quiet-fail _)))

pub Quiet-non_negative : (offset : ℤ) → Quiet (non_negative offset)
Quiet-non_negative (pos n) = Quiet-reply n
Quiet-non_negative (negsuc n) = record { keep = λ s. tt }

pub Quiet-get_inode_or_ebadf : (inode : ℕ) → Quiet (get_inode_or_ebadf inode)
Quiet-get_inode_or_ebadf inode =
    Quiet->>= (Quiet-attempt (Quiet-get_inode inode))
      (λ found. Quiet-option found (Quiet-fail _) (λ attrs. Quiet-reply attrs))

pub Quiet-xattr_access_check :
    (key : Bytes) (mask : ℕ) (attrs : InodeAttributes) (req : Request)
    → Quiet (xattr_access_check key mask attrs req)
unfolding xattr_access_check
Quiet-xattr_access_check key mask attrs req =
    Quiet-option (parse_xattr_namespace key) (Quiet-fail _) (λ namespace. Quiet-ensure _ _)

module _ ⦃bin : Bincode⦄ where
  pub Quiet-deserialized : (o : Option DirectoryDescriptor) → Quiet (λ s. deserialized s o)
  Quiet-deserialized none = record { keep = λ s. tt }
  Quiet-deserialized (some d) = record { keep = λ s. refl }

  pub Quiet-get_directory_content : (inode : ℕ) → Quiet (get_directory_content inode)
  unfolding get_directory_content
  Quiet-get_directory_content inode = search (Quiet->>=, Quiet-open_content, Quiet-deserialized)

  pub Quiet-lookup_name : (parent : ℕ) (name : Bytes) → Quiet (lookup_name parent name)
  unfolding lookup_name
  Quiet-lookup_name parent name = Quiet->>= (Quiet-get_directory_content parent) (λ entries.
      Quiet-option (BTreeMap.get entries name) (Quiet-fail enoent)
        (λ entry. Quiet-get_inode entry.0))

  pub Quiet-ensure_missing : (parent : ℕ) (name : Bytes) → Quiet (ensure_missing parent name)
  Quiet-ensure_missing parent name =
      Quiet->>= (Quiet-attempt (Quiet-lookup_name parent name))
        (λ found. Quiet-option found (Quiet-reply tt) (λ attrs. Quiet-fail eexist))

  pub Sure-write_directory_content :
      (inode : ℕ) (entries : DirectoryDescriptor) → Sure (write_directory_content inode entries)
  unfolding write_directory_content
  Sure-write_directory_content inode entries = Sure-write_content inode (bin.serialize entries)

  pub Atomic-touch_parent :
      (now : ℕ → Time) (req : Request) (parent : ℕ) → Atomic (touch_parent now req parent)
  unfolding touch_parent
  Atomic-touch_parent now req parent =
      search (Quiet->>=_Atomic, Quiet-get_inode, reading, Atomic-Sure, Sure-write_inode, finishing)

  pub ruleset storing = (
    finishing, Sure-suid_supported, Sure-write_inode, Sure-write_content, Sure-allocate_next_inode,
    Sure-allocate_next_file_handle, Sure-as_file_kind, Sure-gc_inode, Sure-write_directory_content,
  )

  pub Atomic-make_file :
      (now : ℕ → Time) (req : Request) (parent : ℕ) (name : Bytes) (mode handles : ℕ)
      → Atomic (make_file now req parent name mode handles)
  unfolding make_file
  Atomic-make_file now req parent name mode handles =
      Atomic->>=_Sure (Atomic-touch_parent now req parent) (λ p. search (storing) depth 40)

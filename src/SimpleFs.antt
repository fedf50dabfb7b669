-- ===== src/SimpleFs.antt =====
-- fuse/src/filesystem.rs: the file system that keeps its inodes and contents under a data directory.
-- Here are its types, and what a handler is: a step on the store that replies, or replies an error
-- number, or panics.
pub mod Libc
pub mod Access
pub mod Times
pub mod Store
pub mod Creating
pub mod Removing
pub mod Attributes
pub mod Data
pub mod Atomic
pub mod Steps
pub mod Undoing
pub mod Errors
pub mod Permissions
pub mod Clock
pub mod Contents
pub mod Handles
pub mod Listing
pub mod Entries
pub mod Directories
pub mod Setattr
pub mod Unlinking
mod Codec
mod Tests
use Prim.Native.Nat.{ℕ}
use mathlib.Core.Bool.{Bool, true, false}
use mathlib.Core.Option.{Option, none, some}
use mathlib.Core.Path.{◌≡◌}
use mathlib.Core.List.{List}
use fairy.Prelude.{if◌then◌else◌, ℤ, pos, negsuc}
use fairy.Prelude.BTreeMap
use fairy.Prelude.BTreeMap.{Bytes}

-- `(i64, u32)`
abbrev pub Time : Type 0
Time = ℤ × ℕ

pub data FileKind : Type 0 where
  file directory symlink : FileKind

pub record InodeAttributes : Type 0 where
  pub inode : ℕ
  pub open_file_handles : ℕ
  pub size : ℕ
  pub last_accessed : Time
  pub last_modified : Time
  pub last_metadata_changed : Time
  pub kind : FileKind
  pub mode : ℕ
  pub hardlinks : ℕ
  pub uid : ℕ
  pub gid : ℕ
  pub xattrs : BTreeMap.BTreeMap Bytes

abbrev pub DirectoryDescriptor : Type 0
DirectoryDescriptor = BTreeMap.BTreeMap (ℕ × FileKind)

-- `bincode`: how a directory is written to the file of its contents. `none` is an error.
pub record Bincode : Type 0 where
  pub serialize : DirectoryDescriptor → Bytes
  pub deserialize : Bytes → Option DirectoryDescriptor
  pub deserialize-serialize : (d : DirectoryDescriptor) → deserialize (serialize d) ≡ some d

-- The data directory ("inodes", "contents" and "superblock"), then the fields of `SimpleFS`.
pub record SimpleFs : Type 0 where
  pub inodes : ℕ → Option InodeAttributes
  pub contents : ℕ → Option Bytes
  pub superblock : Option ℕ
  pub next_file_handle : ℕ
  pub direct_io : Bool
  pub suid_support : Bool

-- What the file system reads of a request; `groups` is `get_groups` of its `pid`.
pub record Request : Type 0 where
  pub uid : ℕ
  pub gid : ℕ
  pub groups : List ℕ

pub data Outcome (A : Type 0) : Type 0 where
  done : SimpleFs → A → Outcome A
  failed : SimpleFs → ℕ → Outcome A
  panic : Outcome A

abbrev pub Handler : Type 0 → Type 0
Handler A = SimpleFs → Outcome A

infixl 5 ◌>>=◌ ◌>>◌
abbrev pub then_run : {A B : Type 0} → Outcome A → (A → Handler B) → Outcome B
then_run (done s a) f = f a s
then_run (failed s e) f = failed s e
then_run panic f = panic

abbrev pub ◌>>=◌ : {A B : Type 0} → Handler A → (A → Handler B) → Handler B
◌>>=◌ m f s = then_run (m s) f

abbrev pub ◌>>◌ : {B : Type 0} → Handler (Unit {0}) → Handler B → Handler B
m >> k = m >>= λ _. k

abbrev pub reply : {A : Type 0} → A → Handler A
reply a s = done s a

abbrev pub fail : {A : Type 0} → ℕ → Handler A
fail e s = failed s e

-- An early return with an error number, unless the test holds.
abbrev pub ensure : Bool → ℕ → Handler (Unit {0})
ensure true e s = done s tt
ensure false e s = failed s e

-- `assert!`, and arithmetic that panics on overflow.
abbrev pub assert : Bool → Handler (Unit {0})
assert true s = done s tt
assert false s = panic

abbrev pub unwrapped : {A : Type 0} → Outcome A → Outcome A
unwrapped (done s a) = done s a
unwrapped (failed s e) = panic
unwrapped panic = panic

-- `Result::unwrap`
abbrev pub unwrap : {A : Type 0} → Handler A → Handler A
unwrap m s = unwrapped (m s)

abbrev pub tried : {A : Type 0} → Outcome A → Outcome (Option A)
tried (done s a) = done s (some a)
tried (failed s e) = done s none
tried panic = panic

-- `Result::ok`: an error is the answer `none`.
abbrev pub attempt : {A : Type 0} → Handler A → Handler (Option A)
attempt m s = tried (m s)

abbrev pub when : Bool → Handler (Unit {0}) → Handler (Unit {0})
when b m = if b then m else reply tt

-- ===== src/FuseMt/Requests.antt =====
-- async_fuse/fusemt.rs: the calls that change neither the inode table nor the directory cache. `A` is
-- what the file system answers, `M` a mode and `T` a time. The calls that a thread of the pool
-- runs reply in the end what it is said here. A cast between `i32` and `u32` keeps its 32 bits.
use fairy.Prelude.{
  ℕ, ℤ, pos, negsuc, Bool, true, false, Option, none, some, ◌==◌, ◌||◌, if◌then◌else◌, ◌>>=◌,
}
use mathlib.Core.Option
use fairy.InodeTable
use fairy.FuseMt.{
  FuseMt, Answer, ok, err, Reply, replied, error, einval, with_path, passed_on, real_fh,
}

abbrev pub unwrap_or : ℕ → Option ℕ → ℕ
unwrap_or n none = n
unwrap_or n (some m) = m

module _ {P N : Type 0} where
  unfoldable pub readlink :
      {A : Type 0} → FuseMt P N → ℕ → (P → Answer A) → Option (Reply A × FuseMt P N)
  readlink fs ino answer = with_path fs ino λ path. passed_on fs (answer path)

  -- With the flags.
  unfoldable pub open_file :
      {A : Type 0} → FuseMt P N → ℕ → ℕ → (P → ℕ → Answer A) → Option (Reply A × FuseMt P N)
  open_file fs ino flags answer = with_path fs ino λ path. passed_on fs (answer path flags)

  abbrev pub at_offset :
      {A : Type 0} → FuseMt P N → ℤ → (ℕ → Answer A) → Option (Reply A × FuseMt P N)
  at_offset fs (negsuc n) answer = some (error einval, fs)
  at_offset fs (pos offset) answer = passed_on fs (answer offset)

  -- The handle, the offset and the size.
  unfoldable pub read :
      {A : Type 0}
      → FuseMt P N
      → ℕ
      → ℕ
      → ℤ
      → ℕ
      → (P → ℕ → ℕ → ℕ → Answer A)
      → Option (Reply A × FuseMt P N)
  read fs ino fh offset size answer =
      with_path fs ino λ path. at_offset fs offset λ o. answer path fh o size

  -- The handle, the offset and the data.
  unfoldable pub write :
      {A D : Type 0}
      → FuseMt P N
      → ℕ
      → ℕ
      → ℤ
      → D
      → (P → ℕ → ℕ → D → Answer A)
      → Option (Reply A × FuseMt P N)
  write fs ino fh offset bytes answer =
      with_path fs ino λ path. at_offset fs offset λ o. answer path fh o bytes

  -- The handle, and the owner of the lock.
  unfoldable pub flush :
      FuseMt P N
      → ℕ
      → ℕ
      → ℕ
      → (P → ℕ → ℕ → Answer (Unit {0}))
      → Option (Reply (Unit {0}) × FuseMt P N)
  flush fs ino fh lock_owner answer =
      with_path fs ino λ path. passed_on fs (answer path fh lock_owner)

  -- The handle, the flags, the owner of the lock, and whether to flush.
  unfoldable pub release :
      FuseMt P N
      → ℕ
      → ℕ
      → ℕ
      → Option ℕ
      → Bool
      → (P → ℕ → ℕ → ℕ → Bool → Answer (Unit {0}))
      → Option (Reply (Unit {0}) × FuseMt P N)
  release fs ino fh flags lock_owner flushes answer =
      with_path fs ino λ path. passed_on fs (answer path fh flags (unwrap_or 0 lock_owner) flushes)

  unfoldable pub fsync :
      FuseMt P N
      → ℕ
      → ℕ
      → Bool
      → (P → ℕ → Bool → Answer (Unit {0}))
      → Option (Reply (Unit {0}) × FuseMt P N)
  fsync fs ino fh datasync answer = with_path fs ino λ path. passed_on fs (answer path fh datasync)

  -- The key leads to the file system's handle.
  unfoldable pub fsyncdir :
      FuseMt P N
      → ℕ
      → ℕ
      → Bool
      → (P → ℕ → Bool → Answer (Unit {0}))
      → Option (Reply (Unit {0}) × FuseMt P N)
  fsyncdir fs ino key datasync answer =
      with_path fs ino
        λ path. real_fh fs.directory_cache key >>= λ fh. passed_on fs (answer path fh datasync)

  -- The root's path needs no table.
  unfoldable pub statfs :
      {A : Type 0} → P → FuseMt P N → ℕ → (P → Answer A) → Option (Reply A × FuseMt P N)
  statfs slash fs ino answer =
      if ino == 1
      then passed_on fs (answer slash)
      else with_path fs ino (λ path. passed_on fs (answer path))

  -- The name, the value, the flags and the position.
  unfoldable pub setxattr :
      {D : Type 0}
      → FuseMt P N
      → ℕ
      → N
      → D
      → ℕ
      → ℕ
      → (P → N → D → ℕ → ℕ → Answer (Unit {0}))
      → Option (Reply (Unit {0}) × FuseMt P N)
  setxattr fs ino name value flags position answer =
      with_path fs ino λ path. passed_on fs (answer path name value flags position)

  unfoldable pub getxattr :
      {A : Type 0} → FuseMt P N → ℕ → N → ℕ → (P → N → ℕ → Answer A) → Option (Reply A × FuseMt P N)
  getxattr fs ino name size answer = with_path fs ino λ path. passed_on fs (answer path name size)

  unfoldable pub listxattr :
      {A : Type 0} → FuseMt P N → ℕ → ℕ → (P → ℕ → Answer A) → Option (Reply A × FuseMt P N)
  listxattr fs ino size answer = with_path fs ino λ path. passed_on fs (answer path size)

  unfoldable pub removexattr :
      FuseMt P N → ℕ → N → (P → N → Answer (Unit {0})) → Option (Reply (Unit {0}) × FuseMt P N)
  removexattr fs ino name answer = with_path fs ino λ path. passed_on fs (answer path name)

  unfoldable pub access :
      FuseMt P N → ℕ → ℕ → (P → ℕ → Answer (Unit {0})) → Option (Reply (Unit {0}) × FuseMt P N)
  access fs ino mask answer = with_path fs ino λ path. passed_on fs (answer path mask)

-- What `setattr` is asked to change; `W` is a time or now.
pub record Changes (W T : Type 0) : Type 0 where
  pub mode : Option ℕ
  pub uid : Option ℕ
  pub gid : Option ℕ
  pub size : Option ℕ
  pub atime : Option W
  pub mtime : Option W
  pub fh : Option ℕ
  pub crtime : Option T
  pub chgtime : Option T
  pub bkuptime : Option T
  pub flags : Option ℕ

-- The calls of the file system that `setattr` may make, `S` its state.
pub record Target (P T A S : Type 0) : Type 0 where
  pub chmod : P → Option ℕ → ℕ → S → Answer (Unit {0}) × S
  pub chown : P → Option ℕ → Option ℕ → Option ℕ → S → Answer (Unit {0}) × S
  pub truncate : P → Option ℕ → ℕ → S → Answer (Unit {0}) × S
  pub utimens : P → Option ℕ → Option T → Option T → S → Answer (Unit {0}) × S
  pub utimens_macos :
      P → Option ℕ → Option T → Option T → Option T → Option ℕ → S → Answer (Unit {0}) × S
  pub getattr : P → Option ℕ → S → Answer A × S

abbrev pub is_some : {A : Type 0} → Option A → Bool
is_some none = false
is_some (some a) = true

module _ {A S : Type 0} where
  -- An error is the reply; the calls before it have been made.
  abbrev pub and_then : Answer (Unit {0}) × S → (S → Reply A × S) → Reply A × S
  and_then (err n, s) k = (error n, s)
  and_then (ok tt, s) k = k s

  abbrev pub last : Answer A × S → Reply A × S
  last (err n, s) = (error n, s)
  last (ok a, s) = (replied a, s)

  abbrev pub and_then_for :
      {B : Type 0}
      → Option B
      → (B → S → Answer (Unit {0}) × S)
      → S
      → (S → Reply A × S)
      → Reply A × S
  and_then_for none f s k = k s
  and_then_for (some b) f s k = and_then (f b s) k

  abbrev pub and_then_if : Bool → (S → Answer (Unit {0}) × S) → S → (S → Reply A × S) → Reply A × S
  and_then_if false f s k = k s
  and_then_if true f s k = and_then (f s) k

module _ {P W T A S : Type 0} (time : W → T) (target : Target P T A S) where
  abbrev pub change_times : P → Changes W T → S → (S → Reply A × S) → Reply A × S
  change_times path c s k =
      and_then_if (is_some c.atime || is_some c.mtime)
        (target.utimens path c.fh (Option.map time c.atime) (Option.map time c.mtime)) s k

  abbrev pub change_macos : P → Changes W T → S → (S → Reply A × S) → Reply A × S
  change_macos path c s k =
      and_then_if (is_some c.crtime || is_some c.chgtime || is_some c.bkuptime || is_some c.flags)
        (target.utimens_macos path c.fh c.crtime c.chgtime c.bkuptime c.flags) s k

  unfoldable pub set_attributes : P → Changes W T → S → Reply A × S
  set_attributes path c s =
      and_then_for c.mode (λ mode. target.chmod path c.fh mode) s
        λ s1.
          and_then_if (is_some c.uid || is_some c.gid) (target.chown path c.fh c.uid c.gid) s1 λ s2.
            and_then_for c.size (λ size. target.truncate path c.fh size) s2
              λ s3.
                change_times path c s3
                  λ s4. change_macos path c s4 λ s5. last (target.getattr path c.fh s5)

  unfoldable pub setattr : {N : Type 0} → FuseMt P N → ℕ → Changes W T → S → Option (Reply A × S)
  setattr fs ino c s = InodeTable.get_path fs.inodes ino >>= λ found.
      some (elim found [ none ↦ (error einval, s) | some path ↦ set_attributes path c s ])

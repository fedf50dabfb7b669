-- ===== src/SimpleFs/Setattr.antt =====
-- fuse/src/filesystem.rs: what `setattr` does with a size and a time together.
use fairy.Prelude.{ℕ, ◌≡◌, Option, none, some, arith, nat_eq}
use fairy.SimpleFs.{Time, InodeAttributes, SimpleFs, Request, done, then_run}
use fairy.SimpleFs.Store.{get_inode, write_inode}
use fairy.SimpleFs.Attributes.{
  Changes, TimeOrNow, setattr, set_size_and_times, set_mtime, set_atime, resize, ensure_utimens,
  chosen_time,
}
use fairy.SimpleFs.Handles.{IsKeyed}
use fairy.SimpleFs.Atomic.{run_inversion}
use mathlib.Core.Path.{subst}

set_mtime_inversion :
    (now : Time) (req : Request) (attrs : InodeAttributes) (mtime : TimeOrNow) (s : SimpleFs)
    {s' : SimpleFs} {new : InodeAttributes}
    → set_mtime now req attrs (some mtime) s ≡ done s' new
    → s'.inodes attrs.inode
      ≡ some (record attrs { last_modified = chosen_time mtime now; last_metadata_changed = now })
unfolding set_mtime write_inode
set_mtime_inversion now req attrs mtime s {s'} h =
    let (t, u, o, h1) = run_inversion (ensure_utimens req attrs mtime s) _ h in ground (arith, h1)

-- `setattr` with a size and a time of modification truncates the file, and then stores the attributes
-- that it had read before that: it replies the old size, and that is the size which stays.
setattr_keeps_size :
    (now : ℕ → Time) (req : Request) (inode size : ℕ) (fh : Option ℕ) (mtime : TimeOrNow)
    (s : SimpleFs) {s' : SimpleFs} {attrs new : InodeAttributes}
    → IsKeyed s
    → s.inodes inode ≡ some attrs
    → setattr now req inode
        (record {
          mode = none;
          uid = none;
          gid = none;
          size = some size;
          atime = none;
          mtime = some mtime;
          fh = fh;
        })
        s
      ≡ done s' new
    → (new.size ≡ attrs.size) × (s'.inodes inode ≡ some new)
unfolding IsKeyed setattr set_size_and_times get_inode set_atime
setattr_keeps_size now req inode size fh mtime s {s'} {attrs} {new} keyed e h =
    let (t, u, o, h1) = run_inversion (resize now req inode (some size) fh s) _ (
      subst (λ x. then_run x (λ a. set_size_and_times now req inode a changes) ≡ done s' new) found
        h) in
    let (v, a, o2, h2) = run_inversion (set_mtime (now 2) req attrs (some mtime) t) _ h1 in
    let stored = set_mtime_inversion (now 2) req attrs mtime t o2 in
    ground (arith, stored, keyed inode attrs e, h2)
  where
    changes : Changes
    changes = record {
      mode = none;
      uid = none;
      gid = none;
      size = some size;
      atime = none;
      mtime = some mtime;
      fh = fh;
    }

    found : get_inode inode s ≡ done s attrs
    found = ground arith

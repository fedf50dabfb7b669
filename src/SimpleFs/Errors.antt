-- ===== src/SimpleFs/Errors.antt =====
-- fuse/src/filesystem.rs: a call that replies an error has changed nothing.
use fairy.Prelude.{ℕ, ◌≡◌}
use fairy.Prelude.BTreeMap.{Bytes}
use fairy.Prelude.{ℤ}
use fairy.SimpleFs.{Time, Bincode, SimpleFs, Request, failed, Handler, ◌>>=◌, reply}
use fairy.SimpleFs.Atomic.{Atomic, Atomic-Sure, Undone}
use fairy.SimpleFs.Creating.{mknod, create, mkdir, link}
use mathlib.Core.Path.{subst}
use fairy.SimpleFs.Data.{open_file, opendir, release, write}
use fairy.SimpleFs.Attributes.{setxattr, removexattr}
use fairy.SimpleFs.Removing.{unlink, rmdir, rename}
use fairy.SimpleFs.Undoing.{
  finished, Atomic-mknod, Atomic-create, Atomic-mkdir, Atomic-link, Atomic-unlink, Atomic-rmdir,
  Atomic-rename, Atomic-open_file, Atomic-opendir, Atomic-write, Atomic-setxattr,
  Atomic-removexattr, Sure-release,
}

module _ ⦃bin : Bincode⦄ where
  -- The calls that change the store.
  pub data Call : Type 0 where
    call_mknod : ℕ → Bytes → ℕ → Call
    call_create : ℕ → Bytes → ℕ → ℕ → Call
    call_mkdir : ℕ → Bytes → ℕ → Call
    call_link : ℕ → ℕ → Bytes → Call
    call_unlink : ℕ → Bytes → Call
    call_rmdir : ℕ → Bytes → Call
    call_rename : ℕ → Bytes → ℕ → Bytes → ℕ → Call
    call_open : ℕ → ℕ → Call
    call_opendir : ℕ → ℕ → Call
    call_release : ℕ → Call
    call_write : ℕ → ℕ → ℤ → Bytes → Call
    call_setxattr : ℕ → Bytes → Bytes → Call
    call_removexattr : ℕ → Bytes → Call

  abbrev ignore : {A : Type 0} → Handler A → Handler (Unit {0})
  ignore m = m >>= λ a. reply tt

  unfoldable pub run_call : (ℕ → Time) → Request → Call → Handler (Unit {0})
  run_call now req (call_mknod parent name mode) = ignore (mknod now req parent name mode)
  run_call now req (call_create parent name mode flags) =
      ignore (create now req parent name mode flags)
  run_call now req (call_mkdir parent name mode) = ignore (mkdir now req parent name mode)
  run_call now req (call_link inode new_parent new_name) =
      ignore (link now req inode new_parent new_name)
  run_call now req (call_unlink parent name) = unlink now req parent name
  run_call now req (call_rmdir parent name) = rmdir now req parent name
  run_call now req (call_rename parent name new_parent new_name flags) =
      rename now req parent name new_parent new_name flags
  run_call now req (call_open inode flags) = ignore (open_file req inode flags)
  run_call now req (call_opendir inode flags) = ignore (opendir req inode flags)
  run_call now req (call_release inode) = release inode
  run_call now req (call_write inode fh offset bytes) = ignore (write now inode fh offset bytes)
  run_call now req (call_setxattr inode key value) = setxattr (now 0) req inode key value
  run_call now req (call_removexattr inode key) = removexattr (now 0) req inode key

  run_call-Atomic : (now : ℕ → Time) (req : Request) (call : Call) → Atomic (run_call now req call)
  unfolding run_call
  run_call-Atomic now req (call_mknod parent name mode) = search (finished, Atomic-mknod)
  run_call-Atomic now req (call_create parent name mode flags) = search (finished, Atomic-create)
  run_call-Atomic now req (call_mkdir parent name mode) = search (finished, Atomic-mkdir)
  run_call-Atomic now req (call_link inode new_parent new_name) = search (finished, Atomic-link)
  run_call-Atomic now req (call_unlink parent name) = Atomic-unlink now req parent name
  run_call-Atomic now req (call_rmdir parent name) = Atomic-rmdir now req parent name
  run_call-Atomic now req (call_rename parent name new_parent new_name flags) =
      Atomic-rename now req parent name new_parent new_name flags
  run_call-Atomic now req (call_open inode flags) = search (finished, Atomic-open_file)
  run_call-Atomic now req (call_opendir inode flags) = search (finished, Atomic-opendir)
  run_call-Atomic now req (call_release inode) = Atomic-Sure (Sure-release inode)
  run_call-Atomic now req (call_write inode fh offset bytes) = search (finished, Atomic-write)
  run_call-Atomic now req (call_setxattr inode key value) =
      Atomic-setxattr (now 0) req inode key value
  run_call-Atomic now req (call_removexattr inode key) = Atomic-removexattr (now 0) req inode key

  -- When one of these calls replies an error, the whole store is as it was before the call.
  pub run_call_undone :
      (now : ℕ → Time) (req : Request) (call : Call) (s : SimpleFs) {s' : SimpleFs} {error : ℕ}
      → run_call now req call s ≡ failed s' error
      → s' ≡ s
  run_call_undone now req call s h = subst (Undone s) h ((run_call-Atomic now req call).undo s)

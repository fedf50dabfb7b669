-- ===== src/Session/Serving.antt =====
-- fuse/src/uring_fuse/filesystem.rs: what the methods do that a file system does not define; and the file
-- system of uring_fs as one that a session serves.
use fairy.Prelude.{ℕ, ◌≡◌, refl, Bool, true, false, Option, none, some, List, [], ◌∷◌}
use fairy.Prelude.BTreeMap.{Bytes}
use fairy.UringFs.{UringFilesystem, FileAttr, Entry, Created, DirectoryEntry, Reply}
use fairy.UringFs
use fairy.UringFs.Index.{IsIndexed, lookup-created}
use fairy.Session.{
  Session, Filesystem, Request, sent, called, answered, Use, answers, errors, InitResult, accepted,
  is_denied, dispatch, dispatch_req, handle, enosys, eperm,
}
use fairy.Session.Config.{KernelConfig}
use fairy.Session.Operations.{Operation, Call}

-- The answers of the reply types; `filled` is a directory's, `statistics` has its first six zeros left out.
pub data Answer : Type 0 where
  done : Answer
  opened : ℕ → ℕ → Answer
  statistics : ℕ → ℕ → Answer
  entry : Entry → Answer
  attributes : ℕ × FileAttr → Answer
  made : Created → Answer
  written : ℕ → Answer
  filled : List DirectoryEntry → Answer

unfoldable pub default_call : Call → Use Answer
default_call (Call.symlink parent name link) = errors eperm
default_call (Call.link ino newparent newname) = errors eperm
default_call (Call.open_file ino flags) = answers (opened 0 0)
default_call (Call.release ino fh flags lock_owner flushes) = answers done
default_call (Call.opendir ino flags) = answers (opened 0 0)
default_call (Call.releasedir ino fh flags) = answers done
default_call (Call.statfs ino) = answers (statistics 512 255)
default_call call = errors enosys

abbrev pub default_init : {S : Type 0} → KernelConfig → S → InitResult × KernelConfig × S
default_init config s = (accepted, config, s)

unfoldable pub default_batch_forget : {S : Type 0} → (ℕ → ℕ → S → S) → List (ℕ × ℕ) → S → S
default_batch_forget forget [] s = s
default_batch_forget forget ((node, nlookup) ∷ nodes) s =
    default_batch_forget forget nodes (forget node nlookup s)

abbrev pub used :
    {A : Type 0}
    → (A → Answer)
    → UringFilesystem
    → UringFs.Reply A
    → Option (Use Answer × UringFilesystem)
used f fs (UringFs.replied a) = some (answers (f a), fs)
used f fs (UringFs.error n) = some (errors n, fs)
used f fs UringFs.panic = none

-- `full size` tells whether a directory's reply of a size has no room for one more entry.
module _ (valid : Bytes → Bool) (full : ℕ → List DirectoryEntry → DirectoryEntry → Bool) where
  unfoldable pub uring_call : Call → UringFilesystem → Option (Use Answer × UringFilesystem)
  unfolding default_call
  uring_call (Call.lookup parent name) fs = used entry fs (UringFs.lookup valid fs parent name)
  uring_call (Call.getattr ino) fs = used attributes fs (UringFs.getattr fs ino)
  uring_call (Call.setattr ino changes) fs = used attributes fs (UringFs.setattr fs ino)
  uring_call (Call.write ino fh offset bytes write_flags flags lock_owner) fs =
      used written fs (UringFs.write fs ino bytes)
  uring_call (Call.readdir ino fh offset size) fs =
      used filled fs (UringFs.readdir (full size) fs ino offset)
  uring_call (Call.create parent name mode umask flags) fs =
      let (reply, fs') = UringFs.create valid fs parent name in used made fs' reply
  uring_call call fs = some (default_call call, fs)

  abbrev pub uring : Filesystem UringFilesystem Answer
  uring = record {
    init = default_init;
    destroy = λ fs. fs;
    call = uring_call;
    forget = λ node nlookup fs. fs;
    batch_forget = default_batch_forget (λ node nlookup fs. fs);
  }

  -- A session that is initialised, not destroyed, and does not deny the user serves a call.
  abbrev Serves : Session UringFilesystem → ℕ → Type 0
  Serves se uid =
      (se.initialized ≡ true)
      × (se.destroyed ≡ false)
      × (is_denied se.allowed se.session_owner uid ≡ false)

  -- What a client creates through a session, a client finds through the session: the reply to LOOKUP has the
  -- attributes that the reply to CREATE had, with the number that was free.
  pub dispatch-create-lookup :
      (page : ℕ) (se : Session UringFilesystem) (req req' : Request) (name : Bytes)
      (mode umask flags : ℕ) (c : Created) (fs' : UringFilesystem)
      → IsIndexed se.filesystem.inode_manager
      → Serves se req.uid
      → Serves se req'.uid
      → req.operation ≡ some (Operation.create name mode umask flags)
      → req'.operation ≡ some (Operation.lookup name)
      → req'.nodeid ≡ req.nodeid
      → UringFs.create valid se.filesystem req.nodeid name ≡ (UringFs.replied c, fs')
      → (dispatch uring page se req
          ≡ some (
            called (Call.create req.nodeid name mode umask flags)
                ∷ sent req.unique (answered (made c))
                ∷ [],
            record se { filesystem = fs' },
          ))
        × (dispatch uring page (record se { filesystem = fs' }) req'
            ≡ some (
              called (Call.lookup req.nodeid name)
                  ∷ sent req'.unique (
                      answered
                        (entry (record { ttl = 100000; attr = c.entry.attr; generation = 0 })))
                  ∷ [],
              record se { filesystem = fs' },
            ))
        × (c.entry.attr.ino ≡ se.filesystem.inode_manager.next_ino)
  unfolding dispatch dispatch_req handle uring_call
  dispatch-create-lookup page se req req' name mode umask flags c fs' v s s' asked asked' same
        made_it =
      let (i, d, a) = s in
      let (_, _, a') = s' in
      let (found, number) = lookup-created valid se.filesystem req.nodeid name v made_it in
      (rw (asked, i, d, a, made_it) refl, rw (asked', i, d, a', same, found) refl, number)

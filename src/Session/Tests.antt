-- ===== src/Session/Tests.antt =====
-- fuse/src/uring_fuse: sessions of the file system of uring_fs, with one file, and instances of their laws.
use fairy.Prelude.{
  ℕ, ◌≡◌, refl, Bool, true, false, some, List, [], ◌∷◌, ◌||◌, not, inl, Post, arith,
}
use fairy.MountOptions.{
  MountOption, auto_unmount, allow_root, allow_other, no_exec, contains, check_option_conflicts,
  conflicts_with, same_option,
}
use fairy.UringFs.{UringFilesystem, DirectoryEntry}
use fairy.UringFs.Tests.{
  valid, empty_fs, name_a, created_a, one_file, creates_a, empty_fs-IsIndexed,
}
use fairy.Session.{
  Filesystem, accepted, keeps, drops, use_reply, Session, Request, empty, destroyed, called, sent,
  failed, answered, dispatch, dispatch_req, handle, is_denied, owner, eacces,
}
use fairy.Session.Config.{
  KernelConfig, SetResult, previous, advice, Setting, with_value, answer, set_all,
  set_time_granularity, power_below,
}
use fairy.Session.Config
use fairy.Session.Limits.{IsValid, set_all_limits}
use fairy.Session.Operations.{Operation, Call, without_uid}
use fairy.Session.Running.{Received, request, failure, run, new, mounted_options}
use fairy.Session.Protocol.{Handled}
use fairy.Session.Replies.{was_sent, was_kept, Answers, requests, uniques, run-Answers}
use fairy.Session.Access.{mounted_options-compatible, run-denies}
use fairy.Session.Serving.{uring, made, entry, dispatch-create-lookup}

abbrev roomy : ℕ → List DirectoryEntry → DirectoryEntry → Bool
roomy size entries e = false

abbrev page : ℕ
page = 4096

abbrev settings : List Setting
settings = Setting.max_write 8192 ∷ Setting.max_write 0 ∷ Setting.time_granularity 1000 ∷ []

set_all_limits_example : IsValid 131072 (set_all (Config.init 0 131072) settings)
set_all_limits_example = set_all_limits 0 131072 settings

advises_ten : answer (Config.init 0 131072) (Setting.time_granularity 15) ≡ advice 10
unfolding answer set_time_granularity power_below
advises_ten = refl

abbrev options : List MountOption
options = auto_unmount ∷ no_exec ∷ []

abbrev asked : ℕ → ℕ → Operation → Request
asked unique uid op = record { unique = unique; nodeid = 1; uid = uid; operation = some op }

-- A session that is initialised, used, destroyed, and used again.
abbrev received : List Received
received =
    request (some (asked 1 0 (Operation.init 7 31 0 131072)))
    ∷ request (some (asked 2 1000 (Operation.create name_a 420 0 0)))
    ∷ failure 4
    ∷ request (some (asked 3 0 (Operation.forget 1)))
    ∷ request (some (asked 4 0 Operation.destroy))
    ∷ request (some (asked 5 1000 (Operation.lookup name_a)))
    ∷ []

-- A file system that gives every reply to another thread.
abbrev threaded : Filesystem ℕ ℕ
threaded = record {
  init = λ config s. (accepted, config, s);
  destroy = λ s. s;
  call = λ c s. some (keeps, s);
  forget = λ node nlookup s. s;
  batch_forget = λ nodes s. s;
}

run-Answers_example :
    Post
      (run threaded page (new 0 options 1000) received)
      (λ r. Answers (requests received) (uniques r.0))
    × Post
        (use_reply {R = ℕ} (record { unique = 2; sender = true }) drops)
        (Handled {R = ℕ} 2 drops)
run-Answers_example = run-Answers threaded page received (new 0 options 1000) 2 drops

-- The reply to CREATE is kept; LOOKUP comes after the file system is destroyed.
fates :
    Post
      (run threaded page (new 0 options 1000) received)
      (λ r. uniques r.0 ≡ (1, was_sent) ∷ (2, was_kept) ∷ (4, was_sent) ∷ (5, was_sent) ∷ [])
unfolding run dispatch dispatch_req handle is_denied new same_option Config.init
fates = refl

compatible : check_option_conflicts options ≡ false
unfolding check_option_conflicts conflicts_with same_option
compatible = refl

mounted_options-compatible_example :
    (check_option_conflicts (mounted_options options) ≡ false)
    × ((not (contains options auto_unmount)
          || contains (mounted_options options) allow_other
          || contains (mounted_options options) allow_root)
        ≡ true)
mounted_options-compatible_example = mounted_options-compatible options compatible

not_other : contains options allow_other ≡ false
unfolding same_option
not_other = refl

not_root : contains options allow_root ≡ false
unfolding same_option
not_root = refl

abbrev foreign : Request
foreign = asked 6 33 (Operation.unlink name_a)

needs_uid : without_uid (Operation.unlink name_a) ≡ false
unfolding without_uid
needs_uid = refl

run-denies_example :
    Post
      (run (uring valid roomy) page (new empty_fs options 1000) received)
      (λ r. dispatch (uring valid roomy) page r.1 foreign ≡ some (sent 6 (failed eacces) ∷ [], r.1))
run-denies_example =
    run-denies (uring valid roomy) page empty_fs options 1000 received foreign
      (Operation.unlink name_a) not_other (omega arith) (inl not_root) refl needs_uid

abbrev serving : UringFilesystem → Session UringFilesystem
serving fs = record {
  filesystem = fs;
  allowed = owner;
  session_owner = 1000;
  proto_major = 7;
  proto_minor = 31;
  initialized = true;
  destroyed = false;
}

owner_served : is_denied owner 1000 1000 ≡ false
unfolding is_denied
owner_served = refl

dispatch-create-lookup_example :
    (dispatch
        (uring valid roomy)
        page
        (serving empty_fs)
        (asked 2 1000 (Operation.create name_a 420 0 0))
      ≡ some (
        called (Call.create 1 name_a 420 0 0) ∷ sent 2 (answered (made created_a)) ∷ [],
        serving one_file,
      ))
    × (dispatch (uring valid roomy) page (serving one_file) (asked 3 1000 (Operation.lookup name_a))
        ≡ some (
          called (Call.lookup 1 name_a)
              ∷ sent 3 (
                  answered
                    (entry (record { ttl = 100000; attr = created_a.entry.attr; generation = 0 })))
              ∷ [],
          serving one_file,
        ))
    × (created_a.entry.attr.ino ≡ empty_fs.inode_manager.next_ino)
dispatch-create-lookup_example =
    dispatch-create-lookup valid roomy page (serving empty_fs)
      (asked 2 1000 (Operation.create name_a 420 0 0)) (asked 3 1000 (Operation.lookup name_a))
      name_a 420 0 0 created_a one_file empty_fs-IsIndexed (refl, refl, owner_served)
      (refl, refl, owner_served) refl refl refl creates_a

-- A file system that was destroyed is destroyed again when the kernel asks for it.
abbrev gone : Session UringFilesystem
gone = record (serving one_file) { destroyed = true }

destroyed_again :
    dispatch (uring valid roomy) page gone (asked 7 0 Operation.destroy)
    ≡ some (destroyed ∷ sent 7 empty ∷ [], gone)
unfolding dispatch dispatch_req handle is_denied without_uid
destroyed_again = refl

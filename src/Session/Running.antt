-- ===== src/Session/Running.antt =====
-- fuse/src/uring_fuse/session.rs: how a session begins, its loop over what it receives, and its end.
use fairy.Prelude.{
  ℕ, Bool, true, false, ◌&&◌, ◌||◌, not, Option, none, some, List, [], ◌∷◌, ◌++◌, ◌==◌,
  if◌then◌else◌, ◌>>=◌,
}
use fairy.MountOptions.{MountOption, allow_other, allow_root, auto_unmount, contains}
use fairy.Session.{
  Session, SessionAcl, all, root_and_owner, owner, Filesystem, Request, Event, destroyed, dispatch,
  enoent, eintr, eagain, enodev,
}

-- The options that the mount is made with.
unfoldable pub mounted_options : List MountOption → List MountOption
mounted_options options =
    if contains options auto_unmount
      && not (contains options allow_root || contains options allow_other)
    then options ++ (allow_other ∷ [])
    else options

unfoldable pub allowed_for : List MountOption → SessionAcl
allowed_for options =
    if contains options allow_root
    then root_and_owner
    else if contains options allow_other
    then all
    else owner

-- With the effective user; the mount has succeeded.
unfoldable pub new : {S : Type 0} → S → List MountOption → ℕ → Session S
unfolding allowed_for
new filesystem options euid = record {
  filesystem = filesystem;
  allowed = allowed_for options;
  session_owner = euid;
  proto_major = 0;
  proto_minor = 0;
  initialized = false;
  destroyed = false;
}

-- What a read of the channel gives: a request, none where its header is illegal; or an error.
pub data Received : Type 0 where
  request : Option Request → Received
  failure : ℕ → Received

pub data Status : Type 0 where
  waiting finished : Status
  failed : ℕ → Status

abbrev pub is_retried : ℕ → Bool
is_retried n = (n == enoent) || (n == eintr) || (n == eagain)

module _ {S R : Type 0} (fs : Filesystem S R) (page : ℕ) where
  unfoldable pub run : Session S → List Received → Option (List (Event R) × Session S × Status)
  run se [] = some ([], se, waiting)
  run se (request none ∷ rest) = some ([], se, finished)
  run se (request (some req) ∷ rest) =
      dispatch fs page se req >>= λ d. run d.1 rest >>= λ r. some (d.0 ++ r.0, r.1, r.2)
  run se (failure n ∷ rest) =
      let continued = run se rest in
      if is_retried n
      then continued
      else if n == enodev
      then some ([], se, finished)
      else some ([], se, failed n)

  -- `Drop for Session`.
  unfoldable pub drop_session : Session S → List (Event R) × Session S
  drop_session se =
      if se.destroyed
      then ([], se)
      else (destroyed ∷ [], record se { filesystem = fs.destroy se.filesystem; destroyed = true })

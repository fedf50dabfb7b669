-- ===== src/Session.antt =====
-- fuse/src/uring_fuse: a session of a file system with the kernel. session.rs has the session and its
-- loop, request.rs the dispatch of a request, reply/reply_raw.rs the reply that is sent once. `S` is
-- the state of the file system and `R` what it answers; none is a panic.
pub mod Config
pub mod Limits
pub mod Operations
pub mod Routes
pub mod Running
pub mod Protocol
pub mod Replies
pub mod Access
pub mod Serving
pub mod Tests
use fairy.Prelude.{
  ℕ, zero, suc, Bool, true, false, ◌&&◌, ◌||◌, not, Option, none, some, List, [], ◌∷◌, ◌++◌, ltb,
  ◌==◌, if◌then◌else◌, ◌>>=◌,
}
use fairy.Session.Config.{KernelConfig, congestion_threshold, max_pages}
use fairy.Session.Config
use Prim.Native.Nat.{bit_and}
use fairy.Session.Operations.{Operation, Call, without_uid}
use fairy.Session.Routes.{Route, calls, forgets, forgets_all, unsupported, panics, route}

abbrev pub eperm : ℕ
eperm = 1

abbrev pub enoent : ℕ
enoent = 2

abbrev pub eintr : ℕ
eintr = 4

abbrev pub eio : ℕ
eio = 5

abbrev pub eagain : ℕ
eagain = 11

abbrev pub eacces : ℕ
eacces = 13

abbrev pub enodev : ℕ
enodev = 19

abbrev pub enosys : ℕ
enosys = 38

abbrev pub eproto : ℕ
eproto = 71

abbrev pub from_i32 : ℕ → ℕ
from_i32 n = if n == 0 then eio else n

-- `fuse_init_out`.
pub record InitOut : Type 0 where
  pub max_readahead : ℕ
  pub flags : ℕ
  pub max_background : ℕ
  pub congestion_threshold : ℕ
  pub max_write : ℕ
  pub time_gran : ℕ
  pub max_pages : ℕ

pub data Response (R : Type 0) : Type 0 where
  failed : ℕ → Response R
  empty : Response R
  started : InitOut → Response R
  answered : R → Response R

-- What a method, or the thread that it gave its reply to, does with the reply: it answers, reports an
-- error, drops it, or keeps it for later, which may be on another thread.
pub data Use (R : Type 0) : Type 0 where
  answers : R → Use R
  errors : ℕ → Use R
  drops : Use R
  keeps : Use R

-- What the session does: calls of the file system, what it sends for the request of a number, and the
-- reply to a request that is kept when a call returns.
pub data Event (R : Type 0) : Type 0 where
  initialized : Bool → Event R
  destroyed : Event R
  called : Call → Event R
  forgotten : List (ℕ × ℕ) → Event R
  sent : ℕ → Response R → Event R
  kept : ℕ → Event R

-- `Result<(), c_int>`
pub data InitResult : Type 0 where
  accepted : InitResult
  refused : ℕ → InitResult

pub record Filesystem (S R : Type 0) : Type 0 where
  pub init : KernelConfig → S → InitResult × KernelConfig × S
  pub destroy : S → S
  pub call : Call → S → Option (Use R × S)
  pub forget : ℕ → ℕ → S → S
  pub batch_forget : List (ℕ × ℕ) → S → S

pub data SessionAcl : Type 0 where
  all root_and_owner owner : SessionAcl

pub record Session (S : Type 0) : Type 0 where
  pub filesystem : S
  pub allowed : SessionAcl
  pub session_owner : ℕ
  pub proto_major : ℕ
  pub proto_minor : ℕ
  pub initialized : Bool
  pub destroyed : Bool

-- A request; its operation is none where its arguments cannot be decoded.
pub record Request : Type 0 where
  pub unique : ℕ
  pub nodeid : ℕ
  pub uid : ℕ
  pub operation : Option Operation

-- Whether the sender is still there.
pub record ReplyRaw : Type 0 where
  pub unique : ℕ
  pub sender : Bool

module _ {R : Type 0} where
  unfoldable pub send_ll_mut : ReplyRaw → Response R → Option (ReplyRaw × List (Event R))
  send_ll_mut r response =
      if r.sender then some (record r { sender = false }, sent r.unique response ∷ []) else none

  unfoldable pub error : ReplyRaw → ℕ → Option (ReplyRaw × List (Event R))
  unfolding send_ll_mut
  error r err = if err == 0 then none else send_ll_mut r (failed (from_i32 err))

  unfoldable pub drop_reply : ReplyRaw → Option (List (Event R))
  unfolding send_ll_mut
  drop_reply r = if r.sender then (send_ll_mut r (failed eio) >>= λ s. some s.1) else some []

  -- Each way to use a reply up ends with its drop.
  abbrev pub then_dropped : Option (ReplyRaw × List (Event R)) → Option (List (Event R))
  then_dropped m = m >>= λ s. drop_reply s.0 >>= λ events. some (s.1 ++ events)

  unfoldable pub use_reply : ReplyRaw → Use R → Option (List (Event R))
  unfolding send_ll_mut error drop_reply
  use_reply r (answers answer) = then_dropped (send_ll_mut r (answered answer))
  use_reply r (errors n) = then_dropped (error r n)
  use_reply r drops = drop_reply r
  use_reply r keeps = some (kept r.unique ∷ [])

-- What `dispatch_req` returns: a response, nothing, or an error.
pub data Outcome (R : Type 0) : Type 0 where
  responds : Response R → Outcome R
  replies : Outcome R
  fails : ℕ → Outcome R

abbrev pub Dispatched : Type 0 → Type 0 → Type 0
Dispatched S R = Option (Outcome R × List (Event R) × Session S)

unfoldable pub is_denied : SessionAcl → ℕ → ℕ → Bool
is_denied all session_owner uid = false
is_denied root_and_owner session_owner uid = not (uid == session_owner) && not (uid == 0)
is_denied owner session_owner uid = not (uid == session_owner)

-- `page` is the size of a page.
unfoldable pub init_reply : ℕ → ℕ → KernelConfig → Option InitOut
unfolding congestion_threshold max_pages
init_reply page capabilities c = max_pages page c >>= λ pages. some (record {
  max_readahead = c.max_readahead;
  flags = bit_and capabilities c.requested;
  max_background = c.max_background;
  congestion_threshold = congestion_threshold c;
  max_write = c.max_write;
  time_gran = c.time_gran;
  max_pages = pages;
})

module _ {S R : Type 0} (fs : Filesystem S R) (page : ℕ) where
  abbrev pub refuse : ℕ → Session S → Dispatched S R
  refuse n se = some (fails n, [], se)

  abbrev pub started_with : ℕ → InitResult × KernelConfig × S → Session S → Dispatched S R
  started_with capabilities (refused n, config, s) se =
      some (fails (from_i32 n), initialized false ∷ [], record se { filesystem = s })
  started_with capabilities (accepted, config, s) se =
      init_reply page capabilities config >>= λ out. some (
        responds (started out),
        initialized true ∷ [],
        record se { filesystem = s; initialized = true },
      )

  unfoldable pub start : Session S → ℕ → ℕ → ℕ → ℕ → Dispatched S R
  unfolding init_reply
  start se major minor capabilities max_readahead =
      if ltb major 7 || ((major == 7) && ltb minor 6)
      then refuse eproto se
      else started_with capabilities
          (fs.init (Config.init capabilities max_readahead) se.filesystem)
          (record se { proto_major = major; proto_minor = minor })

  abbrev pub served : Request → Call → Session S → Use R × S → Dispatched S R
  served req c se (use_of, s) =
      use_reply (record { unique = req.unique; sender = true }) use_of >>= λ events.
      some (replies, called c ∷ events, record se { filesystem = s })

  abbrev pub follow : Request → Session S → Route → Dispatched S R
  follow req se (calls c) = fs.call c se.filesystem >>= λ r. served req c se r
  follow req se (forgets node nlookup) = some (
    replies,
    forgotten ((node, nlookup) ∷ []) ∷ [],
    record se { filesystem = fs.forget node nlookup se.filesystem },
  )
  follow req se (forgets_all nodes) = some (
    replies,
    forgotten nodes ∷ [],
    record se { filesystem = fs.batch_forget nodes se.filesystem },
  )
  follow req se unsupported = refuse enosys se
  follow req se panics = none

  abbrev pub when_initialized : Request → Operation → Session S → Dispatched S R
  when_initialized req Operation.destroy se = some (
    responds empty,
    destroyed ∷ [],
    record se { filesystem = fs.destroy se.filesystem; destroyed = true },
  )
  when_initialized req op se =
      if se.destroyed then refuse eio se else follow req se (route req.nodeid op)

  unfoldable pub handle : Request → Operation → Session S → Dispatched S R
  unfolding start route use_reply
  handle req (Operation.init major minor capabilities max_readahead) se =
      start se major minor capabilities max_readahead
  handle req op se = if se.initialized then when_initialized req op se else refuse eio se

  abbrev pub checked : Session S → Request → Option Operation → Dispatched S R
  checked se req none = refuse enosys se
  checked se req (some op) =
      if is_denied se.allowed se.session_owner req.uid && not (without_uid op)
      then refuse eacces se
      else handle req op se

  unfoldable pub dispatch_req : Session S → Request → Dispatched S R
  unfolding handle is_denied without_uid
  dispatch_req se req = checked se req req.operation

  abbrev pub respond : ℕ → Outcome R × List (Event R) × Session S → List (Event R) × Session S
  respond unique (responds response, events, se) = (events ++ (sent unique response ∷ []), se)
  respond unique (replies, events, se) = (events, se)
  respond unique (fails n, events, se) = (events ++ (sent unique (failed n) ∷ []), se)

  unfoldable pub dispatch : Session S → Request → Option (List (Event R) × Session S)
  unfolding dispatch_req
  dispatch se req = dispatch_req se req >>= λ r. some (respond req.unique r)

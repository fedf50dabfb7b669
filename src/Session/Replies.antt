-- ===== src/Session/Replies.antt =====
-- fuse/src/uring_fuse: which requests are replied to, and how often.
use fairy.Prelude.{
  ℕ, ◌≡◌, refl, Bool, true, false, Option, none, some, List, [], ◌∷◌, ◌++◌, ◌⊎◌, inl, inr, Post,
  Post->>=, Post-if, Post-elim, ◌==◌, ◌^◌, ltb, leb, length, ◌∙◌, ◌&&◌, ◌||◌, not, ap, Bool-cases,
  if◌then◌else◌,
}
use fairy.Session.{
  Session, Filesystem, Request, Event, initialized, destroyed, called, forgotten, sent, kept, Use,
  answers, errors, drops, keeps, Outcome, responds, replies, fails, Dispatched, InitResult,
  accepted, refused, use_reply, init_reply, start, started_with, follow, handle, when_initialized,
  checked, dispatch_req, respond, dispatch, is_denied, refuse, eio, enodev,
}
use fairy.Session.Config.{KernelConfig}
use fairy.Session.Config
use fairy.Session.Operations.{Operation, Call, without_uid}
use fairy.Session.Routes.{Route, calls, forgets, forgets_all, unsupported, panics, route}
use fairy.Session.Running.{Received, request, failure, run, is_retried}
use fairy.Session.Protocol.{Handled, use_reply-Handled}

-- A response is sent, or the reply is kept by the file system.
pub data Fate : Type 0 where
  was_sent was_kept : Fate

-- The requests, by their numbers, for which a response is sent or a reply is kept.
abbrev pub uniques : {R : Type 0} → List (Event R) → List (ℕ × Fate)
uniques [] = []
uniques (sent unique response ∷ events) = (unique, was_sent) ∷ uniques events
uniques (kept unique ∷ events) = (unique, was_kept) ∷ uniques events
uniques (initialized success ∷ events) = uniques events
uniques (destroyed ∷ events) = uniques events
uniques (called call ∷ events) = uniques events
uniques (forgotten nodes ∷ events) = uniques events

abbrev pub Forgets : Operation → Type 0
Forgets op =
    ((nlookup : ℕ) × (op ≡ Operation.forget nlookup))
    ⊎ ((nodes : List (ℕ × ℕ)) × (op ≡ Operation.batch_forget nodes))

-- Each request has one response or one kept reply, in order, or tells to forget and has neither.
abbrev pub Answers : List Request → List (ℕ × Fate) → Type 0
Answers [] us = us ≡ []
Answers (req ∷ reqs) us =
    ((fate : Fate) × (rest : List (ℕ × Fate)) × (us ≡ (req.unique, fate) ∷ rest)
      × Answers reqs rest)
    ⊎ ((op : Operation) × (req.operation ≡ some op) × Forgets op × Answers reqs us)

-- The requests before the loop ends: at an illegal request, or at an error that is not to be retried.
abbrev pub requests : List Received → List Request
requests [] = []
requests (request none ∷ rest) = []
requests (request (some req) ∷ rest) = req ∷ requests rest
requests (failure n ∷ rest) = if is_retried n then requests rest else []

abbrev IsForgetting : Route → Type 0
IsForgetting (calls c) = ⊥
IsForgetting (forgets node nlookup) = Unit
IsForgetting (forgets_all nodes) = Unit
IsForgetting unsupported = ⊥
IsForgetting panics = ⊥

not_forgetting : (b : Bool) (c : Call) → IsForgetting (if b then calls c else panics) → ⊥
not_forgetting true c h = h
not_forgetting false c h = h

route-Forgets : (node : ℕ) (op : Operation) → IsForgetting (route node op) → Forgets op
unfolding route
route-Forgets node (Operation.forget nlookup) h = inl (nlookup, refl)
route-Forgets node (Operation.batch_forget nodes) h = inr (nodes, refl)
route-Forgets node (Operation.ioctl true fh flags command in_size bytes out_size) h = absurd h
route-Forgets node (Operation.ioctl false fh flags command in_size bytes out_size) h =
    absurd (not_forgetting (leb in_size (length bytes)) _ h)
route-Forgets node (Operation.copy_file_range src dest size flags) h =
    absurd (not_forgetting (ltb flags (2 ^ 32)) _ h)
route-Forgets node op h = absurd h

module _ {R : Type 0} where
  uniques-++ : (xs ys : List (Event R)) → uniques (xs ++ ys) ≡ uniques xs ++ uniques ys
  uniques-++ [] ys = refl
  uniques-++ (sent unique response ∷ xs) ys = ap (◌∷◌ (unique, was_sent)) (uniques-++ xs ys)
  uniques-++ (kept unique ∷ xs) ys = ap (◌∷◌ (unique, was_kept)) (uniques-++ xs ys)
  uniques-++ (initialized success ∷ xs) ys = uniques-++ xs ys
  uniques-++ (destroyed ∷ xs) ys = uniques-++ xs ys
  uniques-++ (called call ∷ xs) ys = uniques-++ xs ys
  uniques-++ (forgotten nodes ∷ xs) ys = uniques-++ xs ys

  -- One response or kept reply, or neither for a request that tells to forget.
  abbrev Once : ℕ → Type 0 → List (Event R) → Type 0
  Once unique Quiet events =
      ((fate : Fate) × (uniques events ≡ (unique, fate) ∷ [])) ⊎ (Quiet × (uniques events ≡ []))

  -- Nothing is sent before the response that is returned.
  abbrev Pending : {S : Type 0} → ℕ → Type 0 → Outcome R × List (Event R) × Session S → Type 0
  Pending unique Quiet (responds response, events, se) = uniques events ≡ []
  Pending unique Quiet (replies, events, se) = Once unique Quiet events
  Pending unique Quiet (fails n, events, se) = uniques events ≡ []

  Handled-fate :
      (unique : ℕ) (u : Use R) (events : List (Event R))
      → Handled unique u events
      → (fate : Fate) × (uniques events ≡ (unique, fate) ∷ [])
  Handled-fate unique keeps events h = (was_kept, ap uniques h)
  Handled-fate unique (answers answer) events (response, h) = (was_sent, ap uniques h)
  Handled-fate unique (errors n) events (response, h) = (was_sent, ap uniques h)
  Handled-fate unique drops events (response, h) = (was_sent, ap uniques h)

module _ {S R : Type 0} (fs : Filesystem S R) (page : ℕ) where
  started_with-Pending :
      (Quiet : Type 0) (unique capabilities : ℕ) (r : InitResult × KernelConfig × S)
      (se : Session S)
      → Post (started_with fs page capabilities r se) (Pending unique Quiet)
  started_with-Pending Quiet unique capabilities (refused n, config, s) se = refl
  started_with-Pending Quiet unique capabilities (accepted, config, s) se =
      Post->>= (init_reply page capabilities config) _ _ λ out h. refl

  start-Pending :
      (Quiet : Type 0) (unique : ℕ) (se : Session S) (major minor capabilities max_readahead : ℕ)
      → Post (start fs page se major minor capabilities max_readahead) (Pending unique Quiet)
  unfolding start
  start-Pending Quiet unique se major minor capabilities max_readahead =
      Post-if (ltb major 7 || ((major == 7) && ltb minor 6)) _ _ (Pending unique Quiet) (λ _. refl)
        (λ _.
          started_with-Pending Quiet unique capabilities
            (fs.init (Config.init capabilities max_readahead) se.filesystem)
            (record se { proto_major = major; proto_minor = minor }))

  follow-Pending :
      (req : Request) (se : Session S) (r : Route)
      → Post (follow fs page req se r) (Pending req.unique (IsForgetting r))
  follow-Pending req se (calls c) = Post->>= (fs.call c se.filesystem) _ _ λ r h.
      Post->>= (use_reply (record { unique = req.unique; sender = true }) r.0) _ _ λ events e.
        inl
          (Handled-fate req.unique r.0 events (Post-elim _ _ (use_reply-Handled req.unique r.0) e))
  follow-Pending req se (forgets node nlookup) = inr (tt, refl)
  follow-Pending req se (forgets_all nodes) = inr (tt, refl)
  follow-Pending req se unsupported = refl
  follow-Pending req se panics = tt

  -- More requests may be quiet.
  Pending-weaken :
      (unique : ℕ) (Quiet Quiet' : Type 0) (d : Dispatched S R)
      → (Quiet → Quiet')
      → Post d (Pending unique Quiet)
      → Post d (Pending unique Quiet')
  Pending-weaken unique Quiet Quiet' none f h = tt
  Pending-weaken unique Quiet Quiet' (some (responds response, events, se)) f h = h
  Pending-weaken unique Quiet Quiet' (some (replies, events, se)) f (inl one) = inl one
  Pending-weaken unique Quiet Quiet' (some (replies, events, se)) f (inr (q, none_sent)) =
      inr (f q, none_sent)
  Pending-weaken unique Quiet Quiet' (some (fails n, events, se)) f h = h

  routed-Pending :
      (req : Request) (op : Operation) (se : Session S)
      → Post
          (if se.destroyed
            then refuse fs page eio se
            else follow fs page req se (route req.nodeid op))
          (Pending req.unique (Forgets op))
  routed-Pending req op se =
      Post-if se.destroyed _ _ (Pending req.unique (Forgets op)) (λ _. refl)
        (λ _.
          Pending-weaken req.unique _ _ (follow fs page req se (route req.nodeid op))
            (route-Forgets req.nodeid op) (follow-Pending req se (route req.nodeid op)))

  when_initialized-Pending :
      (req : Request) (op : Operation) (se : Session S)
      → Post (when_initialized fs page req op se) (Pending req.unique (Forgets op))
  when_initialized-Pending req Operation.destroy se = refl
  when_initialized-Pending req op se = routed-Pending req op se

  initialized-Pending :
      (req : Request) (op : Operation) (se : Session S)
      → Post
          (if se.initialized then when_initialized fs page req op se else refuse fs page eio se)
          (Pending req.unique (Forgets op))
  initialized-Pending req op se =
      Post-if se.initialized _ _ (Pending req.unique (Forgets op))
        (λ _. when_initialized-Pending req op se) (λ _. refl)

  handle-Pending :
      (req : Request) (op : Operation) (se : Session S)
      → Post (handle fs page req op se) (Pending req.unique (Forgets op))
  unfolding handle
  handle-Pending req (Operation.init major minor capabilities max_readahead) se =
      start-Pending _ req.unique se major minor capabilities max_readahead
  handle-Pending req op se = initialized-Pending req op se

  abbrev IsQuiet : Option Operation → Type 0
  IsQuiet asked = (op : Operation) × (asked ≡ some op) × Forgets op

  checked-Pending :
      (se : Session S) (req : Request) (asked : Option Operation)
      → Post (checked fs page se req asked) (Pending req.unique (IsQuiet asked))
  checked-Pending se req none = refl
  checked-Pending se req (some op) =
      Post-if (is_denied se.allowed se.session_owner req.uid && not (without_uid op)) _ _
        (Pending req.unique (IsQuiet (some op))) (λ _. refl)
        (λ _.
          Pending-weaken req.unique _ _ (handle fs page req op se) (λ f. (op, refl, f))
            (handle-Pending req op se))

  respond-Once :
      (unique : ℕ) (Quiet : Type 0) (d : Outcome R × List (Event R) × Session S)
      → Pending unique Quiet d
      → Once unique Quiet (respond fs page unique d).0
  respond-Once unique Quiet (responds response, events, se) h =
      inl (was_sent, uniques-++ events (sent unique response ∷ []) ∙ rw h refl)
  respond-Once unique Quiet (replies, events, se) h = h
  respond-Once unique Quiet (fails n, events, se) h =
      inl (was_sent, uniques-++ events _ ∙ rw h refl)

  dispatch-Once :
      (se : Session S) (req : Request)
      → Post (dispatch fs page se req) (λ d. Once req.unique (IsQuiet req.operation) d.0)
  unfolding dispatch dispatch_req
  dispatch-Once se req = Post->>= (dispatch_req fs page se req) _ _ λ r h.
      respond-Once req.unique (IsQuiet req.operation) r
        (Post-elim _ _ (checked-Pending se req req.operation) h)

  answered_then :
      (req : Request) (reqs : List Request) (xs ys : List (Event R))
      → Once req.unique (IsQuiet req.operation) xs
      → Answers reqs (uniques ys)
      → Answers (req ∷ reqs) (uniques (xs ++ ys))
  answered_then req reqs xs ys (inl (fate, one)) h =
      inl (fate, uniques ys, uniques-++ xs ys ∙ rw one refl, h)
  answered_then req reqs xs ys (inr ((op, asked, f), none_sent)) h =
      inr (op, asked, f, rw (uniques-++ xs ys, none_sent) h)

  pub run-Answered :
      (received : List Received) (se : Session S)
      → Post (run fs page se received) (λ r. Answers (requests received) (uniques r.0))
  unfolding run
  run-Answered [] se = refl
  run-Answered (request none ∷ rest) se = refl
  run-Answered (request (some req) ∷ rest) se = Post->>= (dispatch fs page se req) _ _ λ d h.
      Post->>= (run fs page d.1 rest) _ _ λ r k.
        answered_then req (requests rest) d.0 r.0 (Post-elim _ _ (dispatch-Once se req) h)
          (Post-elim _ _ (run-Answered rest d.1) k)
  run-Answered (failure n ∷ rest) se = elim (Bool-cases (is_retried n)) [
    | inl again ↦ rw (again, run) (run-Answered rest se)
    | inr end ↦
        rw (end, run) (Post-if (n == enodev) _ _ (λ r. uniques r.0 ≡ []) (λ _. refl) (λ _. refl))
  ]

  -- In every session each request up to the end of the loop is, when its dispatch returns, replied to
  -- exactly once, or the file system keeps its reply, or it tells to forget inodes and has no reply: in the
  -- order of the requests. A reply that is kept, whenever it is used and by whatever thread, is kept on, or
  -- sends exactly one response to its request. So long as neither panics.
  pub run-Answers :
      (received : List Received) (se : Session S) (unique : ℕ) (u : Use R)
      → Post (run fs page se received) (λ r. Answers (requests received) (uniques r.0))
        × Post (use_reply (record { unique = unique; sender = true }) u) (Handled unique u)
  run-Answers received se unique u = (run-Answered received se, use_reply-Handled unique u)

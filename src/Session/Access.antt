-- ===== src/Session/Access.antt =====
-- fuse/src/uring_fuse/session.rs and request.rs: who may use a session, from its mount options on.
use fairy.Prelude.{
  Occurs, ℕ, ◌≡◌, ◌≢◌, ◌⊎◌, inl, inr, refl, sym, ◌∙◌, Bool, true, false, Option, none, some, List,
  [], ◌∷◌, ◌++◌, Post, Post->>=, Post-if, Post-elim, Post-map, ◌==◌, ltb, ◌&&◌, ◌||◌, not, arith,
  Bool-cases, if◌then◌else◌,
}
use mathlib.Core.Path.{subst}
use fairy.MountOptions.{
  MountOption, allow_other, allow_root, auto_unmount, conflicts_with, contains,
  check_option_conflicts,
}
use fairy.MountOptions.Conflicts.{check_option_conflicts_iff, contains_iff, append-Occurs}
use fairy.Session.{
  Session, Filesystem, Request, Event, sent, failed, Outcome, responds, replies, fails, Dispatched,
  InitResult, accepted, refused, use_reply, init_reply, start, started_with, follow, handle,
  when_initialized, checked, respond, dispatch_req, dispatch, is_denied, refuse, eio, eacces,
  enodev,
}
use fairy.Session.Config.{KernelConfig}
use fairy.Session.Config
use fairy.Session.Operations.{Operation, without_uid}
use fairy.Session.Routes.{Route, calls, forgets, forgets_all, unsupported, panics, route}
use fairy.Session.Running.{
  mounted_options, allowed_for, new, Received, request, failure, run, is_retried,
}

other_conflicts : (o : MountOption) → Occurs allow_other (conflicts_with o) → o ≡ allow_root
unfolding conflicts_with
other_conflicts allow_root h = refl
other_conflicts o h = ground arith

other_conflict : (c : MountOption) → Occurs c (conflicts_with allow_other) → c ≡ allow_root
unfolding conflicts_with
other_conflict c (inl e) = sym e
other_conflict c (inr h) = absurd h

-- Others may be allowed beside options that do not allow root.
other_added :
    (options : List MountOption)
    → check_option_conflicts options ≡ false
    → contains options allow_root ≡ false
    → check_option_conflicts (options ++ (allow_other ∷ [])) ≡ false
other_added options ok no_root =
    elim (Bool-cases (check_option_conflicts (options ++ (allow_other ∷ [])))) [
      | inr fine ↦ fine
      | inl clash ↦
          let (c, o, m, n, k) =
            (check_option_conflicts_iff (options ++ (allow_other ∷ []))).0 clash in
          absurd (impossible c o (split c m) (split o n) k)
    ]
  where
    rooted : Occurs allow_root options → ⊥
    rooted m = cc (no_root, (contains_iff options allow_root).1 m)

    split :
        (c : MountOption)
        → Occurs c (options ++ (allow_other ∷ []))
        → Occurs c options ⊎ (allow_other ≡ c)
    split c m = elim ((append-Occurs options (allow_other ∷ []) c).0 m) [
      | inl old ↦ inl old
      | inr (inl e) ↦ inr e
      | inr (inr h) ↦ absurd h
    ]

    impossible :
        (c o : MountOption)
        → Occurs c options ⊎ (allow_other ≡ c)
        → Occurs o options ⊎ (allow_other ≡ o)
        → Occurs c (conflicts_with o)
        → ⊥
    impossible c o (inl m) (inl n) k =
        cc (ok, (check_option_conflicts_iff options).1 (c, o, m, n, k))
    impossible c o (inl m) (inr e) k = rooted (
        subst (λ x. Occurs x options)
          (other_conflict c (subst (λ x. Occurs c (conflicts_with x)) (sym e) k)) m)
    impossible c o (inr e) (inl n) k = rooted (
        subst (λ x. Occurs x options)
          (other_conflicts o (subst (λ x. Occurs x (conflicts_with o)) (sym e) k)) n)
    impossible c o (inr e) (inr f) k =
        cc (e, other_conflict c (subst (λ x. Occurs c (conflicts_with x)) (sym f) k))

added_other :
    (options : List MountOption) → contains (options ++ (allow_other ∷ [])) allow_other ≡ true
added_other options =
    (contains_iff (options ++ (allow_other ∷ [])) allow_other).1
      ((append-Occurs options (allow_other ∷ []) allow_other).1 (inr (inl refl)))

-- Whether an option is added.
abbrev adds : List MountOption → Bool
adds options =
    contains options auto_unmount
    && not (contains options allow_root || contains options allow_other)

-- The options that a session mounts with have no conflict, if those that it is given have none; and where
-- they ask for an automatic unmount, others or root may use the mount.
pub mounted_options-compatible :
    (options : List MountOption)
    → check_option_conflicts options ≡ false
    → (check_option_conflicts (mounted_options options) ≡ false)
      × ((not (contains options auto_unmount)
            || contains (mounted_options options) allow_other
            || contains (mounted_options options) allow_root)
          ≡ true)
unfolding mounted_options
mounted_options-compatible options ok = elim (Bool-cases (adds options)) [
  | inl added ↦
      let no_root : contains options allow_root ≡ false = ground arith in
      let mounted = added_other options in
      rw added (other_added options ok no_root, ground (arith, mounted))
  | inr kept ↦ rw kept (ok, ground arith)
]

module _ {S R : Type 0} (fs : Filesystem S R) (page : ℕ) where
  abbrev Same : Session S → Session S → Type 0
  Same se se' = (se'.allowed ≡ se.allowed) × (se'.session_owner ≡ se.session_owner)

  abbrev Keeps : Session S → Dispatched S R → Type 0
  Keeps se d = Post d (λ r. Same se r.2)

  started_with-Keeps :
      (capabilities : ℕ) (r : InitResult × KernelConfig × S) (se : Session S)
      → Keeps se (started_with fs page capabilities r se)
  started_with-Keeps capabilities (refused n, config, s) se = (refl, refl)
  started_with-Keeps capabilities (accepted, config, s) se =
      Post->>= (init_reply page capabilities config) _ _ λ out h. (refl, refl)

  start-Keeps :
      (se : Session S) (major minor capabilities max_readahead : ℕ)
      → Keeps se (start fs page se major minor capabilities max_readahead)
  unfolding start
  start-Keeps se major minor capabilities max_readahead =
      Post-if (ltb major 7 || ((major == 7) && ltb minor 6)) _ _ (λ r. Same se r.2)
        (λ _. (refl, refl))
        (λ _.
          started_with-Keeps capabilities
            (fs.init (Config.init capabilities max_readahead) se.filesystem)
            (record se { proto_major = major; proto_minor = minor }))

  follow-Keeps : (req : Request) (se : Session S) (r : Route) → Keeps se (follow fs page req se r)
  follow-Keeps req se (calls c) = Post->>= (fs.call c se.filesystem) _ _ λ r h.
      Post->>= (use_reply (record { unique = req.unique; sender = true }) r.0) _ _
        λ events e. (refl, refl)
  follow-Keeps req se (forgets node nlookup) = (refl, refl)
  follow-Keeps req se (forgets_all nodes) = (refl, refl)
  follow-Keeps req se unsupported = (refl, refl)
  follow-Keeps req se panics = tt

  routed-Keeps :
      (req : Request) (op : Operation) (se : Session S)
      → Keeps se (
          if se.destroyed
          then refuse fs page eio se
          else follow fs page req se (route req.nodeid op))
  routed-Keeps req op se =
      Post-if se.destroyed _ _ (λ r. Same se r.2) (λ _. (refl, refl))
        (λ _. follow-Keeps req se (route req.nodeid op))

  when_initialized-Keeps :
      (req : Request) (op : Operation) (se : Session S)
      → Keeps se (when_initialized fs page req op se)
  when_initialized-Keeps req Operation.destroy se = (refl, refl)
  when_initialized-Keeps req op se = routed-Keeps req op se

  initialized-Keeps :
      (req : Request) (op : Operation) (se : Session S)
      → Keeps se
          (if se.initialized then when_initialized fs page req op se else refuse fs page eio se)
  initialized-Keeps req op se =
      Post-if se.initialized _ _ (λ r. Same se r.2) (λ _. when_initialized-Keeps req op se)
        (λ _. (refl, refl))

  handle-Keeps :
      (req : Request) (op : Operation) (se : Session S) → Keeps se (handle fs page req op se)
  unfolding handle
  handle-Keeps req (Operation.init major minor capabilities max_readahead) se =
      start-Keeps se major minor capabilities max_readahead
  handle-Keeps req op se = initialized-Keeps req op se

  checked-Keeps :
      (se : Session S) (req : Request) (asked : Option Operation)
      → Keeps se (checked fs page se req asked)
  checked-Keeps se req none = (refl, refl)
  checked-Keeps se req (some op) =
      Post-if (is_denied se.allowed se.session_owner req.uid && not (without_uid op)) _ _
        (λ r. Same se r.2) (λ _. (refl, refl)) (λ _. handle-Keeps req op se)

  respond-session :
      (unique : ℕ) (d : Outcome R × List (Event R) × Session S) → (respond fs page unique d).1 ≡ d.2
  respond-session unique (responds response, events, se) = refl
  respond-session unique (replies, events, se) = refl
  respond-session unique (fails n, events, se) = refl

  dispatch-Same :
      (se : Session S) (req : Request) → Post (dispatch fs page se req) (λ d. Same se d.1)
  unfolding dispatch dispatch_req
  dispatch-Same se req = Post->>= (dispatch_req fs page se req) _ _ λ r h.
      rw (respond-session req.unique r) (Post-elim _ _ (checked-Keeps se req req.operation) h)

  run-Same :
      (received : List Received) (se : Session S)
      → Post (run fs page se received) (λ r. Same se r.1)
  unfolding run
  run-Same [] se = (refl, refl)
  run-Same (request none ∷ rest) se = (refl, refl)
  run-Same (request (some req) ∷ rest) se = Post->>= (dispatch fs page se req) _ _ λ d h.
      Post->>= (run fs page d.1 rest) _ _ λ r k.
        let (a, b) = Post-elim _ _ (dispatch-Same se req) h in
        let (a', b') = Post-elim _ _ (run-Same rest d.1) k in (a' ∙ a, b' ∙ b)
  run-Same (failure n ∷ rest) se =
      Post-if (is_retried n) _ _ (λ r. Same se r.1) (λ _. run-Same rest se)
        (λ _. Post-if (n == enodev) _ _ (λ r. Same se r.1) (λ _. (refl, refl)) (λ _. (refl, refl)))

  -- Whatever a session has received, if its options do not allow others, a request of another user than
  -- its owner, and than root where they allow root, for an operation that the kernel does not issue
  -- without a user, is replied to with EACCES; the file system does not see it and nothing changes.
  pub run-denies :
      (filesystem : S) (options : List MountOption) (euid : ℕ) (received : List Received)
      (req : Request) (op : Operation)
      → contains options allow_other ≡ false
      → req.uid ≢ euid
      → (contains options allow_root ≡ false) ⊎ (req.uid ≢ 0)
      → req.operation ≡ some op
      → without_uid op ≡ false
      → Post
          (run fs page (new filesystem options euid) received)
          (λ r. dispatch fs page r.1 req ≡ some (sent req.unique (failed eacces) ∷ [], r.1))
  unfolding new allowed_for dispatch dispatch_req is_denied
  run-denies filesystem options euid received req op others uid root asked needs =
      Post-map (run fs page (new filesystem options euid) received)
        (λ r (a, b). rw (asked, a, b, denied, needs) refl)
        (run-Same received (new filesystem options euid))
    where
      denied : is_denied (allowed_for options) euid req.uid ≡ true
      denied = ground arith

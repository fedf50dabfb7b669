-- ===== src/Session/Protocol.antt =====
-- fuse/src/uring_fuse: what a file system may rely on, whatever the kernel sends: it is initialised before
-- it is called, and not called once it was destroyed.
use fairy.Prelude.{
  ℕ, ◌≡◌, refl, Bool, true, false, Option, none, some, List, [], ◌∷◌, ◌++◌, ◌>>=◌, Post, ◌==◌, inl,
  inr, Bool-cases,
}
use fairy.Session.{
  Session, Filesystem, Event, initialized, destroyed, called, forgotten, sent, kept, Response, Use,
  answers, errors, drops, keeps, Dispatched, use_reply,
}
use fairy.Session.Config

pub data Phase : Type 0 where
  fresh ready over : Phase

-- What may happen in a phase, and the phase after it. A response may be sent, and a reply kept, at any
-- time. A file system may be initialised again, and destroyed again, but it is not called after it was
-- destroyed.
unfoldable pub advance : {R : Type 0} → Phase → Event R → Option Phase
advance phase (sent unique response) = some phase
advance phase (kept unique) = some phase
advance fresh (initialized true) = some ready
advance ready (initialized true) = some ready
advance over (initialized true) = some over
advance phase (initialized false) = some phase
advance ready destroyed = some over
advance over destroyed = some over
advance fresh destroyed = none
advance ready (called call) = some ready
advance ready (forgotten nodes) = some ready
advance phase event = none

unfoldable pub advance_all : {R : Type 0} → Phase → List (Event R) → Option Phase
advance_all phase [] = some phase
advance_all phase (e ∷ events) = advance phase e >>= λ p. advance_all p events

abbrev pub phase_of : Bool → Bool → Phase
phase_of false gone = fresh
phase_of true false = ready
phase_of true true = over

-- How a session ends: of whether its file system accepted, what happened until then, and what its drop
-- does.
abbrev pub Ends : {R : Type 0} → Bool → List (Event R) → List (Event R) → Type 0
Ends true events last = advance_all fresh (events ++ last) ≡ some over
Ends false events last = (advance_all fresh events ≡ some fresh) × (last ≡ destroyed ∷ [])

module _ {S : Type 0} where
  -- A session that is not initialised was not destroyed.
  abbrev IsSound : Session S → Type 0
  IsSound se = se.initialized ≡ false → se.destroyed ≡ false

  abbrev phase : Session S → Phase
  phase se = phase_of se.initialized se.destroyed

  -- The events lead from the phase of one session to that of the next, which is sound.
  abbrev Follows : {R : Type 0} → Session S → List (Event R) → Session S → Type 0
  Follows se events se' = IsSound se' × (advance_all (phase se) events ≡ some (phase se'))

module _ {R : Type 0} where
  -- One response is sent; but none while the reply is kept.
  abbrev pub Handled : ℕ → Use R → List (Event R) → Type 0
  Handled unique keeps events = events ≡ kept unique ∷ []
  Handled unique u events = (response : Response R) × (events ≡ sent unique response ∷ [])

  pub use_reply-Handled :
      (unique : ℕ) (u : Use R)
      → Post (use_reply (record { unique = unique; sender = true }) u) (Handled unique u)
  unfolding use_reply
  use_reply-Handled unique (answers answer) = (_, refl)
  use_reply-Handled unique drops = (_, refl)
  use_reply-Handled unique keeps = refl
  use_reply-Handled unique (errors n) = elim (Bool-cases (n == 0)) [
    | inl zero_given ↦ rw (zero_given, use_reply) tt
    | inr given ↦ rw (given, use_reply) (_, refl)
  ]

module _ {S R : Type 0} (fs : Filesystem S R) (page : ℕ) where
  abbrev Obeys : Session S → Dispatched S R → Type 0
  Obeys se d = Post d (λ r. Follows se r.1 r.2)

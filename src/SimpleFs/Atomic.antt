-- ===== src/SimpleFs/Atomic.antt =====
-- fuse/src/filesystem.rs: a handler that replies an error has changed nothing.
use fairy.Prelude.{ℕ, ◌≡◌, refl, ap, sym, Bool, true, false, Option, none, some, if◌then◌else◌, ◌∙◌}
use fairy.SimpleFs.{
  SimpleFs, Outcome, done, failed, panic, Handler, then_run, ◌>>=◌, reply, fail, ensure, assert,
  when, unwrap, attempt, unwrapped, tried,
}

module _ {A : Type 0} where
  -- An error comes with the store from before; so does every outcome; and there is no error.
  abbrev pub Undone : SimpleFs → Outcome A → Type 0
  Undone s (done s' a) = Unit
  Undone s (failed s' e) = s' ≡ s
  Undone s panic = Unit

  abbrev pub Kept : SimpleFs → Outcome A → Type 0
  Kept s (done s' a) = s' ≡ s
  Kept s (failed s' e) = s' ≡ s
  Kept s panic = Unit

  abbrev pub Succeeded : Outcome A → Type 0
  Succeeded (done s' a) = Unit
  Succeeded (failed s' e) = ⊥
  Succeeded panic = Unit

  -- A handler whose errors leave the store as it was; one that only reads; and one that never replies
  -- an error.
  pub record Atomic (m : Handler A) : Type 0 where
    pub undo : (s : SimpleFs) → Undone s (m s)

  pub record Quiet (m : Handler A) : Type 0 where
    pub keep : (s : SimpleFs) → Kept s (m s)

  pub record Sure (m : Handler A) : Type 0 where
    pub succeed : (s : SimpleFs) → Succeeded (m s)

module _ {B : Type 0} where
  Undone-after : (s s' : SimpleFs) (o : Outcome B) → s' ≡ s → Undone s' o → Undone s o
  Undone-after s s' (done t b) e u = tt
  Undone-after s s' (failed t c) e u = u ∙ e
  Undone-after s s' panic e u = tt

  Kept-after : (s s' : SimpleFs) (o : Outcome B) → s' ≡ s → Kept s' o → Kept s o
  Kept-after s s' (done t b) e u = u ∙ e
  Kept-after s s' (failed t c) e u = u ∙ e
  Kept-after s s' panic e u = tt

module _ {A B : Type 0} where
  run_Quiet-Atomic :
      (s : SimpleFs) (o : Outcome A) (f : A → Handler B)
      → Kept s o
      → ((a : A) → Atomic (f a))
      → Undone s (then_run o f)
  run_Quiet-Atomic s (done t a) f k h = Undone-after s t (f a t) k ((h a).undo t)
  run_Quiet-Atomic s (failed t e) f k h = k
  run_Quiet-Atomic s panic f k h = tt

  run-Quiet :
      (s : SimpleFs) (o : Outcome A) (f : A → Handler B)
      → Kept s o
      → ((a : A) → Quiet (f a))
      → Kept s (then_run o f)
  run-Quiet s (done t a) f k h = Kept-after s t (f a t) k ((h a).keep t)
  run-Quiet s (failed t e) f k h = k
  run-Quiet s panic f k h = tt

  run_Atomic-Sure :
      (s : SimpleFs) (o : Outcome A) (f : A → Handler B)
      → Undone s o
      → ((a : A) → Sure (f a))
      → Undone s (then_run o f)
  run_Atomic-Sure s (done t a) f k h = no_error s (f a t) ((h a).succeed t)
    where
      no_error : (s : SimpleFs) (o : Outcome B) → Succeeded o → Undone s o
      no_error s (done t b) y = tt
      no_error s (failed t c) y = absurd y
      no_error s panic y = tt
  run_Atomic-Sure s (failed t e) f k h = k
  run_Atomic-Sure s panic f k h = tt

  run-Sure :
      (o : Outcome A) (f : A → Handler B)
      → Succeeded o
      → ((a : A) → Sure (f a))
      → Succeeded (then_run o f)
  run-Sure (done t a) f k h = (h a).succeed t
  run-Sure (failed t e) f k h = absurd k
  run-Sure panic f k h = tt

  -- First read, then act; first act, then finish.
  pub Quiet->>=_Atomic :
      {m : Handler A} {f : A → Handler B} → Quiet m → ((a : A) → Atomic (f a)) → Atomic (m >>= f)
  Quiet->>=_Atomic {m} {f} q h = record { undo = λ s. run_Quiet-Atomic s (m s) f (q.keep s) h }

  pub Quiet->>= :
      {m : Handler A} {f : A → Handler B} → Quiet m → ((a : A) → Quiet (f a)) → Quiet (m >>= f)
  Quiet->>= {m} {f} q h = record { keep = λ s. run-Quiet s (m s) f (q.keep s) h }

  pub Atomic->>=_Sure :
      {m : Handler A} {f : A → Handler B} → Atomic m → ((a : A) → Sure (f a)) → Atomic (m >>= f)
  Atomic->>=_Sure {m} {f} q h = record { undo = λ s. run_Atomic-Sure s (m s) f (q.undo s) h }

  pub Sure->>= :
      {m : Handler A} {f : A → Handler B} → Sure m → ((a : A) → Sure (f a)) → Sure (m >>= f)
  Sure->>= {m} {f} q h = record { succeed = λ s. run-Sure (m s) f (q.succeed s) h }

module _ {A : Type 0} where
  pub Atomic-Quiet : {m : Handler A} → Quiet m → Atomic m
  Atomic-Quiet {m} q = record { undo = λ s. weaken s (m s) (q.keep s) }
    where
      weaken : (s : SimpleFs) (o : Outcome A) → Kept s o → Undone s o
      weaken s (done t a) k = tt
      weaken s (failed t e) k = k
      weaken s panic k = tt

  pub Atomic-Sure : {m : Handler A} → Sure m → Atomic m
  Atomic-Sure {m} q = record { undo = λ s. weaken s (m s) (q.succeed s) }
    where
      weaken : (s : SimpleFs) (o : Outcome A) → Succeeded o → Undone s o
      weaken s (done t a) k = tt
      weaken s (failed t e) k = absurd k
      weaken s panic k = tt

  pub Quiet-reply : (a : A) → Quiet (reply a)
  Quiet-reply a = record { keep = λ s. refl }

  pub Quiet-fail : (e : ℕ) → Quiet {A = A} (fail e)
  Quiet-fail e = record { keep = λ s. refl }

  pub Sure-reply : (a : A) → Sure (reply a)
  Sure-reply a = record { succeed = λ s. tt }

  pub Quiet-attempt : {m : Handler A} → Quiet m → Quiet (attempt m)
  Quiet-attempt {m} q = record { keep = λ s. try s (m s) (q.keep s) }
    where
      try : (s : SimpleFs) (o : Outcome A) → Kept s o → Kept s (tried o)
      try s (done t a) k = k
      try s (failed t e) k = k
      try s panic k = k

  pub Quiet-unwrap : {m : Handler A} → Quiet m → Quiet (unwrap m)
  Quiet-unwrap {m} q = record { keep = λ s. try s (m s) (q.keep s) }
    where
      try : (s : SimpleFs) (o : Outcome A) → Kept s o → Kept s (unwrapped o)
      try s (done t a) k = k
      try s (failed t e) k = tt
      try s panic k = k

  pub Sure-unwrap : (m : Handler A) → Sure (unwrap m)
  Sure-unwrap m = record { succeed = λ s. try (m s) }
    where
      try : (o : Outcome A) → Succeeded (unwrapped o)
      try (done t a) = tt
      try (failed t e) = tt
      try panic = tt

module _ {A : Type 0} where
  pub Sure-attempt : (m : Handler A) → Sure (attempt m)
  Sure-attempt m = record { succeed = λ s. try (m s) }
    where
      try : (o : Outcome A) → Succeeded (tried o)
      try (done t a) = tt
      try (failed t e) = tt
      try panic = tt

pub Quiet-ensure : (b : Bool) (e : ℕ) → Quiet (ensure b e)
Quiet-ensure true e = record { keep = λ s. refl }
Quiet-ensure false e = record { keep = λ s. refl }

pub Quiet-assert : (b : Bool) → Quiet (assert b)
Quiet-assert true = record { keep = λ s. refl }
Quiet-assert false = record { keep = λ s. tt }

pub Sure-assert : (b : Bool) → Sure (assert b)
Sure-assert true = record { succeed = λ s. tt }
Sure-assert false = record { succeed = λ s. tt }

pub Sure-when : (b : Bool) {m : Handler (Unit {0})} → Sure m → Sure (when b m)
Sure-when true q = q
Sure-when false q = Sure-reply tt

pub Quiet-when : (b : Bool) {m : Handler (Unit {0})} → Quiet m → Quiet (when b m)
Quiet-when true q = q
Quiet-when false q = Quiet-reply tt

-- The same for a choice.
module _ {A : Type 0} where
  pub Quiet-option {ℓ} :
      {C : Type ℓ} (o : Option C) {n : Handler A} {f : C → Handler A}
      → Quiet n
      → ((c : C) → Quiet (f c))
      → Quiet (elim o [ none ↦ n | some c ↦ f c ])
  Quiet-option none k h = k
  Quiet-option (some c) k h = h c

  pub Atomic-option {ℓ} :
      {C : Type ℓ} (o : Option C) {n : Handler A} {f : C → Handler A}
      → Atomic n
      → ((c : C) → Atomic (f c))
      → Atomic (elim o [ none ↦ n | some c ↦ f c ])
  Atomic-option none k h = k
  Atomic-option (some c) k h = h c

  pub Sure-option {ℓ} :
      {C : Type ℓ} (o : Option C) {n : Handler A} {f : C → Handler A}
      → Sure n
      → ((c : C) → Sure (f c))
      → Sure (elim o [ none ↦ n | some c ↦ f c ])
  Sure-option none k h = k
  Sure-option (some c) k h = h c

  pub Quiet-if : (b : Bool) {x y : Handler A} → Quiet x → Quiet y → Quiet (if b then x else y)
  Quiet-if true h k = h
  Quiet-if false h k = k

  pub Atomic-if : (b : Bool) {x y : Handler A} → Atomic x → Atomic y → Atomic (if b then x else y)
  Atomic-if true h k = h
  Atomic-if false h k = k

  pub Sure-if : (b : Bool) {x y : Handler A} → Sure x → Sure y → Sure (if b then x else y)
  Sure-if true h k = h
  Sure-if false h k = k

  pub Sure-panic : Sure {A = A} (λ s. panic)
  Sure-panic = record { succeed = λ s. tt }

-- After a step that only reads and does reply, the rest ran on its reply and the store from before.
pub Kept-inversion :
    {A B : Type 0} (s : SimpleFs) (o : Outcome A) (f : A → Handler B) {s' : SimpleFs} {b : B}
    → Kept s o
    → then_run o f ≡ done s' b
    → (a : A) × (f a s ≡ done s' b) × (o ≡ done s a)
Kept-inversion s (done t a) f k h = (a, ap (f a) (sym k) ∙ h, ap (λ x. done x a) k)
Kept-inversion s (failed t e) f k h = cc
Kept-inversion s panic f k h = cc

-- A step that is followed by others and does end in a reply has replied.
pub run_inversion :
    {A B : Type 0} (o : Outcome A) (f : A → Handler B) {s' : SimpleFs} {b : B}
    → then_run o f ≡ done s' b
    → (s : SimpleFs) × (a : A) × (o ≡ done s a) × (f a s ≡ done s' b)
run_inversion (done s a) f h = (s, a, refl, h)
run_inversion (failed s e) f h = cc
run_inversion panic f h = cc

-- ===== src/Task/View.antt =====
-- runtime/src/task/state.rs: the state word as five flags and a count of references.
use Prim.Native.Nat.{bit_xor}
use fairy.Prelude.{
  ℕ, ◌+◌, ◌-◌, ◌*◌, ◌/◌, ◌^◌, ◌≤◌, ◌<◌, ◌≡◌, refl, Bool, true, false, not, ◌||◌, ◌&&◌, arith, ◌==◌,
}
use fairy.Prelude.Masks.{
  bit_or-digit, bit_and-digit, bit_and-clear, bit_xor_low, bit_and_three, bit_and_high,
}
use fairy.Task.State.{
  is_idle, is_notified, is_running, is_complete, is_join_interested, has_join_waker, unset_notified,
  set_notified, set_running, unset_running, unset_join_interested, set_join_waker, unset_join_waker,
  ref_count, initial_state,
}

pub record View : Type 0 where
  pub running : Bool
  pub complete : Bool
  pub notified : Bool
  pub interest : Bool
  pub waker : Bool
  pub refs : ℕ

abbrev pub bit : Bool → ℕ
bit false = 0
bit true = 1

-- The word that a view stands for.
pub encode : View → ℕ
encode v =
    v.refs * 32
    + bit v.waker * 16
    + bit v.interest * 8
    + bit v.notified * 4
    + bit v.complete * 2
    + bit v.running

-- The count of references fits above the flags.
abbrev pub Fits : View → Type 0
Fits v = v.refs < 2 ^ 59

module _ (v : View) where
  pub is_running-encode : is_running (encode v) ≡ v.running
  unfolding is_running encode
  is_running-encode = ground (arith, bit_and-digit (encode v) 0 (omega arith))

  pub set_running-encode : set_running (encode v) ≡ encode (record v { running = true })
  unfolding set_running encode
  set_running-encode = ground (arith, bit_or-digit (encode v) 0 (omega arith))

  pub unset_running-encode :
      Fits v → unset_running (encode v) ≡ encode (record v { running = false })
  unfolding unset_running encode
  unset_running-encode h = ground (arith, bit_and-clear (encode v) 0 (omega arith))

  pub is_complete-encode : is_complete (encode v) ≡ v.complete
  unfolding is_complete encode
  is_complete-encode = ground (arith, bit_and-digit (encode v) 1 (omega arith))

  pub is_notified-encode : is_notified (encode v) ≡ v.notified
  unfolding is_notified encode
  is_notified-encode = ground (arith, bit_and-digit (encode v) 2 (omega arith))

  pub is_join_interested-encode : is_join_interested (encode v) ≡ v.interest
  unfolding is_join_interested encode
  is_join_interested-encode = ground (arith, bit_and-digit (encode v) 3 (omega arith))

  pub has_join_waker-encode : has_join_waker (encode v) ≡ v.waker
  unfolding has_join_waker encode
  has_join_waker-encode = ground (arith, bit_and-digit (encode v) 4 (omega arith))

  pub set_notified-encode : set_notified (encode v) ≡ encode (record v { notified = true })
  unfolding set_notified encode
  set_notified-encode = ground (arith, bit_or-digit (encode v) 2 (omega arith))

  pub set_join_waker-encode : set_join_waker (encode v) ≡ encode (record v { waker = true })
  unfolding set_join_waker encode
  set_join_waker-encode = ground (arith, bit_or-digit (encode v) 4 (omega arith))

  pub unset_notified-encode :
      Fits v → unset_notified (encode v) ≡ encode (record v { notified = false })
  unfolding unset_notified encode
  unset_notified-encode h = ground (arith, bit_and-clear (encode v) 2 (omega arith))

  pub unset_join_interested-encode :
      Fits v → unset_join_interested (encode v) ≡ encode (record v { interest = false })
  unfolding unset_join_interested encode
  unset_join_interested-encode h = ground (arith, bit_and-clear (encode v) 3 (omega arith))

  pub unset_join_waker-encode :
      Fits v → unset_join_waker (encode v) ≡ encode (record v { waker = false })
  unfolding unset_join_waker encode
  unset_join_waker-encode h = ground (arith, bit_and-clear (encode v) 4 (omega arith))

  pub encode-lt : Fits v → encode v < 2 ^ 64
  unfolding encode
  encode-lt h = ground arith

  pub is_idle-encode : is_idle (encode v) ≡ not (v.running || v.complete)
  unfolding is_idle encode
  is_idle-encode = ground (arith, bit_and_three (encode v))

  pub ref_count-encode : Fits v → ref_count (encode v) ≡ v.refs
  unfolding ref_count encode
  ref_count-encode h = omega (arith, bit_and_high (encode v) (encode-lt h), quotient)
    where
      quotient : encode v / 32 ≡ v.refs
      quotient = ground arith

  -- Running and not complete, to complete and not running.
  pub xor_lifecycle :
      v.running ≡ true
      → v.complete ≡ false
      → bit_xor (encode v) 3 ≡ encode (record v { running = false; complete = true })
  unfolding encode
  xor_lifecycle r c = ground (arith, bit_xor_low (encode v) 3 (omega arith))

pub encode-injective : (v w : View) → encode v ≡ encode w → v ≡ w
unfolding encode
encode-injective v w h = ground arith

module _ (v : View) where
  pub encode-add_ref : encode (record v { refs = v.refs + 1 }) ≡ encode v + 32
  unfolding encode
  encode-add_ref = omega arith

  pub encode-sub_ref : 0 < v.refs → encode v ≡ encode (record v { refs = v.refs - 1 }) + 32
  unfolding encode
  encode-sub_ref h = omega arith

  pub encode_bounds : (v.refs * 32 ≤ encode v) × (encode v < v.refs * 32 + 32)
  unfolding encode
  encode_bounds = ground arith

  -- The word of a new task is met by one view only.
  pub encode-initial :
      (encode v == initial_state)
      ≡ (not v.running && not v.complete && v.notified && v.interest && not v.waker && v.refs == 2)
  unfolding encode
  encode-initial = ground arith

pub encode-detached :
    encode (record {
      running = false;
      complete = false;
      notified = true;
      interest = false;
      waker = false;
      refs = 1;
    })
    ≡ 36
unfolding encode
encode-detached = refl

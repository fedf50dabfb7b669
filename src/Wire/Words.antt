-- ===== src/Wire/Words.antt =====
-- The readers of argument.rs and the layout of the kernel are inverse to each other.
use fairy.Prelude.{
  ℕ, zero, suc, ◌+◌, ◌*◌, ◌/◌, ◌%◌, ◌^◌, ◌<◌, ◌≡◌, refl, ap, ◌∙◌, Option, none, some, List, [], ◌∷◌,
  length, arith, Post,
}
use fairy.Prelude.BTreeMap.{Bytes}
use fairy.Wire.{bytes, Layout, Fields, and_then, take_word, take_fields, take_slice}
use fairy.Wire.Encoding.{put_word, put_fields, put_slice, put_str, FitFields, FitSlice, IsName}
use native.Mathlib.Nat.{pow-suc}

-- A string that a zero ends.
unfoldable pub take_str : Bytes → Option (Bytes × Bytes)
take_str [] = none
take_str (zero ∷ rest) = some ([], rest)
take_str (suc b ∷ rest) = and_then (take_str rest) λ s. some (suc b ∷ s.0, s.1)

-- Each is below 256.
abbrev pub AreBytes : Bytes → Type 0
AreBytes [] = Unit
AreBytes (b ∷ rest) = (b < 256) × AreBytes rest

pub take_word-put_word :
    (n v : ℕ) (rest : Bytes) → v < 256 ^ n → take_word n (put_word n v rest) ≡ some (v, rest)
unfolding take_word put_word
take_word-put_word zero zero rest h = refl
take_word-put_word zero (suc v) rest h = absurd (omega arith)
take_word-put_word (suc n) v rest h =
    let e : take_word n (put_word n (v / 256) rest) ≡ some (v / 256, rest) =
      take_word-put_word n (v / 256) rest (omega (arith, pow-suc 256 n)) in
    let split : v % 256 + 256 * (v / 256) ≡ v = omega arith in rw (e, split)

pub take_fields-put_fields :
    (ws : Layout) (f : Fields ws) (rest : Bytes)
    → FitFields ws f
    → take_fields ws (put_fields ws f rest) ≡ some (f, rest)
unfolding take_fields put_fields
take_fields-put_fields [] f rest h = refl
take_fields-put_fields (w ∷ ws) f rest h = rw (
  take_word-put_word (bytes w) f.0 (put_fields ws f.1 rest) h.0,
  take_fields-put_fields ws f.1 rest h.1,
)

pub take_slice-put_slice :
    (ws : Layout) (fs : List (Fields ws)) (rest : Bytes)
    → FitSlice ws fs
    → take_slice ws (length fs) (put_slice ws fs rest) ≡ some (fs, rest)
unfolding take_slice put_slice
take_slice-put_slice ws [] rest h = refl
take_slice-put_slice ws (f ∷ fs) rest h =
    rw (take_fields-put_fields ws f (put_slice ws fs rest) h.0, take_slice-put_slice ws fs rest h.1)

pub take_str-put_str :
    (name rest : Bytes) → IsName name → take_str (put_str name rest) ≡ some (name, rest)
unfolding take_str put_str
take_str-put_str [] rest h = refl
take_str-put_str (zero ∷ name) rest h = absurd (omega (arith, h.0))
take_str-put_str (suc b ∷ name) rest h = rw (take_str-put_str name rest h.1)

Post-and_then {ℓ κ μ} :
    {A : Type ℓ} {B : Type κ} (m : Option A) (f : A → Option B) {P : A → Type μ} (Q : B → Type μ)
    → Post m P
    → ((a : A) → P a → Post (f a) Q)
    → Post (and_then m f) Q
Post-and_then none f Q p h = tt
Post-and_then (some a) f Q p h = h a p

pub take_word_front :
    (n : ℕ) (bs : Bytes)
    → AreBytes bs
    → Post (take_word n bs) (λ r. (bs ≡ put_word n r.0 r.1) × (r.0 < 256 ^ n) × AreBytes r.1)
unfolding take_word put_word
take_word_front zero bs h = (refl, omega arith, h)
take_word_front (suc n) [] h = tt
take_word_front (suc n) (b ∷ bs) h =
    Post-and_then (take_word n bs) _ _ (take_word_front n bs h.1) λ v (e, fits, left). (
      (let low : (b + 256 * v.0) % 256 ≡ b = omega (arith, h.0) in
          let high : (b + 256 * v.0) / 256 ≡ v.0 = omega (arith, h.0) in rw (low, high, e)),
      omega (arith, h.0, fits, pow-suc 256 n),
      left,
    )

pub take_fields_front :
    (ws : Layout) (bs : Bytes)
    → AreBytes bs
    → Post (take_fields ws bs) (λ r. (bs ≡ put_fields ws r.0 r.1) × FitFields ws r.0 × AreBytes r.1)
unfolding take_fields put_fields
take_fields_front [] bs h = (refl, tt, h)
take_fields_front (w ∷ ws) bs h =
    Post-and_then (take_word (bytes w) bs) _ _ (take_word_front (bytes w) bs h) λ v (e, fits, left).
      Post-and_then (take_fields ws v.1) _ _ (take_fields_front ws v.1 left)
        λ f (e', fits', left'). (e ∙ ap (put_word (bytes w) v.0) e', (fits, fits'), left')

pub take_slice_front :
    (ws : Layout) (count : ℕ) (bs : Bytes)
    → AreBytes bs
    → Post
        (take_slice ws count bs)
        (λ r. (bs ≡ put_slice ws r.0 r.1) × FitSlice ws r.0 × (length r.0 ≡ count))
unfolding take_slice put_slice
take_slice_front ws zero bs h = (refl, tt, refl)
take_slice_front ws (suc count) bs h =
    Post-and_then (take_fields ws bs) _ _ (take_fields_front ws bs h) λ f (e, fits, left).
      Post-and_then (take_slice ws count f.1) _ _ (take_slice_front ws count f.1 left)
        λ s (e', fits', n). (e ∙ ap (put_fields ws f.0) e', (fits, fits'), ap suc n)

pub take_str_front :
    (bs : Bytes)
    → AreBytes bs
    → Post (take_str bs) (λ r. (bs ≡ put_str r.0 r.1) × IsName r.0 × AreBytes r.1)
unfolding take_str put_str
take_str_front [] h = tt
take_str_front (zero ∷ bs) h = (refl, tt, h.1)
take_str_front (suc b ∷ bs) h =
    Post-and_then (take_str bs) _ _ (take_str_front bs h.1)
      λ s (e, name, left). (ap (◌∷◌ (suc b)) e, (omega arith, name), left)

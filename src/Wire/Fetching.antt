-- ===== src/Wire/Fetching.antt =====
-- fuse/src/uring_fuse/low_level/argument.rs: what the iterator finds is in front of what it leaves.
use fairy.Prelude.{ℕ, ◌+◌, ◌%◌, ◌≡◌, refl, Option, none, some, length, Post, Post-map}
use fairy.Prelude.BTreeMap.{Bytes}
use fairy.Wire.{
  Crates, Layout, size_of, Fetched, panicked, missing, fetched, ◌>>=◌, ArgumentIterator, fetch,
  fetch_slice, fetch_str, take_fields, take_slice,
}
use fairy.Wire.Encoding.{put_fields, put_slice, put_str, FitFields, FitSlice, IsName}
use fairy.Wire.Words.{take_str, AreBytes, take_fields_front, take_slice_front, take_str_front}
use fairy.Wire.Encoded.{advanced, strung, fetch_lem, fetch_slice_lem, fetch_str_lem}

-- What holds of a panic, and of a value.
abbrev pub Results : {A : Type 0} → Type 0 → Fetched A → (A → Type 0) → Type 0
Results P panicked Q = P
Results P missing Q = Unit
Results P (fetched a) Q = Q a

pub Results->>= :
    {A B : Type 0} (P : Type 0) (m : Fetched A) (f : A → Fetched B) {R : A → Type 0}
    (Q : B → Type 0)
    → Results ⊥ m R
    → ((a : A) → R a → Results P (f a) Q)
    → Results P (m >>= f) Q
Results->>= P panicked f Q r h = absurd r
Results->>= P missing f Q r h = tt
Results->>= P (fetched a) f Q r h = h a r

Results-advanced :
    {A : Type 0} (address : ℕ) (m : Option (A × Bytes)) (Q : A × ArgumentIterator → Type 0)
    → Post m (λ r. Q (r.0, record { address = address; left = r.1 }))
    → Results ⊥ (advanced address m) Q
Results-advanced address none Q p = tt
Results-advanced address (some r) Q p = p

Results-strung :
    (address : ℕ) (m : Option (Bytes × Bytes)) (Q : Bytes × ArgumentIterator → Type 0)
    → Post m (λ r. Q (r.0, record { address = address + length r.0 + 1; left = r.1 }))
    → Results ⊥ (strung address m) Q
Results-strung address none Q p = tt
Results-strung address (some r) Q p = p

module _ ⦃crates : Crates⦄ (it : ArgumentIterator) (b : AreBytes it.left) where
  pub fetch_front :
      (ws : Layout)
      → it.address % 8 ≡ 0
      → Results ⊥ (fetch ws it) λ r.
        (it.left ≡ put_fields ws r.0 r.1.left)
        × FitFields ws r.0
        × AreBytes r.1.left
        × (r.1.address ≡ it.address + size_of ws)
  fetch_front ws h = rw (fetch_lem ws it h) (
      Results-advanced _ (take_fields ws it.left) _ (
        Post-map (take_fields ws it.left) (λ r (e, f, l). (e, f, l, refl))
          (take_fields_front ws it.left b)))

  pub fetch_slice_front :
      (ws : Layout) (count : ℕ)
      → it.address % 8 ≡ 0
      → Results ⊥
          (fetch_slice ws count it)
          λ r. (it.left ≡ put_slice ws r.0 r.1.left) × FitSlice ws r.0 × (length r.0 ≡ count)
  fetch_slice_front ws count h =
      rw (fetch_slice_lem ws count it h)
        (Results-advanced _ (take_slice ws count it.left) _ (take_slice_front ws count it.left b))

  pub fetch_str_front :
      Results ⊥
        (fetch_str it)
        λ r. (it.left ≡ put_str r.0 r.1.left) × IsName r.0 × AreBytes r.1.left
  fetch_str_front =
      rw (fetch_str_lem it)
        (Results-strung it.address (take_str it.left) _ (take_str_front it.left b))

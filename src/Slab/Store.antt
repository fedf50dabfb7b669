-- ===== src/Slab/Store.antt =====
-- runtime/src/utils/slab.rs: a slab is a partial map from keys to values.
use fairy.Prelude.{
  ℕ, zero, suc, ◌+◌, ◌-◌, ◌^◌, ◌%◌, ◌<◌, ◌≡◌, inl, inr, refl, sym, ◌∙◌, ap, true, Option, none,
  some, leb, ltb, ◌==◌, if◌then◌else◌, insert, erase, nat_eq, arith, Bool-cases, Option-cases,
  ==_iff, ◌&&◌,
}
use mathlib.Core.Path.{subst₂}
use fairy.Slab.Page.{Page}
use fairy.Slab.Page
use fairy.Slab.Page.Map.{get-content, remove-RemoveResult, content-empty}
use fairy.Slab.{Slab, num_pages, get_page_id, init, get, last_page, compact, mark_remove, remove}
use fairy.Slab.Keys.{first_key-le}
use fairy.Slab.Values.{Sound, Inv, value, value_in, Removed-Sound, value-Removed}

module _ {T : Type 0} where
  pub init-Inv : Inv {T = T} init
  unfolding init
  init-Inv = record { sound = λ i p e. absurd (cc); index = omega arith }

  -- The subtraction of the page's first key never underflows.
  key_above :
      (s : Slab T) (key : ℕ) (p : Page T)
      → Inv s
      → key < 2 ^ 64
      → s.pages (get_page_id key) ≡ some p
      → leb p.prev_len key ≡ true
  key_above s key p v h e =
      ground (arith, (v.sound (get_page_id key) p e).start, first_key-le key h)

  -- On a slab that meets the invariant, `get` of any key that fits in a `usize` reads the map: no
  -- access is undefined and no subtraction underflows.
  pub get-value :
      (s : Slab T) (key : ℕ) → Inv s → key < 2 ^ 64 → get s key ≡ some (value s.pages key)
  unfolding get value
  get-value s key v h = elim (Option-cases (s.pages (get_page_id key))) [
    | inl e ↦ rw (e, get, value) refl
    | inr (p, e) ↦
        let le = key_above s key p v h e in
        let s' = v.sound (get_page_id key) p e in
        rw (e, get, value) (rw le (get-content p s'.free (key - p.prev_len) s'.well_formed))
  ]

  -- Replacing one page by a sound one.
  pub insert-Sound :
      (pages : ℕ → Option (Page T)) (i : ℕ) (p : Page T)
      → ((j : ℕ) (q : Page T) → pages j ≡ some q → Sound j q)
      → Sound i p
      → (j : ℕ) (q : Page T) → insert pages i p j ≡ some q
      → Sound j q
  insert-Sound pages i p s new j q e = elim (Bool-cases (i == j)) [
    | inl same ↦ subst₂ Sound ((==_iff i j).0 same) (ground arith) new
    | inr other ↦ s j q (ground arith)
  ]

  last_page-some :
      (n : ℕ) (pages : ℕ → Option (Page T)) (id : ℕ) (p : Page T)
      → last_page n pages ≡ some (id, p)
      → pages id ≡ some p
  unfolding last_page
  last_page-some zero pages id p e = cc
  last_page-some (suc n) pages id p e = ground (arith, last_page-some n pages id p)

  value-compact :
      (pages : ℕ → Option (Page T))
      → ((j : ℕ) (q : Page T) → pages j ≡ some q → Sound j q)
      → ((j : ℕ) → value (compact pages) j ≡ value pages j)
        × ((j : ℕ) (q : Page T) → compact pages j ≡ some q → Sound j q)
  unfolding compact value Page.is_empty
  value-compact pages s = elim (Option-cases (last_page num_pages pages)) [
    | inl e ↦ rw (e, compact) (λ j. refl, s)
    | inr ((id, p), e) ↦
        rw (e, compact)
          (elim (Bool-cases (Page.is_empty p && ltb 0 id)) [
            | inr stays ↦ rw stays (λ j. refl, s)
            | inl drops ↦ rw drops (dropped id p e drops)
          ])
  ]
    where
      dropped :
          (id : ℕ) (p : Page T)
          → last_page num_pages pages ≡ some (id, p)
          → (Page.is_empty p && ltb 0 id) ≡ true
          → ((j : ℕ) → value (erase pages id) j ≡ value pages j)
            × ((j : ℕ) (q : Page T) → erase pages id j ≡ some q → Sound j q)
      dropped id p e drops = (same, λ j q h. s j q (ground arith))
        where
          nothing : (j : ℕ) → value_in (some p) j ≡ none
          nothing j = ground (
            arith,
            content-empty p (s id p (last_page-some num_pages pages id p e)).free (j - p.prev_len)
                (s id p (last_page-some num_pages pages id p e)).well_formed,
          )

          same : (j : ℕ) → value (erase pages id) j ≡ value pages j
          same j = elim (Bool-cases (id == get_page_id j)) [
            | inr other ↦ rw other refl
            | inl here ↦ rw here (
                sym (
                  ap (λ i. value_in (pages i) j) (sym ((==_iff _ _).0 here))
                  ∙ ap (λ o. value_in o j) (last_page-some num_pages pages id p e)
                  ∙ nothing j))
          ]

  mark_remove_lem :
      (s : Slab T)
      → Inv s
      → Inv (mark_remove s) × ((j : ℕ) → value (mark_remove s).pages j ≡ value s.pages j)
  unfolding mark_remove
  mark_remove_lem s v = elim (Bool-cases ((s.generation + 1) % 2 ^ 32 % 2048 == 0)) [
    | inl now ↦
        let (same, sound) = value-compact s.pages v.sound in
        rw now (record { sound = sound; index = omega arith }, same)
    | inr later ↦ rw later (record { sound = v.sound; index = v.index }, λ j. refl)
  ]

  -- The slab without the value at `key`.
  pub record Erased (s : Slab T) (key : ℕ) (s' : Slab T) : Type 0 where
    pub inv : Inv s'
    pub found : (j : ℕ) → value s'.pages j ≡ (if key == j then none else value s.pages j)

  -- `remove` of any key that fits in a `usize` returns the value there, if there is one, and leaves
  -- every other key as it was, also when it compacts the slab.
  pub remove-Erased :
      (s : Slab T) (key : ℕ)
      → Inv s
      → key < 2 ^ 64
      → (s' : Slab T) × (remove s key ≡ some (s', value s.pages key)) × Erased s key s'
  unfolding remove value
  remove-Erased s key v h = elim (Option-cases (s.pages (get_page_id key))) [
    | inl e ↦ (s, rw (e, remove, value) refl, record { inv = v; found = λ j. absent j (rw e refl) })
    | inr (p, e) ↦
        let le = key_above s key p v h e in
        let sp = v.sound (get_page_id key) p e in
        let (p', r, d) = remove-RemoveResult p (key - p.prev_len) sp.free sp.well_formed in
        let s1 = record s { pages = insert s.pages (get_page_id key) p' } in
        let v1 : Inv s1 = record {
          sound = insert-Sound s.pages (get_page_id key) p' v.sound (Removed-Sound _ p p' _ sp d);
          index = v.index;
        } in
        let (v2, same) = mark_remove_lem s1 v1 in
        (
          mark_remove s1,
          rw (e, remove, value) (rw le (rw r refl)),
          record { inv = v2; found = λ j. same j ∙ value-Removed s.pages key p p' e le d j },
        )
  ]
    where
      absent :
          (j : ℕ)
          → value s.pages key ≡ none
          → value s.pages j ≡ (if key == j then none else value s.pages j)
      absent j e = elim (Bool-cases (key == j)) [
        | inl same ↦ rw same (ap (value s.pages) (sym ((==_iff key j).0 same)) ∙ e)
        | inr other ↦ rw other refl
      ]

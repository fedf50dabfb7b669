-- ===== src/Slab/Values.antt =====
-- runtime/src/utils/slab.rs: the value at a key, and what a change of one page does to it.
use fairy.Prelude.{
  ℕ, ◌+◌, ◌-◌, ◌*◌, ◌^◌, ◌<◌, ◌≡◌, inl, inr, refl, sym, ◌∙◌, ap, true, false, Option, none, some,
  List, [], leb, ◌==◌, if◌then◌else◌, insert, nat_eq, arith, Bool-cases, ==_iff,
}
use fairy.Slab.Page.{Page, new}
use fairy.Slab.Page.Free.{WellFormed, content}
use fairy.Slab.Page.Map.{Stored, Removed, new-WellFormed}
use fairy.Slab.{Slab, num_pages, page_initial_size, get_page_id, page_or_new}
use fairy.Slab.Keys.{first_key, get_page_id-key}

module _ {T : Type 0} where
  -- What the slab relies on of the page at index `i`.
  pub record Sound (i : ℕ) (p : Page T) : Type 0 where
    pub below : i < num_pages
    pub start : p.prev_len ≡ first_key i
    pub room : p.size ≡ page_initial_size * 2 ^ i
    pub free : List ℕ
    pub well_formed : WellFormed p free

  pub record Inv (s : Slab T) : Type 0 where
    pub sound : (i : ℕ) (p : Page T) → s.pages i ≡ some p → Sound i p
    pub index : s.w_page_id < num_pages

  abbrev pub value_in : Option (Page T) → ℕ → Option T
  value_in none key = none
  value_in (some p) key = if leb p.prev_len key then content p (key - p.prev_len) else none

  -- The value at a key.
  unfoldable pub value : (ℕ → Option (Page T)) → ℕ → Option T
  value pages key = value_in (pages (get_page_id key)) key

  pub page_or_new-Sound :
      (i : ℕ) (o : Option (Page T))
      → i < num_pages
      → ((p : Page T) → o ≡ some p → Sound i p)
      → Sound i (page_or_new i o)
  unfolding new
  page_or_new-Sound i (some p) h s = s p refl
  page_or_new-Sound i none h s = record {
    below = h;
    start = refl;
    room = refl;
    free = [];
    well_formed = new-WellFormed _ _;
  }

  pub Stored-Sound :
      (i : ℕ) (p p' : Page T) (val : T) (slot : ℕ) → Sound i p → Stored p val slot p' → Sound i p'
  Stored-Sound i p p' val slot s d = record {
    below = s.below;
    start = d.same_start ∙ s.start;
    room = d.same_size ∙ s.room;
    free = d.free;
    well_formed = d.well_formed;
  }

  pub Removed-Sound :
      (i : ℕ) (p p' : Page T) (slot : ℕ) → Sound i p → Removed p slot p' → Sound i p'
  Removed-Sound i p p' slot s d = record {
    below = s.below;
    start = d.same_start ∙ s.start;
    room = d.same_size ∙ s.room;
    free = d.free;
    well_formed = d.well_formed;
  }

  -- A page that is not there holds what a new page holds.
  pub value_in-new :
      (i key : ℕ) (o : Option (Page T)) → value_in (some (page_or_new i o)) key ≡ value_in o key
  unfolding new
  value_in-new i key (some p) = refl
  value_in-new i key none = ground arith

  in_page-Stored :
      (p p' : Page T) (val : T) (slot key : ℕ)
      → Stored p val slot p'
      → value_in (some p') key
        ≡ (if slot + p'.prev_len == key then some val else value_in (some p) key)
  in_page-Stored p p' val slot key d = ground (arith, d.found (key - p.prev_len), d.same_start)

  in_page-Removed :
      (p p' : Page T) (key j : ℕ)
      → leb p.prev_len key ≡ true
      → Removed p (key - p.prev_len) p'
      → value_in (some p') j ≡ (if key == j then none else value_in (some p) j)
  in_page-Removed p p' key j le d = ground (arith, d.found (j - p.prev_len), d.same_start)

  pub value-Stored :
      (pages : ℕ → Option (Page T)) (i : ℕ) (p' : Page T) (val : T) (slot : ℕ)
      → Sound i (page_or_new i (pages i))
      → Stored (page_or_new i (pages i)) val slot p'
      → (key : ℕ)
      → value (insert pages i p') key
        ≡ (if slot + p'.prev_len == key then some val else value pages key)
  unfolding value
  value-Stored pages i p' val slot s d key = elim (Bool-cases (i == get_page_id key)) [
    | inl here ↦ rw here (
        in_page-Stored (page_or_new i (pages i)) p' val slot key d
        ∙ ap (λ o. if slot + p'.prev_len == key then some val else o)
            (value_in-new i key (pages i) ∙ ap (λ j. value_in (pages j) key) ((==_iff _ _).0 here)))
    | inr elsewhere ↦ rw elsewhere (rw (not_key elsewhere) refl)
  ]
    where
      not_key : (i == get_page_id key) ≡ false → (slot + p'.prev_len == key) ≡ false
      not_key elsewhere = elim (Bool-cases (slot + p'.prev_len == key)) [
        | inr other ↦ other
        | inl same ↦
            let k : slot + first_key i ≡ key = ground (arith, d.same_start, s.start) in
            let back = get_page_id-key i slot s.below (omega (arith, d.within, s.room)) in
            ground (arith, ap get_page_id k, back)
      ]

  pub value-Removed :
      (pages : ℕ → Option (Page T)) (key : ℕ) (p p' : Page T)
      → pages (get_page_id key) ≡ some p
      → leb p.prev_len key ≡ true
      → Removed p (key - p.prev_len) p'
      → (j : ℕ)
      → value (insert pages (get_page_id key) p') j ≡ (if key == j then none else value pages j)
  unfolding value
  value-Removed pages key p p' e le d j = elim (Bool-cases (get_page_id key == get_page_id j)) [
    | inl here ↦ rw here (
        in_page-Removed p p' key j le d
        ∙ ap (λ o. if key == j then none else value_in o j)
            (sym e ∙ ap pages ((==_iff _ _).0 here)))
    | inr elsewhere ↦ rw elsewhere (rw (not_key elsewhere) refl)
  ]
    where
      not_key : (get_page_id key == get_page_id j) ≡ false → (key == j) ≡ false
      not_key elsewhere = elim (Bool-cases (key == j)) [
        | inr other ↦ other
        | inl same ↦ ground (arith, ap get_page_id ((==_iff key j).0 same))
      ]

-- ===== src/Slab/Adding.antt =====
-- runtime/src/utils/slab.rs: `Slab::insert` finds a slot that no key used.
use mathlib.Core.Path.{fun_ext, subst}
use fairy.Prelude.{
  ℕ, zero, suc, ◌+◌, ◌-◌, ◌<◌, ◌≤◌, ◌≡◌, ◌⊎◌, inl, inr, refl, sym, ◌∙◌, ap, Option, none, some,
  ◌==◌, if◌then◌else◌, insert, nat_eq, arith, Bool-cases, ==_iff,
}
use fairy.Slab.Page.{Page, new}
use fairy.Slab.Page
use fairy.Slab.Page.Free.{content}
use fairy.Slab.Page.Map.{put-PutResult, Stored}
use fairy.Slab.{Slab, num_pages, get_page_id, page_or_new, insert_from, add}
use fairy.Slab.Keys.{first_key, get_page_id-key, pow_pos}
use fairy.Slab.Values.{
  Sound, Inv, value, value_in, page_or_new-Sound, Stored-Sound, value-Stored, value_in-new,
}
use fairy.Slab.Store.{insert-Sound}

module _ {T : Type 0} where
  -- A slab that took `val` under `key`, which held nothing.
  pub record Added (s : Slab T) (val : T) (key : ℕ) (s' : Slab T) : Type 0 where
    pub inv : Inv s'
    pub unused : value s.pages key ≡ none
    pub found : (j : ℕ) → value s'.pages j ≡ (if key == j then some val else value s.pages j)

  -- A page that is there and has no room.
  abbrev pub Full : Option (Page T) → Type 0
  Full none = ⊥
  Full (some p) = p.used ≡ p.size

  abbrev AddResult : ℕ → ℕ → Slab T → T → Type 0
  AddResult rounds i s val =
      ((insert_from rounds i s val ≡ none) × ((j : ℕ) → i ≤ j → j < i + rounds → Full (s.pages j)))
      ⊎ ((s' : Slab T) × (key : ℕ) × (insert_from rounds i s val ≡ some (s', key))
          × Added s val key s')

  insert-same :
      (pages : ℕ → Option (Page T)) (i : ℕ) (p : Page T)
      → pages i ≡ some p
      → insert pages i p ≡ pages
  insert-same pages i p e = fun_ext λ j. elim (Bool-cases (i == j)) [
    | inl same ↦ rw same (sym (ap pages (sym ((==_iff i j).0 same)) ∙ e))
    | inr other ↦ rw other refl
  ]

  -- A new page has room, so a full one was there.
  Full-some :
      (i : ℕ) (o : Option (Page T))
      → (page_or_new i o).used ≡ (page_or_new i o).size
      → (o ≡ some (page_or_new i o)) × Full o
  unfolding new
  Full-some i none h = absurd (omega (arith, pow_pos i))
  Full-some i (some p) h = (refl, h)

  insert_from-AddResult :
      (rounds i : ℕ) (s : Slab T) (val : T)
      → Inv s
      → i + rounds ≤ num_pages
      → AddResult rounds i s val
  unfolding insert_from value
  insert_from-AddResult zero i s val v h = inl (refl, λ j lo hi. absurd (omega arith))
  insert_from-AddResult (suc rounds) i s val v h =
      elim (put-PutResult page val sound.free sound.well_formed) [
        | inl (full, e) ↦
            let (there, f) = Full-some i (s.pages i) full in
            elim (insert_from-AddResult rounds (i + 1) s val v (omega arith)) [
              | inl (r, rest) ↦ inl (
                onward there e ∙ r,
                λ j lo hi. elim (Bool-cases (i == j)) [
                  | inl same ↦ subst (λ k. Full (s.pages k)) ((==_iff i j).0 same) f
                  | inr other ↦ rest j (ground arith) (omega arith)
                ],
              )
              | inr (s', key, r, added) ↦ inr (s', key, onward there e ∙ r, added)
            ]
        | inr (room, (p', slot, e, stored)) ↦ inr (
          record s { pages = insert s.pages i p'; w_page_id = i },
          slot + p'.prev_len,
          rw (e, insert_from) refl,
          record {
            inv = record {
              sound =
                  insert-Sound s.pages i p' v.sound (Stored-Sound i page p' val slot sound stored);
              index = omega arith;
            };
            unused = slot_unused slot p' stored;
            found = value-Stored s.pages i p' val slot sound stored;
          },
        )
      ]
    where
      page : Page T
      page = page_or_new i (s.pages i)

      sound : Sound i page
      sound = page_or_new-Sound i (s.pages i) (omega arith) (v.sound i)

      onward :
          s.pages i ≡ some page
          → Page.put page val ≡ some (page, none)
          → insert_from (suc rounds) i s val ≡ insert_from rounds (i + 1) s val
      onward there e =
          rw (e, insert_from)
            (ap (λ q. insert_from rounds (i + 1) (record s { pages = q }) val)
              (insert-same s.pages i page there))

      slot_unused :
          (slot : ℕ) (p' : Page T)
          → Stored page val slot p'
          → value s.pages (slot + p'.prev_len) ≡ none
      slot_unused slot p' stored = rw (back, value) (sym (value_in-new i key (s.pages i)) ∙ in_page)
        where
          key : ℕ
          key = slot + p'.prev_len

          start : p'.prev_len ≡ first_key i
          start = stored.same_start ∙ sound.start

          back : get_page_id key ≡ i
          back =
              ap (λ (k : ℕ). get_page_id (slot + k)) start
              ∙ get_page_id-key i slot sound.below (omega (arith, stored.within, sound.room))

          in_page : value_in (some page) key ≡ none
          in_page = ground (arith, stored.same_start, stored.unused, ap (content page) slot_of)
            where
              slot_of : key - page.prev_len ≡ slot
              slot_of = omega (arith, stored.same_start)

  -- `insert` on a slab that meets the invariant finds a key that held nothing, and sets the value
  -- there and nowhere else, as long as one of the pages from the write page on is missing or has
  -- room.
  pub add-Added :
      (s : Slab T) (val : T) (i : ℕ)
      → Inv s
      → s.w_page_id ≤ i
      → i < num_pages
      → ¬ Full (s.pages i)
      → (s' : Slab T) × (key : ℕ) × (add s val ≡ some (s', key)) × Added s val key s'
  unfolding add
  add-Added s val i v lo hi room =
      elim (insert_from-AddResult (num_pages - s.w_page_id) s.w_page_id s val v
        (omega (arith, v.index))) [
          | inl (r, full) ↦ absurd (room (full i lo (omega arith)))
          | inr result ↦ result
        ]

-- ===== src/Slab/Page/Map.antt =====
-- runtime/src/utils/slab.rs: a page is a partial map from slots to values.
use fairy.Prelude.{
  ℕ, suc, ◌+◌, ◌-◌, ◌<◌, false, ◌≡◌, ◌≢◌, ◌⊎◌, inl, inr, refl, ap, sym, Option, none, some, List,
  [], ◌∷◌, arith, insert, nat_eq, ◌==◌, if◌then◌else◌, leb, Bool-cases, ==_iff,
}
use fairy.Slab.Page.{
  Entry, vacant, occupied, Page, as_ref, new, is_full, alloc, set, get, remove, put,
}
use fairy.Slab.Page.Free.{
  Chain, Chain-insert, Occurs, WellFormed, content, weight, tally, tally-insert, tally-insert_next,
  Chain-vacant, tally-pos,
}

module _ {T : Type 0} where
  pub new-WellFormed : (size prev_len : ℕ) → WellFormed {T = T} (new size prev_len) []
  unfolding new tally
  new-WellFormed size prev_len = record {
    chain = (refl, tt);
    distinct = tt;
    listed = λ i n h e. absurd (omega arith);
    ready = λ i h. absurd (omega arith);
    count = omega arith;
    tallied = refl;
    fits = omega arith;
  }

  -- On a well-formed page no read is undefined.
  pub get-content :
      (p : Page T) (free : List ℕ) (j : ℕ) → WellFormed p free → get p j ≡ some (content p j)
  unfolding get
  get-content p free j w = elim (Bool-cases (leb p.initialized j)) [
    | inl out ↦ rw out refl
    | inr inside ↦ let (entry, e) = w.ready j (ground arith) in rw inside (rw e refl)
  ]

  -- What a page has done that took `val` into `slot`.
  pub record Stored (p : Page T) (val : T) (slot : ℕ) (p' : Page T) : Type 0 where
    pub free : List ℕ
    pub well_formed : WellFormed p' free
    pub unused : content p slot ≡ none
    pub found : (j : ℕ) → content p' j ≡ (if slot == j then some val else content p j)
    pub within : slot < p.size
    pub same_size : p'.size ≡ p.size
    pub same_start : p'.prev_len ≡ p.prev_len

  abbrev pub reused : Page T → T → ℕ → ℕ → Page T
  reused p val i n = record p {
    next = n;
    used = p.used + 1;
    slots = insert p.slots i (occupied val);
  }

  abbrev pub extended : Page T → T → Page T
  extended p val = record p {
    initialized = p.initialized + 1;
    next = p.next + 1;
    used = p.used + 1;
    slots = insert p.slots p.next (occupied val);
  }

  ready-insert :
      (slots : ℕ → Option (Entry T)) (i j : ℕ) (entry : Entry T)
      → (old : Entry T) × (slots j ≡ some old)
      → (now : Entry T) × (insert slots i entry j ≡ some now)
  ready-insert slots i j entry (old, e) = elim (Bool-cases (i == j)) [
    | inl same ↦ (entry, rw same refl)
    | inr other ↦ (old, rw other e)
  ]

  reused-Stored :
      (p : Page T) (val : T) (i n : ℕ) (is : List ℕ)
      → WellFormed p (i ∷ is)
      → p.slots i ≡ some (vacant n)
      → Chain p.slots p.initialized n is
      → Stored p val i (reused p val i n)
  reused-Stored p val i n is w s c = record {
    free = is;
    well_formed = record {
      chain = Chain-insert p.slots p.initialized n is i (occupied val) w.distinct.0 c;
      distinct = w.distinct.1;
      listed = λ j m h e. ground (arith, w.listed j m);
      ready = λ j h. ready-insert p.slots i j (occupied val) (w.ready j h);
      count = omega (arith, w.count);
      tallied = omega (
        arith,
        w.tallied,
        tally-insert p.slots p.initialized i (occupied val) w.chain.1,
        ap weight s,
      );
      fits = w.fits;
    };
    unused = ground arith;
    found = λ j. ground (arith, w.chain.1);
    within = omega (arith, w.chain.1, w.fits);
    same_size = refl;
    same_start = refl;
  }

  extended-Stored :
      (p : Page T) (val : T)
      → WellFormed p []
      → p.next < p.size
      → Stored p val p.next (extended p val)
  extended-Stored p val w h = record {
    free = [];
    well_formed = record {
      chain = (omega (arith, w.chain.0), tt);
      distinct = tt;
      listed = λ j m lt e. ground (arith, w.listed j m, w.chain.0);
      ready = λ j lt. elim (Bool-cases (p.next == j)) [
        | inl same ↦ (occupied val, rw same refl)
        | inr other ↦
            let (old, e) = w.ready j (ground (arith, w.chain.0)) in
            ready-insert p.slots p.next j (occupied val) (old, e)
      ];
      count = omega (arith, w.count);
      tallied = omega (
        arith,
        w.tallied,
        tally-insert_next p.slots p.initialized p.next (occupied val) (sym w.chain.0),
      );
      fits = omega (arith, w.fits, w.chain.0);
    };
    unused = ground (arith, w.chain.0);
    found = λ j. ground (arith, w.chain.0);
    within = h;
    same_size = refl;
    same_start = refl;
  }

  -- A page that is full hands out no slot; any other takes the value.
  abbrev pub PutResult : Page T → T → Type 0
  PutResult p val =
      ((p.used ≡ p.size) × (put p val ≡ some (p, none)))
      ⊎ ((p.used < p.size)
          × ((p' : Page T) × (slot : ℕ) × (put p val ≡ some (p', some slot))
              × Stored p val slot p'))

  pub put-PutResult : (p : Page T) (val : T) (free : List ℕ) → WellFormed p free → PutResult p val
  unfolding put alloc is_full set
  put-PutResult p val [] w = elim (Bool-cases (p.used == p.size)) [
    | inl full ↦ inl (ground arith, ground (arith, w.chain.0, w.count, w.fits))
    | inr room ↦
        let below : p.next < p.size = ground (arith, w.chain.0, w.count, w.fits) in
        inr (
          omega (arith, w.count, w.chain.0),
          (
            extended p val,
            p.next,
            ground (arith, w.chain.0, w.count, w.fits),
            extended-Stored p val w below,
          ),
        )
  ]
  put-PutResult p val (i ∷ is) w =
      let (n, s, c) = w.chain.2 in
      inr (
        omega (arith, w.count, w.fits),
        (
          reused p val i n,
          i,
          ground (arith, w.chain.0, w.chain.1, w.count, w.fits),
          reused-Stored p val i n is w s c,
        ),
      )

  abbrev pub freed : Page T → ℕ → Page T
  freed p slot = record p {
    slots = insert p.slots slot (vacant p.next);
    next = slot;
    used = p.used - 1;
  }

  -- What a page has done that gave up the value in `slot`.
  pub record Removed (p : Page T) (slot : ℕ) (p' : Page T) : Type 0 where
    pub free : List ℕ
    pub well_formed : WellFormed p' free
    pub found : (j : ℕ) → content p' j ≡ (if slot == j then none else content p j)
    pub fewer : content p slot ≢ none → p.used ≡ suc p'.used
    pub same_size : p'.size ≡ p.size
    pub same_start : p'.prev_len ≡ p.prev_len

  same-Removed :
      (p : Page T) (slot : ℕ) (free : List ℕ)
      → WellFormed p free
      → content p slot ≡ none
      → Removed p slot p
  same-Removed p slot free w h = record {
    free = free;
    well_formed = w;
    found = λ j. elim (Bool-cases (slot == j)) [
      | inl same ↦ rw same (rw (← (==_iff slot j).0 same) h)
      | inr other ↦ rw other refl
    ];
    fewer = λ k. absurd (k h);
    same_size = refl;
    same_start = refl;
  }

  freed-Removed :
      (p : Page T) (slot : ℕ) (free : List ℕ) (val : T)
      → WellFormed p free
      → slot < p.initialized
      → p.slots slot ≡ some (occupied val)
      → Removed p slot (freed p slot)
  freed-Removed p slot free val w h e = record {
    free = slot ∷ free;
    well_formed = record {
      chain = (
        refl,
        h,
        (p.next, ground arith, Chain-insert p.slots p.initialized p.next free slot _ fresh w.chain),
      );
      distinct = (fresh, w.distinct);
      listed = λ j m lt k. ground (arith, w.listed j m);
      ready = λ j lt. ready-insert p.slots slot j _ (w.ready j lt);
      count = omega (arith, w.count, w.tallied, tally-pos p.slots p.initialized slot h e);
      tallied = omega (
        arith,
        w.tallied,
        tally-insert p.slots p.initialized slot (vacant p.next) h,
        ap weight e,
      );
      fits = w.fits;
    };
    found = λ j. ground arith;
    fewer = λ k. omega (arith, w.tallied, tally-pos p.slots p.initialized slot h e);
    same_size = refl;
    same_start = refl;
  }
    where
      fresh : ¬ Occurs slot free
      fresh o = let (n, v) = Chain-vacant p.slots p.initialized p.next free slot w.chain o in cc

  -- `remove` of a slot with no value returns none and changes nothing; of a slot with a value it
  -- returns the value, and the slot is free.
  pub remove-RemoveResult :
      (p : Page T) (slot : ℕ) (free : List ℕ)
      → WellFormed p free
      → (p' : Page T) × (remove p slot ≡ some (p', content p slot)) × Removed p slot p'
  unfolding remove
  remove-RemoveResult p slot free w = elim (Bool-cases (leb p.initialized slot)) [
    | inl out ↦ (p, rw out refl, same-Removed p slot free w (rw out refl))
    | inr inside ↦ let (entry, e) = w.ready slot (ground arith) in by_entry inside entry e
  ]
    where
      by_entry :
          leb p.initialized slot ≡ false
          → (entry : Entry T) → p.slots slot ≡ some entry
          → (p' : Page T) × (remove p slot ≡ some (p', content p slot)) × Removed p slot p'
      by_entry inside (vacant n) e = (p, ground arith, same-Removed p slot free w (ground arith))
      by_entry inside (occupied val) e =
          (freed p slot, ground arith, freed-Removed p slot free val w (ground arith) e)

  -- A page that uses no slot holds no value.
  pub content-empty :
      (p : Page T) (free : List ℕ) (j : ℕ) → WellFormed p free → p.used ≡ 0 → content p j ≡ none
  content-empty p free j w h = elim (Bool-cases (leb p.initialized j)) [
    | inl out ↦ rw out refl
    | inr inside ↦
        let lt : j < p.initialized = ground arith in
        let (entry, e) = w.ready j lt in rw inside (rw e (by_entry lt entry e))
  ]
    where
      by_entry :
          j < p.initialized → (entry : Entry T) → p.slots j ≡ some entry → as_ref entry ≡ none
      by_entry lt (vacant n) e = refl
      by_entry lt (occupied val) e =
          absurd (omega (arith, h, w.tallied, tally-pos p.slots p.initialized j lt e))

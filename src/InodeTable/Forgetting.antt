-- ===== src/InodeTable/Forgetting.antt =====
-- fuse/src/async_fuse/inode_table.rs: the count of references that the kernel has to an inode, and what
-- becomes of a path whose inode was replaced.
use fairy.Prelude.{
  ℕ, ◌+◌, ◌-◌, ◌<◌, ◌≡◌, ◌≢◌, refl, sym, ◌∙◌, ◌&&◌, Option, none, some, List, [], ◌∷◌, ltb, leb,
  ◌==◌, if◌then◌else◌, get_elem?, get_elem?-set, get_elem?-lt, set, arith, Eq, beq_refl, insert,
  erase, Bool-cases, inl, inr, ◌>>=◌, get_elem?-some,
}
use mathlib.Core.Path.{subst, ap}
use fairy.InodeTable.{Entry, InodeTable, get_path, lookup, forget, rename, get_inode, u64_max}
use fairy.InodeTable.Paths.{path_at, path_at-eq, path_at-lt}
use fairy.InodeTable.Invariant.{Inv}
use fairy.InodeTable.Mapping.{forget_lem, forgotten}

-- What the kernel does to an inode that it knows: another reference, or some of them given back.
pub data Reference : Type 0 where
  acquires : Reference
  releases : ℕ → Reference

-- The count, as the kernel keeps it: none where it gives back more than it has or goes on at zero, or
-- where the count does not fit in a `u64`.
unfoldable pub remaining : ℕ → List Reference → Option ℕ
remaining c [] = some c
remaining c (acquires ∷ refs) =
    let more = remaining (c + 1) refs in
    if c == 0 then none else if ltb c u64_max then more else none
remaining c (releases n ∷ refs) =
    let less = remaining (c - n) refs in if c == 0 then none else if leb n c then less else none

remaining-zero :
    (refs : List Reference) {left : ℕ} → remaining 0 refs ≡ some left → (refs ≡ []) × (left ≡ 0)
unfolding remaining
remaining-zero [] r = (refl, cc r)
remaining-zero (acquires ∷ refs) r = absurd cc
remaining-zero (releases n ∷ refs) r = absurd cc

module _ {P : Type 0} ⦃e : Eq P⦄ where
  unfoldable pub refer : InodeTable P → ℕ → Reference → Option (InodeTable P)
  refer t inode acquires = lookup t inode
  refer t inode (releases n) = forget t inode n >>= λ r. some r.0

  unfoldable pub refer_all : InodeTable P → ℕ → List Reference → Option (InodeTable P)
  refer_all t inode [] = some t
  refer_all t inode (r ∷ refs) = refer t inode r >>= λ t'. refer_all t' inode refs

  -- What references with a count left have done to the map: at zero the inode and its path have lost each
  -- other, and nothing else is changed.
  pub record Settled (t : InodeTable P) (path : P) (inode left : ℕ) (t' : InodeTable P)
      : Type 0 where
    pub found :
        (q : P) → get_inode t' q ≡ (if (left == 0) && e.beq path q then none else get_inode t q)
    pub own : get_path t' inode ≡ some (if left == 0 then none else some path)
    pub others : (i : ℕ) → i ≢ inode → get_path t' i ≡ get_path t i

  lookup_lem :
      (t : InodeTable P) (idx : ℕ) (entry : Entry P)
      → idx ≢ 0
      → get_elem? t.table idx ≡ some entry
      → entry.lookups < u64_max
      → lookup t (idx + 1)
        ≡ some (record t { table = set t.table idx (record entry { lookups = entry.lookups + 1 }) })
  unfolding lookup
  lookup_lem t idx entry nz h l = ground arith

module _ {P : Type 0} ⦃e : Eq P⦄ (t : InodeTable P) (path : P) (idx : ℕ) where
  -- The inode has its path and a count; what else the table has is as it was.
  record Held (c : ℕ) (t' : InodeTable P) : Type 0 where
    pub entry : Entry P
    pub at : get_elem? t'.table idx ≡ some entry
    pub names : entry.path ≡ some path
    pub counts : entry.lookups ≡ c
    pub map : (q : P) → t'.by_path q ≡ t.by_path q
    pub rest : (j : ℕ) → j ≢ idx → get_elem? t'.table j ≡ get_elem? t.table j

  Held-set :
      (c m : ℕ) (t' : InodeTable P) (h : Held c t')
      → Held m (record t' { table = set t'.table idx (record h.entry { lookups = m }) })
  Held-set c m t' h = record {
    entry = record h.entry { lookups = m };
    at = ground (
      arith,
      get_elem?-set t'.table idx idx (record h.entry { lookups = m }),
      get_elem?-lt t'.table idx h.at,
    );
    names = h.names;
    counts = refl;
    map = h.map;
    rest = λ j n.
        ground (arith, get_elem?-set t'.table idx j (record h.entry { lookups = m }), h.rest j);
  }

  Held-Settled : (c : ℕ) (t' : InodeTable P) → Held c t' → 0 < c → Settled t path (idx + 1) c t'
  unfolding get_inode get_path
  Held-Settled c t' h p = record {
    found = λ q. ground (arith, h.map q);
    own = ground (arith, h.at, h.names);
    others = λ i n. ground (arith, h.rest (i - 1));
  }

  forgotten-Settled :
      (c : ℕ) (t' : InodeTable P) (h : Held c t')
      → Settled t path (idx + 1) 0 (forgotten t' idx h.entry path)
  unfolding get_inode get_path
  forgotten-Settled c t' h =
      let gone : Entry P = record h.entry { path = none; lookups = 0 } in
      record {
        found = λ q. ground (arith, h.map q);
        own = ground (arith, get_elem?-set t'.table idx idx gone, get_elem?-lt t'.table idx h.at);
        others = λ i n. ground (arith, get_elem?-set t'.table idx (i - 1) gone, h.rest (i - 1));
      }

  acquire-Held :
      (c : ℕ) (t' : InodeTable P)
      → idx ≢ 0
      → Held c t'
      → c < u64_max
      → (t'' : InodeTable P) × (refer t' (idx + 1) acquires ≡ some t'') × Held (c + 1) t''
  unfolding refer
  acquire-Held c t' nz h l =
      let new : Entry P = record h.entry { lookups = c + 1 } in
      (
        record t' { table = set t'.table idx new },
        lookup_lem t' idx h.entry nz h.at (omega (arith, h.counts, l)) ∙ rw (h.counts) refl,
        Held-set c (c + 1) t' h,
      )

  release-Held :
      (c n : ℕ) (t' : InodeTable P)
      → idx ≢ 0
      → Held c t'
      → n < c
      → (t'' : InodeTable P) × (refer t' (idx + 1) (releases n) ≡ some t'') × Held (c - n) t''
  unfolding refer
  release-Held c n t' nz h l = (
    record t' { table = set t'.table idx (record h.entry { lookups = c - n }) },
    rw (forget_lem t' idx n h.entry path nz h.at h.names, h.counts) (ground arith),
    Held-set c (c - n) t' h,
  )

  release_all :
      (c : ℕ) (t' : InodeTable P) (h : Held c t')
      → idx ≢ 0
      → refer t' (idx + 1) (releases c) ≡ some (forgotten t' idx h.entry path)
  unfolding refer
  release_all c t' h nz =
      rw (forget_lem t' idx c h.entry path nz h.at h.names, h.counts) (ground arith)

  counted :
      (refs : List Reference) (c : ℕ) (t' : InodeTable P) {left : ℕ}
      → idx ≢ 0
      → Held c t'
      → 0 < c
      → remaining c refs ≡ some left
      → (t'' : InodeTable P) × (refer_all t' (idx + 1) refs ≡ some t'')
        × Settled t path (idx + 1) left t''
  unfolding refer_all remaining
  counted [] c t' {left} nz h p r =
      let same : c ≡ left = cc r in
      (t', refl, subst (λ n. Settled t path (idx + 1) n t') same (Held-Settled c t' h p))
  counted (acquires ∷ refs) c t' nz h p r =
      let (t₁, s, h₁) = acquire-Held c t' nz h (ground (arith, r)) in
      let (t₂, s₂, settled) = counted refs (c + 1) t₁ nz h₁ (omega arith) (ground (arith, r)) in
      (t₂, rw s s₂, settled)
  counted (releases n ∷ refs) c t' {left} nz h p r = elim (Bool-cases (ltb n c)) [
    | inl some_left ↦
        let (t₁, s, h₁) = release-Held c n t' nz h (ground arith) in
        let (t₂, s₂, settled) = counted refs (c - n) t₁ nz h₁ (ground arith) (ground (arith, r)) in
        (t₂, rw s s₂, settled)
    | inr none_left ↦
        let all : n ≡ c = ground (arith, r) in
        let zero_left : c - n ≡ 0 = omega arith in
        let (none_more, nothing) =
          remaining-zero refs (ap (λ m. remaining m refs) (sym zero_left) ∙ ground (arith, r)) in
        (
          forgotten t' idx h.entry path,
          rw (all, release_all c t' h nz, none_more, refer_all) refl,
          subst (λ m. Settled t path (idx + 1) m (forgotten t' idx h.entry path)) (sym nothing)
              (forgotten-Settled c t' h),
        )
  ]

module _ {P : Type 0} ⦃e : Eq P⦄ where
  -- From a table that meets the invariant, let the kernel take and give back references to an inode other
  -- than the root's, as many as it has. None of these calls panics. While the count is not zero the inode
  -- and its path lead to each other; when it is zero they have lost each other; and every other path and
  -- inode is as it was. The count does not overflow, and begins above zero.
  pub refer_all-Settled :
      (t : InodeTable P) (path : P) (idx : ℕ) (entry : Entry P) (refs : List Reference) {left : ℕ}
      → Inv t
      → idx ≢ 0
      → t.by_path path ≡ some idx
      → get_elem? t.table idx ≡ some entry
      → 0 < entry.lookups
      → remaining entry.lookups refs ≡ some left
      → (t' : InodeTable P) × (refer_all t (idx + 1) refs ≡ some t')
        × Settled t path (idx + 1) left t'
  refer_all-Settled t path idx entry refs v nz m h p r =
      counted t path idx refs entry.lookups t nz
        (record {
          entry = entry;
          at = h;
          names = sym (path_at-eq t.table idx entry h) ∙ v.mapped path idx m;
          counts = refl;
          map = λ q. refl;
          rest = λ j n. refl;
        })
        p r

  -- In a table that meets the invariant, let a path be renamed to another that has an inode, not the
  -- root's. The new path leads to the inode that was renamed. But when the kernel gives back its last
  -- references to the inode that was replaced, the new path is no longer mapped, though the inode that
  -- was renamed has it still.
  pub forget_unmaps_live_path :
      (t : InodeTable P) (oldpath newpath : P) (idx replaced : ℕ) (entry : Entry P)
      → Inv t
      → replaced ≢ 0
      → oldpath ≢ newpath
      → t.by_path oldpath ≡ some idx
      → t.by_path newpath ≡ some replaced
      → get_elem? t.table replaced ≡ some entry
      → (t₁ : InodeTable P) × (t₂ : InodeTable P) × (rename t oldpath newpath ≡ some t₁)
        × (get_inode t₁ newpath ≡ some (idx + 1))
        × (forget t₁ (replaced + 1) entry.lookups ≡ some (t₂, 0))
        × (get_inode t₂ newpath ≡ none)
        × (get_path t₂ (idx + 1) ≡ some (some newpath))
  unfolding rename get_inode get_path
  forget_unmaps_live_path t oldpath newpath idx replaced entry v nz differ m n h =
      let here : path_at t.table idx ≡ some oldpath = v.mapped oldpath idx m in
      let there : entry.path ≡ some newpath =
        sym (path_at-eq t.table replaced entry h) ∙ v.mapped newpath replaced n in
      let (moved, found) = get_elem?-some t.table idx (path_at-lt t.table idx here) in
      let apart : idx ≢ replaced =
        λ s. differ (cc (here, v.mapped newpath replaced n, ap (path_at t.table) s)) in
      let renamed : InodeTable P = record t {
        table = set t.table idx (record moved { path = some newpath });
        by_path = insert (erase t.by_path oldpath) newpath idx;
      } in
      let kept : get_elem? renamed.table replaced ≡ some entry =
        ground (arith, get_elem?-set t.table idx replaced (record moved { path = some newpath })) in
      (
        renamed,
        forgotten renamed replaced entry newpath,
        rw (m, found) refl,
        ground (arith, beq_refl newpath),
        forget_lem renamed replaced entry.lookups entry newpath nz kept there ∙ ground arith,
        ground (arith, beq_refl newpath),
        ground (
          arith,
          get_elem?-set renamed.table replaced idx (record entry { path = none; lookups = 0 }),
          get_elem?-set t.table idx idx (record moved { path = some newpath }),
          get_elem?-lt t.table idx found,
        ),
      )

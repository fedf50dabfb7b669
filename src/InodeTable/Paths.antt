-- ===== src/InodeTable/Paths.antt =====
-- async_fuse/inode_table.rs: the path at an index of the table, and the slots of the free list.
use fairy.Prelude.{
  ℕ, ◌<◌, ◌≡◌, ◌≢◌, ◌∙◌, Option, none, some, List, [], ◌∷◌, ◌++◌, ltb, ◌==◌, if◌then◌else◌, length,
  get_elem?, set, get_elem?-set, get_elem?-snoc, length-set, length-snoc, get_elem?-none, arith,
}
use fairy.InodeTable.{Entry}

-- `i` is not in the list.
abbrev pub Fresh : ℕ → List ℕ → Type 0
Fresh i [] = Unit {0}
Fresh i (j ∷ js) = (i ≢ j) × Fresh i js

Fresh-snoc : (i j : ℕ) (js : List ℕ) → i ≢ j → Fresh i js → Fresh i (js ++ (j ∷ []))
Fresh-snoc i j [] h f = (h, tt)
Fresh-snoc i j (k ∷ js) h f = (f.0, Fresh-snoc i j js h f.1)

module _ {P : Type 0} where
  pub path_of : Option (Entry P) → Option P
  path_of none = none
  path_of (some entry) = entry.path

  unfoldable pub path_at : List (Entry P) → ℕ → Option P
  unfolding path_of
  path_at table i = path_of (get_elem? table i)

  pub path_at-eq :
      (table : List (Entry P)) (i : ℕ) (entry : Entry P)
      → get_elem? table i ≡ some entry
      → path_at table i ≡ entry.path
  unfolding path_at
  path_at-eq table i entry h = rw h

  pub path_at-set :
      (table : List (Entry P)) (i j : ℕ) (entry : Entry P)
      → path_at (set table i entry) j
        ≡ (if i == j then (if ltb i (length table) then entry.path else none) else path_at table j)
  unfolding path_at
  path_at-set table i j entry = ground (arith, get_elem?-set table i j entry)

  pub path_at-snoc :
      (table : List (Entry P)) (j : ℕ) (entry : Entry P)
      → path_at (table ++ (entry ∷ [])) j
        ≡ (if length table == j then entry.path else path_at table j)
  unfolding path_at
  path_at-snoc table j entry = ground (arith, get_elem?-snoc table j entry)

  pub path_at-lt :
      (table : List (Entry P)) (i : ℕ) {p : P} → path_at table i ≡ some p → i < length table
  unfolding path_at
  path_at-lt table i h = ground (arith, get_elem?-none table i)

  -- Each index of the list is a slot of the table with no path, listed once.
  abbrev pub FreeSlots : List (Entry P) → List ℕ → Type 0
  FreeSlots table [] = Unit {0}
  FreeSlots table (j ∷ js) =
      (j < length table) × (path_at table j ≡ none) × Fresh j js × FreeSlots table js

  pub FreeSlots-set :
      (table : List (Entry P)) (js : List ℕ) (i : ℕ) (entry : Entry P)
      → Fresh i js
      → FreeSlots table js
      → FreeSlots (set table i entry) js
  FreeSlots-set table [] i entry h f = tt
  FreeSlots-set table (j ∷ js) i entry h f = ground (
    arith,
    path_at-set table i j entry,
    length-set table i entry,
    FreeSlots-set table js i entry h.1 f.3,
  )

  pub Fresh-of_path :
      (table : List (Entry P)) (js : List ℕ) (i : ℕ) {p : P}
      → path_at table i ≡ some p
      → FreeSlots table js
      → Fresh i js
  Fresh-of_path table [] i h f = tt
  Fresh-of_path table (j ∷ js) i h f = (λ e. ground arith, Fresh-of_path table js i h f.3)

  pub FreeSlots-snoc :
      (table : List (Entry P)) (js : List ℕ) (i : ℕ)
      → i < length table
      → path_at table i ≡ none
      → Fresh i js
      → FreeSlots table js
      → FreeSlots table (js ++ (i ∷ []))
  FreeSlots-snoc table [] i h e f s = (h, e, tt, tt)
  FreeSlots-snoc table (j ∷ js) i h e f s =
      (s.0, s.1, Fresh-snoc j i js (ground arith) s.2, FreeSlots-snoc table js i h e f.1 s.3)

  pub FreeSlots-grow :
      (table : List (Entry P)) (js : List ℕ) (entry : Entry P)
      → FreeSlots table js
      → FreeSlots (table ++ (entry ∷ [])) js
  FreeSlots-grow table [] entry f = tt
  FreeSlots-grow table (j ∷ js) entry f = ground (
    arith,
    path_at-snoc table j entry,
    length-snoc table entry,
    FreeSlots-grow table js entry f.3,
  )

  pub FreeSlots-same_paths :
      (table table' : List (Entry P)) (js : List ℕ)
      → length table ≡ length table'
      → ((j : ℕ) → path_at table' j ≡ path_at table j)
      → FreeSlots table js
      → FreeSlots table' js
  FreeSlots-same_paths table table' [] l h f = tt
  FreeSlots-same_paths table table' (j ∷ js) l h f =
      (omega arith, h j ∙ f.1, f.2, FreeSlots-same_paths table table' js l h f.3)

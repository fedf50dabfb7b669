-- ===== src/UringFs/Listing.antt =====
-- fuse/src/uring_fuse/uring_fs/mod.rs: what `readdir` lists, and at which offsets.
use fairy.Prelude.{
  ℕ, zero, suc, ◌+◌, ◌≤◌, ◌<◌, ◌%◌, ◌^◌, ◌≡◌, refl, ap, sym, Bool, some, List, [], ◌∷◌, length,
  get_elem?, inl, inr, ◌⊎◌, arith, Bool-cases, ◌==◌, ◌∙◌, get_elem?-snoc,
}
use mathlib.Core.Path.{subst}
use fairy.Prelude.BTreeMap.{Bytes}
use fairy.UringFs.{
  Inode, InodeManager, UringFilesystem, Found, ok, err, replied, error, DirectoryEntry, get,
  lookup_inode, add, add_found, list_entries, counted, first, readdir, enoent,
}

-- The entry that the name at an index, at or after the offset of the call, leads to; it comes with
-- the sum of that index, of the offset and of two.
abbrev pub IsEntry : UringFilesystem → ℕ → ℕ → List Bytes → DirectoryEntry → Type 0
IsEntry fs ino offset names e =
    (i : ℕ) × (name : Bytes) × (inode : Inode) × (get_elem? names i ≡ some name)
    × (offset ≤ i)
    × (lookup_inode fs.inode_manager ino name ≡ ok inode)
    × (e ≡ record {
      ino = inode.ino;
      offset = (i + offset + 2) % 2 ^ 64;
      kind = inode.kind;
      name = inode.name;
    })

module _ (full : List DirectoryEntry → DirectoryEntry → Bool) where
  -- Skipping as many names as there are lists nothing.
  list_entries-skipped :
      (m : InodeManager) (ino offset i n : ℕ) (names : List Bytes) (r : List DirectoryEntry × ℕ)
      → length names ≤ n
      → list_entries full m ino offset i n names r ≡ r
  unfolding list_entries
  list_entries-skipped m ino offset i n [] r h = refl
  list_entries-skipped m ino offset i zero (name ∷ names) r h = absurd (omega arith)
  list_entries-skipped m ino offset i (suc n) (name ∷ names) r h =
      list_entries-skipped m ino offset (suc i) n names r (omega arith)

  -- A call of readdir past the last name of a directory replies that the directory does not exist.
  readdir_end :
      (fs : UringFilesystem) (ino offset : ℕ) (inode : Inode) (names : List Bytes)
      → fs.inode_manager.inodes ino ≡ some inode
      → fs.ls_cache inode.full_path ≡ some names
      → length names ≤ offset
      → 0 < offset
      → readdir full fs ino offset ≡ error enoent
  unfolding readdir get
  readdir_end fs ino offset inode names i c l p =
      ground
        (arith, i, c, list_entries-skipped fs.inode_manager ino offset 0 offset names ([], 0) l)

  abbrev Each : (DirectoryEntry → Type 0) → List DirectoryEntry → Type 0
  Each P entries = (j : ℕ) (e : DirectoryEntry) → get_elem? entries j ≡ some e → P e

  add-Each :
      (P : DirectoryEntry → Type 0) (entries : List DirectoryEntry) (d : DirectoryEntry)
      → Each P entries
      → P d
      → Each P (add full entries d)
  add-Each P entries d h p j e g = elim (Bool-cases (full entries d)) [
    | inl f ↦ h j e (ground arith)
    | inr f ↦ elim (Bool-cases (length entries == j)) [
      | inl q ↦ subst P (ground (arith, get_elem?-snoc entries j d)) p
      | inr q ↦ h j e (ground (arith, get_elem?-snoc entries j d))
    ]
  ]

  module _ (P : DirectoryEntry → Type 0) (m : InodeManager) (ino offset : ℕ) (all : List Bytes)
      (entered : (i : ℕ) (name : Bytes) (inode : Inode)
        → get_elem? all i ≡ some name
        → offset ≤ i
        → lookup_inode m ino name ≡ ok inode
        → P (record {
          ino = inode.ino;
          offset = (i + offset + 2) % 2 ^ 64;
          kind = inode.kind;
          name = inode.name;
        })) where
    found_lem :
        (f : Found) (i : ℕ) (name : Bytes) (r : List DirectoryEntry × ℕ)
        → lookup_inode m ino name ≡ f
        → get_elem? all i ≡ some name
        → offset ≤ i
        → Each P r.0
        → Each P (add_found full f ((i + offset + 2) % 2 ^ 64) r).0
    found_lem (err e) i name r l g o h = h
    found_lem (ok inode) i name r l g o h = add-Each P r.0 _ h (entered i name inode g o l)

    list_entries-Each :
        (i n : ℕ) (names : List Bytes) (r : List DirectoryEntry × ℕ)
        → ((k : ℕ) → get_elem? names k ≡ get_elem? all (i + k))
        → offset ≤ i + n
        → Each P r.0
        → Each P (list_entries full m ino offset i n names r).0
    unfolding list_entries
    list_entries-Each i n [] r g o h = h
    list_entries-Each i (suc n) (name ∷ names) r g o h =
        list_entries-Each (suc i) n names r (λ k. g (suc k) ∙ ap (get_elem? all) (omega arith))
          (omega arith) h
    list_entries-Each i zero (name ∷ names) r g o h =
        list_entries-Each (suc i) zero names _ (λ k. g (suc k) ∙ ap (get_elem? all) (omega arith))
          (omega arith)
          (found_lem (lookup_inode m ino name) i name r refl
            (ap (get_elem? all) (omega arith) ∙ sym (g 0)) (omega arith) h)

  -- What readdir lists are the directory itself, at the start only, and entries that the cached names
  -- at or after the offset lead to; each comes with its index plus the offset plus two.
  pub readdir-IsEntry :
      (fs : UringFilesystem) (ino offset : ℕ) (inode : Inode) (names : List Bytes)
      {entries : List DirectoryEntry} (j : ℕ) (e : DirectoryEntry)
      → fs.inode_manager.inodes ino ≡ some inode
      → fs.ls_cache inode.full_path ≡ some names
      → readdir full fs ino offset ≡ replied entries
      → get_elem? entries j ≡ some e
      → ((offset ≡ 0) × (e.ino ≡ ino)) ⊎ IsEntry fs ino offset names e
  unfolding readdir get
  readdir-IsEntry fs ino offset inode names {entries} j e i c l g =
      list_entries-Each P fs.inode_manager ino offset names
        (λ k name found a b d. inr (k, name, found, a, b, d, refl)) 0 offset names
        (first full ino offset) (λ k. ap (get_elem? names) (omega arith)) (omega arith) start j e
        (ap (λ x. get_elem? x j) listed ∙ g)
    where
      P : DirectoryEntry → Type 0
      P d = ((offset ≡ 0) × (d.ino ≡ ino)) ⊎ IsEntry fs ino offset names d

      start : Each P (first full ino offset).0
      start zero d h = inl (ground arith)
      start (suc k) d h = absurd (ground arith)

      result : List DirectoryEntry × ℕ
      result = list_entries full fs.inode_manager ino offset 0 offset names (first full ino offset)

      counted_lem : (r : List DirectoryEntry × ℕ) → counted full r ≡ replied entries → r.0 ≡ entries
      counted_lem (a, zero) h = cc
      counted_lem (a, suc n) h = cc

      listed : result.0 ≡ entries
      listed = counted_lem result (ground (arith, i, c, l))

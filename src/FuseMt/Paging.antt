-- ===== src/FuseMt/Paging.antt =====
-- async_fuse/fusemt.rs: the pages of a directory, from the first to the last.
use fairy.Prelude.{
  ℕ, zero, suc, ◌+◌, ◌<◌, ◌≡◌, refl, ap, sym, ◌∙◌, pos, Bool, false, Option, none, some, List, [],
  ◌∷◌, ◌++◌, length, ◌>>=◌, Eq, nat_eq, arith, ◌⊎◌, inl, inr, Bool-cases, length-append,
}
use mathlib.Core.List.{append-nil, append_assoc}
use fairy.InodeTable
use fairy.FuseMt.{CachedEntry, DirectoryCacheEntry, FuseMt, Answer, ok, Reply, replied, error}
use fairy.FuseMt.Directories.{Listed, skip, listed, list_entries, find_parent_inode, fill, readdir}

skip-empty : {A : Type 0} (n : ℕ) → skip {A = A} n [] ≡ []
unfolding skip
skip-empty zero = refl
skip-empty (suc n) = refl

skip-add : {A : Type 0} (m n : ℕ) (xs : List A) → skip (m + n) xs ≡ skip n (skip m xs)
unfolding skip
skip-add zero n xs = ap (λ k. skip k xs) (omega arith)
skip-add (suc m) n [] = skip-empty (suc m + n) ∙ sym (skip-empty n)
skip-add (suc m) n (x ∷ xs) = ap (λ k. skip k (x ∷ xs)) shift ∙ skip-add m n xs
  where
    shift : suc m + n ≡ suc (m + n)
    shift = omega arith

skip-length : {A : Type 0} (xs ys : List A) → skip (length xs) (xs ++ ys) ≡ ys
unfolding skip
skip-length [] ys = refl
skip-length (x ∷ xs) ys = skip-length xs ys

skip-split :
    {A : Type 0} (n : ℕ) (all : List A) {x : A} (taken left : List A)
    → skip n all ≡ x ∷ (taken ++ left)
    → skip (n + 1 + length taken) all ≡ left
unfolding skip
skip-split n all taken left s =
    skip-add (n + 1) (length taken) all
    ∙ ap (λ l. skip (length taken) l) (skip-add n 1 all ∙ ap (λ l. skip 1 l) s)
    ∙ skip-length taken left

-- Where the kernel continues after a page.
unfoldable pub next_offset : {N : Type 0} → ℕ → List (Listed N) → ℕ
next_offset offset [] = offset
next_offset offset (l ∷ ls) = next_offset l.offset ls

module _ {N : Type 0} ⦃e : Eq N⦄ (dot dotdot : N) (ino parent_inode : ℕ) where
  -- All the entries, numbered from a position on.
  unfoldable pub numbered : ℕ → List (CachedEntry N) → List (Listed N)
  numbered position [] = []
  numbered position (entry ∷ entries) =
      listed dot dotdot ino parent_inode position entry ∷ numbered (position + 1) entries

  numbered-++ :
      (position : ℕ) (xs ys : List (CachedEntry N))
      → numbered position (xs ++ ys) ≡ numbered position xs ++ numbered (position + length xs) ys
  unfolding numbered
  numbered-++ position [] ys = ap (λ p. numbered p ys) (omega arith)
  numbered-++ position (x ∷ xs) ys =
      ap (λ ls. listed dot dotdot ino parent_inode position x ∷ ls)
        (numbered-++ (position + 1) xs ys
          ∙ ap (λ p. numbered (position + 1) xs ++ numbered p ys) (omega arith))

  next_offset-numbered :
      (position : ℕ) (xs : List (CachedEntry N))
      → next_offset position (numbered position xs) ≡ position + length xs
  unfolding next_offset numbered
  next_offset-numbered position [] = omega arith
  next_offset-numbered position (x ∷ xs) = next_offset-numbered (position + 1) xs ∙ omega arith

  -- How far a page goes.
  record Page (page : List (Listed N) → List (Listed N)) (position : ℕ)
      (entries : List (CachedEntry N)) (reply : List (Listed N)) : Type 0 where
    pub taken : List (CachedEntry N)
    pub left : List (CachedEntry N)
    pub split : entries ≡ taken ++ left
    pub given : page reply ≡ reply ++ numbered position taken

  module _ (full : List (Listed N) → Listed N → Bool) where
    list_entries-Page :
        (position : ℕ) (entries : List (CachedEntry N)) (reply : List (Listed N))
        → Page
            (list_entries dot dotdot full ino parent_inode position entries)
            position
            entries
            reply
    unfolding list_entries numbered
    list_entries-Page position [] reply = record {
      taken = [];
      left = [];
      split = refl;
      given = sym (append-nil reply);
    }
    list_entries-Page position (x ∷ xs) reply =
        let added = listed dot dotdot ino parent_inode position x in
        let more = list_entries-Page (position + 1) xs (reply ++ (added ∷ [])) in
        elim (Bool-cases (full reply added)) [
          | inl f ↦ record {
            taken = [];
            left = x ∷ xs;
            split = refl;
            given = rw f (sym (append-nil reply));
          }
          | inr f ↦ record {
            taken = x ∷ more.taken;
            left = more.left;
            split = ap (λ l. x ∷ l) more.split;
            given = rw f (more.given ∙ append_assoc reply (added ∷ []) _);
          }
        ]

module _ {P N : Type 0} ⦃e : Eq P⦄ ⦃d : Eq N⦄ (parent : P → Option P) (dot dotdot : N)
    (full : List (Listed N) → Listed N → Bool) (ino key : ℕ)
    (answer : P → ℕ → Answer (List (CachedEntry N))) where
  abbrev pub collect_page :
      (FuseMt P N → ℕ → Option (List (Listed N)))
      → ℕ
      → Reply (List (Listed N)) × FuseMt P N
      → Option (List (Listed N))
  collect_page more offset (error n, fs) = none
  collect_page more offset (replied [], fs) = some []
  collect_page more offset (replied (l ∷ ls), fs) =
      more fs (next_offset offset (l ∷ ls)) >>= λ rest. some ((l ∷ ls) ++ rest)

  -- A client that asks again where the last page ended, till a page is empty.
  unfoldable pub collect : ℕ → FuseMt P N → ℕ → Option (List (Listed N))
  collect zero fs offset = none
  collect (suc fuel) fs offset =
      readdir parent dot dotdot full fs ino key (pos offset) answer
      >>= collect_page (collect fuel) offset

  -- An open directory with its path, the inode of its parent and the file system's entries.
  pub record Open (fs : FuseMt P N) (parent_inode : ℕ) (entries : List (CachedEntry N))
      : Type 0 where
    pub path : P
    pub handle : DirectoryCacheEntry N
    pub at : InodeTable.get_path fs.inodes ino ≡ some (some path)
    pub opened : fs.directory_cache.entries key ≡ some handle
    pub under : find_parent_inode parent fs ino path ≡ some (ok parent_inode)
    pub listing :
        (handle.entries ≡ some entries)
        ⊎ ((handle.entries ≡ none) × (answer path handle.fh ≡ ok entries))

  -- One page, from whatever the cache has.
  record Paged (fs : FuseMt P N) (parent_inode offset : ℕ) (entries : List (CachedEntry N))
      : Type 0 where
    pub next : FuseMt P N
    pub ready : Open next parent_inode entries
    pub page :
        readdir parent dot dotdot full fs ino key (pos offset) answer
        ≡ some (
          replied (list_entries dot dotdot full ino parent_inode offset (skip offset entries) []),
          next,
        )

  readdir-Paged :
      (fs : FuseMt P N) (parent_inode offset : ℕ) (entries : List (CachedEntry N))
      → Open fs parent_inode entries
      → Paged fs parent_inode offset entries
  unfolding readdir find_parent_inode
  readdir-Paged fs parent_inode offset entries o = elim o.listing [
    | inl c ↦ record { next = fs; ready = o; page = rw (o.at, o.opened, c, o.under) refl }
    | inr (c, a) ↦ record {
      next = fill fs key o.handle.fh entries;
      ready = record {
        path = o.path;
        handle = record { fh = o.handle.fh; entries = some entries };
        at = o.at;
        opened = ground arith;
        under = o.under;
        listing = inl refl;
      };
      page = rw (o.at, o.opened, c, a, o.under) refl;
    }
  ]

  module _ (roomy : (l : Listed N) → full [] l ≡ false) where
    collect-numbered :
        (fuel : ℕ) (fs : FuseMt P N) (parent_inode offset : ℕ) (all rest : List (CachedEntry N))
        → Open fs parent_inode all
        → skip offset all ≡ rest
        → length rest < fuel
        → collect fuel fs offset ≡ some (numbered dot dotdot ino parent_inode offset rest)
    unfolding collect list_entries numbered next_offset
    collect-numbered zero fs parent_inode offset all rest o s h = absurd (omega arith)
    collect-numbered (suc fuel) fs parent_inode offset all [] o s h =
        let paged = readdir-Paged fs parent_inode offset all o in rw (paged.page, s) refl
    collect-numbered (suc fuel) fs parent_inode offset all (x ∷ xs) o s h =
        let paged = readdir-Paged fs parent_inode offset all o in
        let added = listed dot dotdot ino parent_inode offset x in
        let more =
          list_entries-Page dot dotdot ino parent_inode full (offset + 1) xs (added ∷ []) in
        let next = offset + 1 + length more.taken in
        let ended = next_offset-numbered dot dotdot ino parent_inode (offset + 1) more.taken in
        let left =
          collect-numbered fuel paged.next parent_inode next all more.left paged.ready
            (skip-split offset all more.taken more.left (s ∙ ap (λ l. x ∷ l) more.split))
            (omega (arith, ap length more.split, length-append more.taken more.left)) in
        rw (paged.page, s, roomy added, more.given, ended, left)
          (ap (λ ls. some (added ∷ ls))
            (sym (numbered-++ dot dotdot ino parent_inode (offset + 1) more.taken more.left)
              ∙ ap (λ l. numbered dot dotdot ino parent_inode (offset + 1) l) (sym more.split)))

    -- A kernel that asks for the entries of an open directory from offset 0 on, and again where the
    -- last reply ended till a reply is empty, gets every entry of the file system's listing once, in
    -- order, each with its position, however many fit in a reply, if at least one fits, and if the
    -- parent directory has an inode. As many calls as there are entries and one more are enough.
    pub collect-all :
        (fuel : ℕ) (fs : FuseMt P N) (parent_inode : ℕ) (entries : List (CachedEntry N))
        → Open fs parent_inode entries
        → length entries < fuel
        → collect fuel fs 0 ≡ some (numbered dot dotdot ino parent_inode 0 entries)
    unfolding skip
    collect-all fuel fs parent_inode entries o h =
        collect-numbered fuel fs parent_inode 0 entries entries o refl h
